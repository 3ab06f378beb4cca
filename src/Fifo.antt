-- ===== src/Fifo.antt =====
-- The specification of the egress queue: a first-in first-out queue of at most `cap` entries, with
-- what a caller can ask of it and what it sees.
use catshadow.Prelude.{
  ℕ, Bytes, String, List, [], ◌∷◌, ◌++◌, Option, none, some, Result, ok, err, length, leb,
  if◌then◌else◌,
}

-- `queuedSpoolCommand` of client.go.
pub record QueuedSpoolCommand : Type 0 where
  pub provider : String
  pub receiver : String
  pub command : Bytes
  pub id : Bytes

-- `ErrQueueFull` and `ErrQueueEmpty` of queue.go.
pub data QueueError : Type 0 where
  queue_full queue_empty : QueueError

pub data Call : Type 0 where
  pushes : QueuedSpoolCommand → Call
  pops peeks : Call

-- A call's result: the error of `Push`, or the pointer and error of `Pop` and `Peek`.
pub data Reply : Type 0 where
  pushed : Option QueueError → Reply
  got : Result (Option QueuedSpoolCommand) QueueError → Reply

abbrev pub Fifo : Type 0
Fifo = List QueuedSpoolCommand

unfoldable pub front : Fifo → Result (Option QueuedSpoolCommand) QueueError
front [] = err queue_empty
front (e ∷ l) = ok (some e)

unfoldable pub rest : Fifo → Fifo
rest [] = []
rest (e ∷ l) = l

unfoldable pub step : ℕ → Fifo → Call → Reply × Fifo
step cap l (pushes e) =
    if leb cap (length l) then (pushed (some queue_full), l) else (pushed none, l ++ e ∷ [])
step cap l pops = (got (front l), rest l)
step cap l peeks = (got (front l), l)

unfoldable pub run : ℕ → Fifo → List Call → List Reply
run cap l [] = []
run cap l (c ∷ cs) = let (r, l') = step cap l c in r ∷ run cap l' cs
