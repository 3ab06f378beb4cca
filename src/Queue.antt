-- ===== src/Queue.antt =====
-- queue.go: the client's egress queue, a ring of `max_queue_size` pointers. The `int` fields start
-- at 0 and never fall below it, so they are naturals; an index out of the array reads nil and
-- writes nothing here, and Queue/Invariant.antt shows that no valid queue makes one. The lock has
-- no counterpart: each method holds it from start to end, so methods are single steps.
pub mod Invariant
pub mod Refine
pub mod Codec
mod Examples
use catshadow.Prelude.{
  ℕ, zero, suc, ◌+◌, ◌-◌, ◌%◌, List, [], ◌∷◌, Option, none, some, Result, ok, err, leb, get_or, set,
  replicate, if◌then◌else◌,
}
use catshadow.Fifo.{
  QueuedSpoolCommand, QueueError, queue_full, queue_empty, Call, pushes, pops, peeks, Reply, pushed,
  got,
}

abbrev pub max_queue_size : ℕ
max_queue_size = 20

pub record Queue : Type 0 where
  pub content : List (Option QueuedSpoolCommand)
  pub read_head : ℕ
  pub write_head : ℕ
  pub len : ℕ

-- `new(Queue)`
abbrev pub new_queue : Queue
new_queue = record {
  content = replicate max_queue_size none;
  read_head = 0;
  write_head = 0;
  len = 0;
}

-- `&queuedSpoolCommand{}`, whose `ID` is an array of `MessageIDLen` zero bytes.
abbrev pub zero_command : QueuedSpoolCommand
zero_command = record { provider = ""; receiver = ""; command = []; id = replicate 4 0 }

unfoldable pub push : Queue → QueuedSpoolCommand → Option QueueError × Queue
push q e = if leb max_queue_size q.len then (some queue_full, q) else (
  none,
  record q {
    content = set q.content q.write_head (some e);
    write_head = (q.write_head + 1) % max_queue_size;
    len = q.len + 1;
  },
)

unfoldable pub pop : Queue → Result (Option QueuedSpoolCommand) QueueError × Queue
pop q = if leb q.len 0 then (err queue_empty, q) else (
  ok (get_or q.content q.read_head none),
  record q {
    content = set q.content q.read_head (some zero_command);
    read_head = (q.read_head + 1) % max_queue_size;
    len = q.len - 1;
  },
)

unfoldable pub peek : Queue → Result (Option QueuedSpoolCommand) QueueError
peek q = if leb q.len 0 then err queue_empty else ok (get_or q.content q.read_head none)

-- One method call, as a caller makes it.
unfoldable pub step : Queue → Call → Reply × Queue
step q (pushes e) = let (r, q') = push q e in (pushed r, q')
step q pops = let (r, q') = pop q in (got r, q')
step q peeks = (got (peek q), q)

unfoldable pub run : Queue → List Call → List Reply
run q [] = []
run q (c ∷ cs) = let (r, q') = step q c in r ∷ run q' cs
