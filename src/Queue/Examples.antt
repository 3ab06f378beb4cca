-- ===== src/Queue/Examples.antt =====
-- Runs of the queue of queue.go on commands that are written out.
use catshadow.Prelude.{
  ℕ, suc, ◌≡◌, refl, Option-cases, inl, inr, replicate, List, [], ◌∷◌, ◌<◌, Bytes, Option, none,
  some, Result, ok, err, arith, length,
}
use catshadow.Fifo
use catshadow.Fifo.{QueuedSpoolCommand, Call, pushes, pops, peeks, Reply, pushed, got, queue_empty}
use catshadow.Queue.{new_queue, max_queue_size, push, pop, peek, step, run}
use catshadow.Queue.Invariant.{IsValid, new_queue-IsValid, step-IsValid}
use catshadow.Queue.Refine.{run_refines, new_queue-Holds}
use catshadow.Queue.Codec.{
  Cbor, SerializedQ, to_serialized, copy_from, marshal_binary, unmarshal_binary,
  unmarshal_binary-marshal_binary,
}

abbrev first : QueuedSpoolCommand
first = record {
  provider = "p";
  receiver = "+spool";
  command = 1 ∷ 2 ∷ [];
  id = 0 ∷ 0 ∷ 0 ∷ 1 ∷ [];
}

abbrev second : QueuedSpoolCommand
second = record { provider = "p"; receiver = "+spool"; command = 3 ∷ []; id = 0 ∷ 0 ∷ 0 ∷ 2 ∷ [] }

abbrev calls : List Call
calls = pushes first ∷ pushes second ∷ pops ∷ peeks ∷ pops ∷ pops ∷ []

run_in_order :
    run new_queue calls
    ≡ pushed none
      ∷ pushed none
      ∷ got (ok (some first))
      ∷ got (ok (some second))
      ∷ got (ok (some second))
      ∷ got (err queue_empty)
      ∷ []
unfolding run step push pop peek
run_in_order = refl

run_refines_example : run new_queue calls ≡ Fifo.run max_queue_size [] calls
run_refines_example = run_refines new_queue [] calls new_queue-Holds

step-IsValid_example :
    let q' = (step new_queue (pushes first)).1 in
    IsValid q' × (q'.read_head < length q'.content) × (q'.write_head < length q'.content)
step-IsValid_example = step-IsValid new_queue (pushes first) new_queue-IsValid

-- An encoding of the queues whose array holds no command.
abbrev none_of : List (Option QueuedSpoolCommand) → Option ℕ
none_of [] = some 0
none_of (some e ∷ c) = none
none_of (none ∷ c) = elim (none_of c) [ none ↦ none | some n ↦ some (suc n) ]

none_of_lem :
    (c : List (Option QueuedSpoolCommand)) (n : ℕ) → none_of c ≡ some n → c ≡ replicate n none
none_of_lem [] n e = ground (arith, e)
none_of_lem (some x ∷ c) n e = cc
none_of_lem (none ∷ c) n e = elim (Option-cases (none_of c)) [
  | inl h ↦ ground (arith, h)
  | inr (m, h) ↦ ground (arith, h, none_of_lem c m h)
]

abbrev marshal_empty : SerializedQ → Result Bytes (Unit {0})
marshal_empty s = elim (none_of s.content) [
  | none ↦ err tt
  | some n ↦ ok (n ∷ s.read_head ∷ s.write_head ∷ s.len ∷ [])
]

abbrev unmarshal_empty : Bytes → SerializedQ → Result SerializedQ (Unit {0})
unmarshal_empty (n ∷ r ∷ w ∷ l ∷ []) t =
    ok (record { content = replicate n none; read_head = r; write_head = w; len = l })
unmarshal_empty _ t = err tt

empty_reads_back :
    (s t : SerializedQ) (b : Bytes) → marshal_empty s ≡ ok b → unmarshal_empty b t ≡ ok s
empty_reads_back s t b e = elim (Option-cases (none_of s.content)) [
  | inl h ↦ ground (arith, h)
  | inr (n, h) ↦ ground (arith, h, none_of_lem s.content n h)
]

abbrev empty_cbor : Cbor
empty_cbor = record {
  CborError = Unit {0};
  marshal = marshal_empty;
  unmarshal = unmarshal_empty;
  reads_back = empty_reads_back;
}

unmarshal_binary-marshal_binary_example :
    unmarshal_binary empty_cbor (20 ∷ 0 ∷ 0 ∷ 0 ∷ []) (push new_queue first).1 ≡ (none, new_queue)
unfolding marshal_binary to_serialized copy_from push
unmarshal_binary-marshal_binary_example =
    unmarshal_binary-marshal_binary empty_cbor new_queue (push new_queue first).1
      (20 ∷ 0 ∷ 0 ∷ 0 ∷ []) new_queue-IsValid refl refl
