-- ===== src/Queue/Invariant.antt =====
-- The representation invariant of the ring, and what it rules out.
use catshadow.Prelude.{◌+◌, ◌%◌, ◌≤◌, ◌<◌, ◌≡◌, some, arith, length, length-set}
use catshadow.Fifo.{Call, pushes, pops, peeks, QueuedSpoolCommand}
use catshadow.Queue.{Queue, max_queue_size, new_queue, zero_command, push, pop, step}

pub record IsValid (q : Queue) : Type 0 where
  pub array : length q.content ≡ max_queue_size
  pub read_in : q.read_head < max_queue_size
  pub len_in : q.len ≤ max_queue_size
  pub write_at : q.write_head ≡ (q.read_head + q.len) % max_queue_size

pub new_queue-IsValid : IsValid new_queue
new_queue-IsValid = omega arith

pub push-IsValid : (q : Queue) (e : QueuedSpoolCommand) → IsValid q → IsValid (push q e).1
unfolding push
push-IsValid q e v = ground (arith, length-set q.content q.write_head (some e))

pub pop-IsValid : (q : Queue) → IsValid q → IsValid (pop q).1
unfolding pop
pop-IsValid q v = ground (arith, length-set q.content q.read_head (some zero_command))

-- Every call keeps the queue well formed, and in a well-formed queue both heads are indices of the
-- array, so that no method of a queue can index out of it.
pub step-IsValid :
    (q : Queue) (c : Call)
    → IsValid q
    → let q' = (step q c).1 in
      IsValid q' × (q'.read_head < length q'.content) × (q'.write_head < length q'.content)
unfolding step
step-IsValid q (pushes e) v = let v' = push-IsValid q e v in (v', omega arith, omega arith)
step-IsValid q pops v = let v' = pop-IsValid q v in (v', omega arith, omega arith)
step-IsValid q peeks v = (v, omega arith, omega arith)
