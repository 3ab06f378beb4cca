-- ===== src/Queue/Refine.antt =====
-- A well-formed ring behaves as the queue of the commands that it holds.
use catshadow.Prelude.{
  ℕ, zero, suc, ◌+◌, ◌-◌, ◌%◌, ◌<◌, ◌≡◌, ◌≢◌, refl, ap, ap₂, ◌∙◌, List, [], ◌∷◌, ◌++◌, map, Option,
  none, some, ok, arith, length, get_or, set, get_or-set_self, get_or-set_ne,
}
use catshadow.Fifo
use catshadow.Fifo.{QueuedSpoolCommand, Call, pushes, pops, peeks, Fifo}
use catshadow.Queue.{Queue, max_queue_size, new_queue, zero_command, push, pop, peek, step, run}
use native.Mathlib.Decide.{dec_lt}
use catshadow.Queue.Invariant.{IsValid, new_queue-IsValid, push-IsValid, pop-IsValid}

abbrev Pointer : Type 0
Pointer = Option QueuedSpoolCommand

-- The `n` entries from index `h` on, going round at the end of the array.
abbrev pub window : List Pointer → ℕ → ℕ → List Pointer
window c h zero = []
window c h (suc n) = get_or c h none ∷ window c ((h + 1) % max_queue_size) n

abbrev pub contents : Queue → List Pointer
contents q = window q.content q.read_head q.len

-- The queue is well formed and holds these commands, oldest first.
pub record Holds (q : Queue) (l : Fifo) : Type 0 where
  pub valid : IsValid q
  pub held : contents q ≡ map some l

length-window : (c : List Pointer) (h n : ℕ) → length (window c h n) ≡ n
length-window c h zero = refl
length-window c h (suc n) = ap suc (length-window c ((h + 1) % max_queue_size) n)

length-map-some : (l : Fifo) → length (map some l) ≡ length l
length-map-some [] = refl
length-map-some (e ∷ l) = ap suc (length-map-some l)

pub len-Holds : (q : Queue) (l : Fifo) → Holds q l → q.len ≡ length l
len-Holds q l h =
    omega (arith, length-window q.content q.read_head q.len, ap length h.held, length-map-some l)

-- Writing outside a window leaves it alone.
window-set_outside :
    (c : List Pointer) (p : Pointer) (n h i : ℕ)
    → ((k : ℕ) → k < n → (h + k) % max_queue_size ≢ i)
    → h < max_queue_size
    → window (set c i p) h n ≡ window c h n
window-set_outside c p zero h i out b = refl
window-set_outside c p (suc n) h i out b =
    ap₂ ◌∷◌ (get_or-set_ne c p none (λ e. out 0 (omega arith) (omega arith))) (
      window-set_outside c p n ((h + 1) % max_queue_size) i
        (λ k lt e. out (suc k) (omega arith) (omega arith)) (omega arith))

-- Writing just past a window extends it by that entry.
window-set_end :
    (c : List Pointer) (p : Pointer) (n h i : ℕ)
    → length c ≡ max_queue_size
    → h < max_queue_size
    → n < max_queue_size
    → i ≡ (h + n) % max_queue_size
    → window (set c i p) h (suc n) ≡ window c h n ++ p ∷ []
window-set_end c p zero h i s hh hn e =
    ap (λ (x : Pointer). x ∷ [])
      (ap (λ (j : ℕ). get_or (set c i p) j none) (omega arith)
        ∙ get_or-set_self c i p none (omega arith))
window-set_end c p (suc n) h i s hh hn e =
    ap₂ ◌∷◌ (get_or-set_ne c p none (omega arith)) (
      window-set_end c p n ((h + 1) % max_queue_size) i s (omega arith) (omega arith) (omega arith))

window_of_pos :
    (c : List Pointer) (h n : ℕ)
    → 0 < n
    → window c h n ≡ get_or c h none ∷ window c ((h + 1) % max_queue_size) (n - 1)
window_of_pos c h zero p = absurd (omega arith)
window_of_pos c h (suc n) p = ap (λ (k : ℕ). window c h (suc k)) (omega arith)

map-append_one :
    (l : Fifo) (e : QueuedSpoolCommand) → map some (l ++ e ∷ []) ≡ map some l ++ some e ∷ []
map-append_one [] e = refl
map-append_one (x ∷ l) e = ap (◌∷◌ (some x)) (map-append_one l e)

-- `Push` on a queue with room appends the command; on a full one it changes nothing.
pub push_refines :
    (q : Queue) (l : Fifo) (e : QueuedSpoolCommand)
    → Holds q l
    → let (r, q') = push q e in
      let (s, l') = Fifo.step max_queue_size l (pushes e) in (Fifo.pushed r ≡ s) × Holds q' l'
unfolding push Fifo.step
push_refines q l e h = elim (dec_lt q.len max_queue_size) [
  | yes room ↦ ground (
    arith,
    len-Holds q l h,
    h.held,
    map-append_one l e,
    push-IsValid q e h.valid,
    window-set_end q.content (some e) q.len q.read_head q.write_head,
  )
  | no full ↦ ground (arith, len-Holds q l h)
]

-- What `Peek` and `Pop` return is the oldest command, or the error of an empty queue.
pub peek_refines : (q : Queue) (l : Fifo) → Holds q l → peek q ≡ Fifo.front l
unfolding peek Fifo.front
peek_refines q [] h = ground (arith, len-Holds q [] h)
peek_refines q (e ∷ l) h =
    ground (arith, len-Holds q (e ∷ l) h, h.held, window_of_pos q.content q.read_head q.len)

pub pop_refines :
    (q : Queue) (l : Fifo)
    → Holds q l
    → let (r, q') = pop q in (r ≡ Fifo.front l) × Holds q' (Fifo.rest l)
unfolding pop Fifo.front Fifo.rest
pop_refines q [] h = ground (arith, len-Holds q [] h)
pop_refines q (e ∷ l) h = ground (
  arith,
  len-Holds q (e ∷ l) h,
  h.held,
  pop-IsValid q h.valid,
  window_of_pos q.content q.read_head q.len,
  window-set_outside q.content (some zero_command) (q.len - 1) ((q.read_head + 1) % max_queue_size)
      q.read_head (λ k lt ek. omega arith) (omega arith),
)

pub step_refines :
    (q : Queue) (l : Fifo) (c : Call)
    → Holds q l
    → let (r, q') = step q c in let (s, l') = Fifo.step max_queue_size l c in (r ≡ s) × Holds q' l'
unfolding step
step_refines q l (pushes e) h = push_refines q l e h
step_refines q l pops h = unfold Fifo.step in let (r, k) = pop_refines q l h in (ap Fifo.got r, k)
step_refines q l peeks h = unfold Fifo.step in (ap Fifo.got (peek_refines q l h), h)

-- No sequence of calls tells a well-formed ring from the bounded first-in first-out queue of the
-- commands that it holds: the ring returns what that queue returns, errors included.
pub run_refines :
    (q : Queue) (l : Fifo) (cs : List Call) → Holds q l → run q cs ≡ Fifo.run max_queue_size l cs
unfolding run Fifo.run
run_refines q l [] h = refl
run_refines q l (c ∷ cs) h =
    let (r, k) = step_refines q l c h in ap₂ ◌∷◌ r (run_refines (step q c).1 _ cs k)

pub new_queue-Holds : Holds new_queue []
new_queue-Holds = record { valid = new_queue-IsValid; held = refl }

-- Where there is room, `Push` returns no error.
pub push_with_room :
    (q : Queue) (l : Fifo) (e : QueuedSpoolCommand)
    → Holds q l
    → length l < max_queue_size
    → ((push q e).0 ≡ none) × Holds (push q e).1 (l ++ e ∷ [])
push_with_room q l e h room = unfold Fifo.step in ground (arith, push_refines q l e h)

pub pop_of_cons :
    (q : Queue) (l : Fifo) (e : QueuedSpoolCommand)
    → Holds q (e ∷ l)
    → ((pop q).0 ≡ ok (some e)) × Holds (pop q).1 l
pop_of_cons q l e h = unfold Fifo.front Fifo.rest in pop_refines q (e ∷ l) h

-- The queue holds some commands.
pub record HoldsCommands (q : Queue) : Type 0 where
  pub commands : Fifo
  pub holds : Holds q commands

pub new_queue-HoldsCommands : HoldsCommands new_queue
new_queue-HoldsCommands = record { commands = []; holds = new_queue-Holds }

pub push-HoldsCommands :
    (q : Queue) (e : QueuedSpoolCommand) → HoldsCommands q → HoldsCommands (push q e).1
push-HoldsCommands q e h =
    let (r, k) = push_refines q h.commands e h.holds in record { commands = _; holds = k }

pub pop-HoldsCommands : (q : Queue) → HoldsCommands q → HoldsCommands (pop q).1
pop-HoldsCommands q h =
    let (r, k) = pop_refines q h.commands h.holds in record { commands = _; holds = k }

-- `Peek` returns a pointer that is not nil, or an error.
pub peek-ne-nil : (q : Queue) → HoldsCommands q → peek q ≢ ok none
peek-ne-nil q h e = first h.commands h.holds
  where
    first : (l : Fifo) → Holds q l → ⊥
    first [] k = unfold Fifo.front in ground (arith, e, peek_refines q [] k)
    first (x ∷ l) k = unfold Fifo.front in ground (arith, e, peek_refines q (x ∷ l) k)
