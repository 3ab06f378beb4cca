-- ===== src/Client/Steps.antt =====
-- How the parts of a method act on the state: a deferred call, a save.
use catshadow.Prelude.{◌≡◌, ◌≢◌, refl, sym, ◌∙◌, ◌⊎◌, inl, inr, Result-cases, Option-cases, arith}
use catshadow.Disk.{Disk, Faults, write_state}
use catshadow.Client.Encoding.{marshal_state}
use catshadow.Client.{
  Client, Env, M, Outcome, done, panicked, blocked, Panic, ◌>>=◌, deferred, save, save_failed,
  snapshot,
}

-- Unless the body waits for ever, the deferred call runs on the state that the body leaves.
pub deferred_state :
    {R A : Type 0} (k : M R (Unit {0})) (m : M R A) (c : Client R)
    → (m c).0 ≢ blocked
    → (deferred k m c).1 ≡ (k (m c).1).1
unfolding deferred
deferred_state k m c h = ground arith

-- The state that a deferred call leaves, or the body if it waits for ever.
pub deferred_ends :
    {R A : Type 0} (k : M R (Unit {0})) (m : M R A) (c : Client R)
    → ((deferred k m c).1 ≡ (k (m c).1).1) ⊎ ((deferred k m c).1 ≡ (m c).1)
unfolding deferred
deferred_ends k m c = ground arith

module _ {R A : Type 0} where
  -- How a call ends, with the state that it leaves.
  abbrev pub Ends : Outcome A × Client R → Type 0
  Ends r =
      ((a : A) × (r ≡ (done a, r.1)))
      ⊎ (((p : Panic) × (r ≡ (panicked p, r.1))) ⊎ (r ≡ (blocked, r.1)))

  pub ends : (r : Outcome A × Client R) → Ends r
  ends (done a, c) = inl (a, refl)
  ends (panicked p, c) = inr (inl (p, refl))
  ends (blocked, c) = inr (inr refl)

module _ {R A B : Type 0} (m : M R A) (f : A → M R B) (c c' : Client R) where
  pub bind_done : (a : A) → m c ≡ (done a, c') → (m >>= f) c ≡ f a c'
  unfolding ◌>>=◌
  bind_done a e = ground (arith, e)

  pub bind_panicked : (p : Panic) → m c ≡ (panicked p, c') → (m >>= f) c ≡ (panicked p, c')
  unfolding ◌>>=◌
  bind_panicked p e = ground (arith, e)

  pub bind_blocked : m c ≡ (blocked, c') → (m >>= f) c ≡ (blocked, c')
  unfolding ◌>>=◌
  bind_blocked e = ground (arith, e)

-- A call in two parts that returns has returned from the first, and then from the second.
pub bind_inv :
    {R A B : Type 0} (m : M R A) (f : A → M R B) (b : B) (c c' : Client R)
    → (m >>= f) c ≡ (done b, c')
    → (a : A) × (m c ≡ (done a, (m c).1)) × (f a (m c).1 ≡ (done b, c'))
bind_inv m f b c c' e = elim (ends (m c)) [
  | inl (a, h) ↦ (a, h, sym (bind_done m f c (m c).1 a h) ∙ e)
  | inr (inl (p, h)) ↦ absurd (ground (arith, e, bind_panicked m f c (m c).1 p h))
  | inr (inr h) ↦ absurd (ground (arith, e, bind_blocked m f c (m c).1 h))
]

module _ {R : Type 0} (env : Env R) where
  -- A save changes the disk and nothing else, and ends by returning or by the panic of a failed save.
  abbrev pub Saves : Client R → Outcome (Unit {0}) × Client R → Type 0
  Saves c r =
      ((r.0 ≡ done tt) ⊎ (r.0 ≡ panicked save_failed)) × (d : Disk) × (r.1 ≡ record c { disk = d })

  pub save-Saves : (faults : Faults) (c : Client R) → Saves c (save env faults c)
  unfolding save
  save-Saves faults c = elim (Result-cases (marshal_state env.state_codec (snapshot env c))) [
    | inr (e, h) ↦ rw (h, save) (inr refl, c.disk, refl)
    | inl (b, h) ↦ elim (Option-cases (write_state env.crypto faults env.state_worker b c.disk).0) [
      | inl ok_write ↦ rw (h, save, ok_write) (inl refl, _, refl)
      | inr (e, failed) ↦ rw (h, save, failed) (inr refl, _, refl)
    ]
  ]

  pub save-ne-blocked : (faults : Faults) (c : Client R) → (save env faults c).0 ≢ blocked
  save-ne-blocked faults c e = ground (arith, save-Saves faults c)
