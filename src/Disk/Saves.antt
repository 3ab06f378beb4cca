-- ===== src/Disk/Saves.antt =====
-- The state writer's goroutine over all the states that it receives: what the statefile and its backup
-- hold between them, at every moment.
use catshadow.Prelude.{
  ◌≡◌, ◌⊎◌, refl, inl, inr, Bytes, List, [], ◌∷◌, ◌++◌, none, some, ok, err, arith, lookup,
  string_comparable,
}
use catshadow.Disk.{Files, Disk, Faults, DiskError, Crypto, StateWriter, write_state}
use catshadow.Disk.Worker.{Received, halts, new_state, Progress, panics, worker}
use catshadow.Disk.Crash.{All, Visits, Keeps, write_state-Visits}
use catshadow.Disk.Renaming.{pair_cases}

module _ {State : Type 0} (crypto : Crypto State) (w : StateWriter) where
  -- A content that the statefile had at first, or that was made of a state that the worker received.
  abbrev pub IsVersion : Bytes → List Received → Bytes → Type 0
  IsVersion old [] c = c ≡ old
  IsVersion old (halts ∷ rs) c = c ≡ old
  IsVersion old (new_state io payload ∷ rs) c =
      (c ≡ old)
      ⊎ ((nonce : Bytes) × (io.nonce ≡ ok nonce)
          × IsVersion (nonce ++ crypto.seal payload nonce w.key) rs c)

  -- The content made of the last state before the halt.
  abbrev pub latest : Bytes → List Received → Bytes
  latest old [] = old
  latest old (halts ∷ rs) = old
  latest old (new_state io payload ∷ rs) = elim io.nonce [
    | err _ ↦ old
    | ok nonce ↦ latest (nonce ++ crypto.seal payload nonce w.key) rs
  ]

  -- The statefile or its backup holds one of some contents.
  abbrev pub HoldsSome : (Bytes → Type 0) → Files → Type 0
  HoldsSome V fs = (c : Bytes) × V c × Keeps w.state_file c fs

  current : (old : Bytes) (rs : List Received) → IsVersion old rs old
  current old [] = refl
  current old (halts ∷ rs) = refl
  current old (new_state io payload ∷ rs) = inl refl

  -- The worker stopped with a panic, or the statefile holds a content.
  abbrev pub PanicsOrHolds : Bytes → Progress × Disk → Type 0
  PanicsOrHolds c (o, d) =
      ((e : DiskError) × (o ≡ panics e)) ⊎ (lookup w.state_file d.files ≡ some c)

  worker_stops :
      (io : Faults) (payload : Bytes) (rs : List Received) (e : DiskError) (d d₁ : Disk)
      → write_state crypto io w payload d ≡ (some e, d₁)
      → worker crypto w (new_state io payload ∷ rs) d ≡ (panics e, d₁)
  unfolding worker
  worker_stops io payload rs e d d₁ h = ground (arith, h)

  worker_goes_on :
      (io : Faults) (payload : Bytes) (rs : List Received) (d d₁ : Disk)
      → write_state crypto io w payload d ≡ (none, d₁)
      → worker crypto w (new_state io payload ∷ rs) d ≡ worker crypto w rs d₁
  unfolding worker
  worker_goes_on io payload rs d d₁ h = ground (arith, h)

  worker_lem :
      (rs : List Received) (old : Bytes) (V : Bytes → Type 0) (d : Disk)
      → ((c : Bytes) → IsVersion old rs c → V c)
      → lookup w.state_file d.files ≡ some old
      → All (HoldsSome V) d.past
      → let r = worker crypto w rs d in Visits (HoldsSome V) r.1 × PanicsOrHolds (latest old rs) r
  unfolding worker
  worker_lem [] old V d sub h v = (((old, sub old refl, inl h), v), inr h)
  worker_lem (halts ∷ rs) old V d sub h v = (((old, sub old refl, inl h), v), inr h)
  worker_lem (new_state io payload ∷ rs) old V d sub h v =
      let (visits, written) =
        write_state-Visits crypto io w payload old d (λ fs k. (old, sub old (inl refl), k)) h v in
      elim (pair_cases (write_state crypto io w payload d)) [
        | inr (e, d₁, eq) ↦
            rw (worker_stops io payload rs e d d₁ eq) (rw eq at visits, inl (e, refl))
        | inl (d₁, eq) ↦
            let (nonce, n, at_file, _) = (rw eq at written) refl in
            rw (worker_goes_on io payload rs d d₁ eq, n)
              (worker_lem rs (nonce ++ crypto.seal payload nonce w.key) V d₁
                (λ c y. sub c (inr (nonce, n, y))) at_file (rw eq at visits).1)
      ]

  -- Whatever states the worker is sent, and whichever call fails: at every moment the statefile or its
  -- backup holds, whole, what the statefile held at first or what was made of one of those states; and
  -- the worker stops with a panic, or the statefile ends up with what was made of the last state before
  -- the halt.
  pub worker-Keeps :
      (rs : List Received) (old : Bytes) (files : Files)
      → lookup w.state_file files ≡ some old
      → let r = worker crypto w rs (record { files = files; past = [] }) in
        Visits (HoldsSome (IsVersion old rs)) r.1 × PanicsOrHolds (latest old rs) r
  worker-Keeps rs old files h =
      worker_lem rs old (IsVersion old rs) (record { files = files; past = [] }) (λ c x. x) h tt
