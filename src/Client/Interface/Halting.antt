-- ===== src/Client/Interface/Halting.antt =====
-- What `Shutdown` makes of the program's state.
use catshadow.Prelude.{◌≡◌, inl, inr, Bool, true, arith}
use catshadow.Disk.{Faults}
use catshadow.Client.{Env, save, done}
use catshadow.Client.Steps.{ends}
use catshadow.Client.Interface.{System, shutdown}

module _ {R : Type 0} (env : Env R) where
  -- Beside what the save does, only `HaltCh` changes.
  pub shutdown_lem :
      (faults : Faults) (s : System R)
      → (halted : Bool) × ((shutdown env faults s).1
          ≡ record s { client = (save env faults s.client).1; halted = halted })
  unfolding shutdown
  shutdown_lem faults s = elim (ends (save env faults s.client)) [
    | inl (x, e) ↦ (true, ground (arith, e))
    | inr (inl (p, e)) ↦ (s.halted, ground (arith, e))
    | inr (inr e) ↦ (s.halted, ground (arith, e))
  ]

  pub shutdown_returns :
      (faults : Faults) (s : System R)
      → (shutdown env faults s).0 ≡ done tt
      → ((save env faults s.client).0 ≡ done tt) × ((shutdown env faults s).1.halted ≡ true)
  unfolding shutdown
  shutdown_returns faults s h = elim (ends (save env faults s.client)) [
    | inl (x, e) ↦ (ground (arith, e), ground (arith, e))
    | inr (inl (p, e)) ↦ absurd (ground (arith, e, h))
    | inr (inr e) ↦ absurd (ground (arith, e, h))
  ]
