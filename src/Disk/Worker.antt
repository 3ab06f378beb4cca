-- ===== src/Disk/Worker.antt =====
-- The state writer's own goroutine, and a write of the statefile taken apart into the calls that it
-- makes, which the calls of another goroutine's write can come between.
use catshadow.Prelude.{Bytes, String, List, [], ◌∷◌, Bool, true, false, Option, none, some}
use catshadow.Disk.{
  Disk, Faults, DiskError, Crypto, StateWriter, open_tmp, write_tmp, install, write_state,
}

-- What the `select` of `worker` receives: the halt, or a state on `stateCh`.
pub data Received : Type 0 where
  halts : Received
  new_state : Faults → Bytes → Received

-- How far `worker` has come: it waits for more, has returned, or has stopped with a panic.
pub data Progress : Type 0 where
  waits returned : Progress
  panics : DiskError → Progress

unfoldable pub worker :
    {State : Type 0} → Crypto State → StateWriter → List Received → Disk → Progress × Disk
worker crypto w [] d = (waits, d)
worker crypto w (halts ∷ rs) d = (returned, d)
worker crypto w (new_state faults state ∷ rs) d =
    let later = λ (d' : Disk). worker crypto w rs d' in
    let (e, d') = write_state crypto faults w state d in
    elim e [ none ↦ later d' | some x ↦ (panics x, d') ]

-- Where a call of `encryptStateFile` is, from the ciphertext on.
pub data Stage : Type 0 where
  opens writes : Bytes → Stage
  installs : Stage
  ends : Option DiskError → Stage

abbrev goes_to : Stage → Option DiskError × Disk → Stage × Disk
goes_to s (none, d) = (s, d)
goes_to s (some e, d) = (ends (some e), d)

-- The next call that it makes.
unfoldable pub advance : Faults → String → Stage → Disk → Stage × Disk
advance io f (opens c) d = goes_to (writes c) (open_tmp io f d)
advance io f (writes c) d = goes_to installs (write_tmp io f c d)
advance io f installs d = let (e, d') = install io f d in (ends e, d')
advance io f (ends e) d = (ends e, d)

-- Two calls on one statefile. The schedule says which of them moves.
unfoldable pub interleave :
    Faults → String → List Bool → Stage → Stage → Disk → Stage × Stage × Disk
interleave io f [] s t d = (s, t, d)
interleave io f (true ∷ schedule) s t d =
    let (s', d') = advance io f s d in interleave io f schedule s' t d'
interleave io f (false ∷ schedule) s t d =
    let (t', d') = advance io f t d in interleave io f schedule s t' d'
