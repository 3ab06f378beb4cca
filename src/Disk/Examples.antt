-- ===== src/Disk/Examples.antt =====
-- Statefiles written and read with a cipher that changes nothing.
use catshadow.Prelude.{
  ℕ, ◌≡◌, refl, Bytes, List, [], ◌∷◌, none, some, ok, err, true, false, ◌++◌, length, replicate,
  lookup, insert, erase, string_comparable,
}
use catshadow.Disk.{
  Disk, Faults, not_exist, Crypto, StateWriter, nonce_size, rename, install, write_tmp, open_tmp,
  encrypt_state, encrypt_state_file, write_state, new_state_writer, load_state_writer,
}
use catshadow.Disk.Crash.{Keeps, Visits, write_state-Keeps}
use catshadow.Disk.Worker.{Received, new_state, halts, worker, opens, interleave}
use catshadow.Disk.Saves.{IsVersion, HoldsSome, PanicsOrHolds, worker-Keeps}
use catshadow.Disk.Race.{IsFaultless, interleave-loses}
use catshadow.Disk.RoundTrip.{load_state_writer-write_state}

abbrev plain_crypto : Crypto ℕ
plain_crypto = record {
  seal = λ plain nonce key. plain;
  open_box = λ sealed nonce key. some sealed;
  argon2_key = λ passphrase. passphrase;
  unmarshal_state = λ b. some (length b);
  opens_sealed = λ plain nonce key. refl;
}

abbrev a_nonce : Bytes
a_nonce = replicate nonce_size 3

abbrev no_faults : Faults
no_faults = record {
  nonce = ok a_nonce;
  opening = none;
  half_written = 2;
  writing = none;
  renaming_out = none;
  renaming_tmp = none;
}

abbrev disk : Disk
disk = record { files = ("state", 1 ∷ []) ∷ []; past = [] }

abbrev writer : StateWriter
writer = record { state_file = "state"; key = [] }

write_state-Keeps_example :
    Visits (Keeps "state" (1 ∷ [])) (write_state plain_crypto no_faults writer (4 ∷ 5 ∷ []) disk).1
unfolding lookup
write_state-Keeps_example =
    (write_state-Keeps plain_crypto no_faults writer (4 ∷ 5 ∷ []) (1 ∷ []) disk refl tt).0

load_state_writer-write_state_example :
    load_state_writer plain_crypto "state"
      (9 ∷ [])
      (write_state plain_crypto no_faults
        (new_state_writer plain_crypto "state" (9 ∷ []))
        (4 ∷ 5 ∷ [])
        disk).1
    ≡ some (ok (new_state_writer plain_crypto "state" (9 ∷ []), 2))
unfolding write_state encrypt_state_file encrypt_state open_tmp write_tmp install rename lookup
    insert erase new_state_writer
load_state_writer-write_state_example =
    load_state_writer-write_state plain_crypto no_faults "state" (9 ∷ []) (4 ∷ 5 ∷ []) a_nonce 2
      disk refl refl refl refl

calm : IsFaultless no_faults
calm = record { opening = refl; writing = refl; renaming_out = refl; renaming_tmp = refl }

interleave-loses_example :
    load_state_writer plain_crypto "state" []
      (interleave no_faults "state"
        (true ∷ true ∷ false ∷ false ∷ true ∷ false ∷ [])
        (opens (4 ∷ []))
        (opens (5 ∷ []))
        disk).2
    ≡ some (err not_exist)
interleave-loses_example =
    (interleave-loses plain_crypto no_faults "state" (4 ∷ []) (5 ∷ []) [] disk calm).2

abbrev two_states : List Received
two_states =
    new_state no_faults (4 ∷ 5 ∷ [])
    ∷ new_state no_faults (7 ∷ [])
    ∷ halts
    ∷ new_state no_faults []
    ∷ []

worker-Keeps_example :
    let r = worker plain_crypto writer two_states disk in
    Visits (HoldsSome plain_crypto writer (IsVersion plain_crypto writer (1 ∷ []) two_states)) r.1
    × PanicsOrHolds plain_crypto writer (a_nonce ++ 7 ∷ []) r
unfolding lookup
worker-Keeps_example = worker-Keeps plain_crypto writer two_states (1 ∷ []) disk.files refl
