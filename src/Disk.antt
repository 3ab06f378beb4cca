-- ===== src/Disk.antt =====
-- disk.go: the encrypted statefile. The operating system's part is a map from names to contents,
-- with a record of every state that the map went through, since the process or the machine may stop
-- at any of them. What may fail is chosen by the environment (`Faults`). The functions of the
-- libraries that the code calls (secretbox, argon2, cbor) are the record `Crypto`.
pub mod Renaming
pub mod Crash
pub mod RoundTrip
pub mod Worker
pub mod Race
pub mod Saves
mod Examples
use Prim.Native.String.{◌++◌ as str_append}
use catshadow.Prelude.{
  ℕ, ◌≡◌, Bytes, String, List, [], ◌∷◌, ◌++◌, Map, Option, none, some, Result, ok, err, ltb, length,
  take, drop, lookup, insert, erase, string_comparable, if◌then◌else◌, replicate,
}
use catshadow.Payload.{copy_bytes}

abbrev pub nonce_size : ℕ
nonce_size = 24

abbrev pub key_size : ℕ
key_size = 32

pub data DiskError : Type 0 where
  not_exist : DiskError
  io_error : ℕ → DiskError
  decrypt_failed : DiskError
  decode_failed : DiskError

abbrev pub Files : Type 0
Files = Map String Bytes

-- The files now, and every state that they were in before, the latest first.
pub record Disk : Type 0 where
  pub files : Files
  pub past : List Files

-- What the environment makes of one call of `encryptStateFile`: the nonce that the random source
-- yields, how far the write comes before it is seen half done, and which calls fail and with what
-- code. (`rename` itself says when there is nothing to rename.)
pub record Faults : Type 0 where
  pub nonce : Result Bytes DiskError
  pub opening : Option ℕ
  pub half_written : ℕ
  pub writing : Option ℕ
  pub renaming_out : Option ℕ
  pub renaming_tmp : Option ℕ

-- The array `nonce` has `nonceSize` bytes, and is filled whole.
pub record Crypto (State : Type 0) : Type 0 where
  pub seal : Bytes → Bytes → Bytes → Bytes
  pub open_box : Bytes → Bytes → Bytes → Option Bytes
  pub argon2_key : Bytes → Bytes
  pub unmarshal_state : Bytes → Option State
  pub opens_sealed :
      (plain nonce key : Bytes) → open_box (seal plain nonce key) nonce key ≡ some plain

abbrev pub touch : Disk → Files → Disk
touch d fs = record { files = fs; past = d.files ∷ d.past }

-- `os.Rename`, which replaces what stood under the new name.
unfoldable pub rename : Option ℕ → String → String → Disk → Option DiskError × Disk
rename (some n) from to d = (some (io_error n), d)
rename none from to d = elim (lookup from d.files) [
  | none ↦ (some not_exist, d)
  | some c ↦ (none, touch d (insert to c (erase from d.files)))
]

-- `!os.IsNotExist(err)` for an error that is not nil.
abbrev pub is_fatal : Option DiskError → Option DiskError
is_fatal none = none
is_fatal (some not_exist) = none
is_fatal (some e) = some e

abbrev pub tmp_name : String → String
tmp_name f = str_append f ".tmp"

abbrev pub backup_name : String → String
backup_name f = str_append f "~"

-- The two renames at the end of `encryptStateFile`.
unfoldable pub install : Faults → String → Disk → Option DiskError × Disk
install io f d =
    let (e, d') = rename io.renaming_out f (backup_name f) d in
    elim (is_fatal e) [ some e' ↦ (some e', d') | none ↦ rename io.renaming_tmp (tmp_name f) f d' ]

-- `out.Write`: the file is seen in part, and then whole if the call does not fail.
unfoldable pub write_tmp : Faults → String → Bytes → Disk → Option DiskError × Disk
write_tmp io f c d =
    let part = touch d (insert (tmp_name f) (take io.half_written c) d.files) in
    elim io.writing [
      | some n ↦ (some (io_error n), part)
      | none ↦ (none, touch part (insert (tmp_name f) c part.files))
    ]

-- `os.OpenFile` with `O_TRUNC|O_CREATE|O_WRONLY`.
unfoldable pub open_tmp : Faults → String → Disk → Option DiskError × Disk
open_tmp io f d = elim io.opening [
  | some n ↦ (some (io_error n), d)
  | none ↦ (none, touch d (insert (tmp_name f) [] d.files))
]

infixl 5 ◌andthen◌
-- `if err != nil { return err }` between two calls.
abbrev pub ◌andthen◌ :
    Option DiskError × Disk → (Disk → Option DiskError × Disk) → Option DiskError × Disk
◌andthen◌ (some e, d) k = (some e, d)
◌andthen◌ (none, d) k = k d

-- `StateWriter`, less its logger, channel and worker.
pub record StateWriter : Type 0 where
  pub state_file : String
  pub key : Bytes

module _ {State : Type 0} (crypto : Crypto State) where
  open crypto use {seal, open_box, argon2_key, unmarshal_state}

  unfoldable pub encrypt_state : Result Bytes DiskError → Bytes → Bytes → Result Bytes DiskError
  encrypt_state (err e) state key = err e
  encrypt_state (ok nonce) state key = ok (nonce ++ seal state nonce key)

  -- `none` is the panic of slicing a file that is shorter than a nonce.
  unfoldable pub decrypt_state : Bytes → Bytes → Option (Result Bytes DiskError)
  decrypt_state ciphertext key =
      if ltb (length ciphertext) nonce_size
      then none
      else elim (open_box (drop nonce_size ciphertext) (take nonce_size ciphertext) key) [
        | none ↦ some (err decrypt_failed)
        | some plain ↦ some (ok plain)
      ]

  unfoldable pub stretch_key : Bytes → Bytes
  stretch_key passphrase = copy_bytes (replicate key_size 0) (argon2_key passphrase)

  unfoldable pub decrypt_state_file : String → Bytes → Disk → Option (Result State DiskError)
  decrypt_state_file f key d = elim (lookup f d.files) [
    | none ↦ some (err not_exist)
    | some raw ↦ elim (decrypt_state raw key) [
      | none ↦ none
      | some (err e) ↦ some (err e)
      | some (ok plain) ↦ elim (unmarshal_state plain) [
        | none ↦ some (err decode_failed)
        | some s ↦ some (ok s)
      ]
    ]
  ]

  unfoldable pub encrypt_state_file :
      Faults → String → Bytes → Bytes → Disk → Option DiskError × Disk
  encrypt_state_file io f state key d = elim (encrypt_state io.nonce state key) [
    | err e ↦ (some e, d)
    | ok c ↦ open_tmp io f d andthen write_tmp io f c andthen install io f
  ]

  unfoldable pub load_state_writer :
      String → Bytes → Disk → Option (Result (StateWriter × State) DiskError)
  load_state_writer f passphrase d =
      let k = stretch_key passphrase in
      elim (decrypt_state_file f k d) [
        | none ↦ none
        | some (err e) ↦ some (err e)
        | some (ok s) ↦ some (ok (record { state_file = f; key = k }, s))
      ]

  unfoldable pub new_state_writer : String → Bytes → StateWriter
  new_state_writer f passphrase = record { state_file = f; key = stretch_key passphrase }

  unfoldable pub write_state : Faults → StateWriter → Bytes → Disk → Option DiskError × Disk
  write_state io w payload d = encrypt_state_file io w.state_file payload w.key d
