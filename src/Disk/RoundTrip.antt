-- ===== src/Disk/RoundTrip.antt =====
-- What is written to the statefile is read back with the same passphrase.
use catshadow.Prelude.{
  ℕ, ◌≡◌, refl, inl, inr, Bytes, String, ◌++◌, Option, none, some, arith, Option-cases, ok, length,
  take, lookup, insert, erase, string_comparable, lookup-insert_self, take-append, drop-append,
  length-append,
}
use catshadow.Disk.{
  Disk, Faults, not_exist, io_error, Crypto, StateWriter, touch, rename, tmp_name, backup_name,
  install, write_tmp, open_tmp, encrypt_state, encrypt_state_file, write_state, nonce_size,
  new_state_writer, load_state_writer, decrypt_state_file, decrypt_state, stretch_key, ◌andthen◌,
}
use catshadow.Disk.Renaming.{rename_lem, pair_cases, tmp_survives}

write_tmp_written :
    (faults : Faults) (f : String) (c : Bytes) (d : Disk)
    → (write_tmp faults f c d).0 ≡ none
    → lookup (tmp_name f) (write_tmp faults f c d).1.files ≡ some c
unfolding write_tmp
write_tmp_written faults f c d e = ground (
  arith,
  lookup-insert_self (tmp_name f) c (insert (tmp_name f) (take faults.half_written c) d.files),
)

rename_absent :
    (fault : Option ℕ) (from to : String) (d : Disk)
    → lookup from d.files ≡ none
    → rename fault from to d
      ≡ (elim fault [ none ↦ (some not_exist, d) | some n ↦ (some (io_error n), d) ])
unfolding rename
rename_absent none from to d h = rw (h, rename)
rename_absent (some n) from to d h = refl

-- The new file is put in place whether there was one before or not.
install_installs :
    (faults : Faults) (f : String) (c : Bytes) (d : Disk)
    → lookup (tmp_name f) d.files ≡ some c
    → (install faults f d).0 ≡ none
    → lookup f (install faults f d).1.files ≡ some c
unfolding install
install_installs faults f c d t e = elim (Option-cases (lookup f d.files)) [
  | inl h ↦ ground (
    arith,
    rename_absent faults.renaming_out f (backup_name f) d h,
    rename_lem faults.renaming_tmp (tmp_name f) f d c t,
    lookup-insert_self f c (erase (tmp_name f) d.files),
  )
  | inr (old, h) ↦
      let first = insert (backup_name f) old (erase f d.files) in
      ground (
        arith,
        rename_lem faults.renaming_out f (backup_name f) d old h,
        rename_lem faults.renaming_tmp (tmp_name f) f (touch d first) c (tmp_survives f old c d t),
        lookup-insert_self f c (erase (tmp_name f) first),
      )
]

replace_installs :
    (faults : Faults) (f : String) (c : Bytes) (d : Disk)
    → let (e, d') = open_tmp faults f d andthen write_tmp faults f c andthen install faults f in
      e ≡ none → lookup f d'.files ≡ some c
replace_installs faults f c d = elim (pair_cases (open_tmp faults f d)) [
  | inr (n, d₁, e) ↦ rw e (λ x. cc)
  | inl (d₁, e) ↦ rw e (elim (pair_cases (write_tmp faults f c d₁)) [
    | inr (n, d₂, e₂) ↦ rw e₂ (λ x. cc)
    | inl (d₂, e₂) ↦
        rw e₂ (λ x.
          install_installs faults f c d₂ ((rw e₂ at (write_tmp_written faults f c d₁)) refl) x)
  ])
]

module _ {State : Type 0} (crypto : Crypto State) where
  decrypt_state-sealed :
      (nonce plain key : Bytes)
      → length nonce ≡ nonce_size
      → decrypt_state crypto (nonce ++ crypto.seal plain nonce key) key ≡ some (ok plain)
  unfolding decrypt_state
  decrypt_state-sealed nonce plain key n = ground (
    arith,
    length-append nonce (crypto.seal plain nonce key),
    rw n at (take-append nonce (crypto.seal plain nonce key)),
    rw n at (drop-append nonce (crypto.seal plain nonce key)),
    crypto.opens_sealed plain nonce key,
  )

  decrypt_state_file-sealed :
      (f : String) (nonce plain key : Bytes) (s : State) (d : Disk)
      → lookup f d.files ≡ some (nonce ++ crypto.seal plain nonce key)
      → length nonce ≡ nonce_size
      → crypto.unmarshal_state plain ≡ some s
      → decrypt_state_file crypto f key d ≡ some (ok s)
  unfolding decrypt_state_file
  decrypt_state_file-sealed f nonce plain key s d h n u =
      rw (decrypt_state_file, h, decrypt_state-sealed nonce plain key n, u)

  write_state_lem :
      (faults : Faults) (w : StateWriter) (payload nonce : Bytes) (d : Disk)
      → faults.nonce ≡ ok nonce
      → write_state crypto faults w payload d ≡ (
          open_tmp faults w.state_file d
          andthen write_tmp faults w.state_file (nonce ++ crypto.seal payload nonce w.key)
          andthen install faults w.state_file)
  unfolding write_state encrypt_state_file encrypt_state
  write_state_lem faults w payload nonce d n =
      simp (write_state, encrypt_state_file, encrypt_state, n)

  write_state_installs :
      (faults : Faults) (w : StateWriter) (payload nonce : Bytes) (d : Disk)
      → faults.nonce ≡ ok nonce
      → let (e, d') = write_state crypto faults w payload d in
        e ≡ none → lookup w.state_file d'.files ≡ some (nonce ++ crypto.seal payload nonce w.key)
  write_state_installs faults w payload nonce d n =
      rw (write_state_lem faults w payload nonce d n)
        (replace_installs faults w.state_file (nonce ++ crypto.seal payload nonce w.key) d)

  -- A statefile that was written without an error is loaded again with the same passphrase: the
  -- writer is the one that wrote it, and the state is what the payload encodes. It does not matter
  -- whether there was a file before.
  pub load_state_writer-write_state :
      (faults : Faults) (f : String) (passphrase payload nonce : Bytes) (s : State) (d : Disk)
      → faults.nonce ≡ ok nonce
      → length nonce ≡ nonce_size
      → crypto.unmarshal_state payload ≡ some s
      → let w = new_state_writer crypto f passphrase in
        let (e, d') = write_state crypto faults w payload d in
        e ≡ none → load_state_writer crypto f passphrase d' ≡ some (ok (w, s))
  unfolding new_state_writer load_state_writer
  load_state_writer-write_state faults f passphrase payload nonce s d n len u e = rw (
    load_state_writer,
    decrypt_state_file-sealed f nonce payload (stretch_key crypto passphrase) s
        (write_state crypto faults (new_state_writer crypto f passphrase) payload d).1
        (write_state_installs faults (new_state_writer crypto f passphrase) payload nonce d n e) len
        u,
  )
