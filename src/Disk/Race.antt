-- ===== src/Disk/Race.antt =====
-- What two writes of one statefile do to each other.
use catshadow.Prelude.{
  ◌≡◌, refl, sym, ap, ◌∙◌, Bytes, String, [], ◌∷◌, true, false, none, some, ok, err, arith, lookup,
  insert, erase, take, string_comparable, lookup-insert_self, lookup-insert_ne, lookup-erase_self,
  lookup-erase_ne, Option-cases, inl, inr,
}
use catshadow.Disk.{
  Files, Disk, Faults, not_exist, Crypto, touch, rename, tmp_name, backup_name, open_tmp, write_tmp,
  install, encrypt_state, encrypt_state_file, decrypt_state_file, load_state_writer,
}
use catshadow.Disk.Renaming.{tmp_ne_name, tmp_ne_backup, backup_ne_name, tmp_survives}
use catshadow.Disk.Worker.{Stage, opens, installs, ends, advance, interleave}

-- A write that nobody interrupts makes the calls of `encryptStateFile`.
pub interleave-alone :
    {State : Type 0} (crypto : Crypto State) (io : Faults) (f : String) (state key c : Bytes)
    (other : Stage) (d : Disk)
    → encrypt_state crypto io.nonce state key ≡ ok c
    → let (e, d') = encrypt_state_file crypto io f state key d in
      interleave io f (true ∷ true ∷ true ∷ []) (opens c) other d ≡ (ends e, other, d')
unfolding interleave advance encrypt_state_file
interleave-alone crypto io f state key c other d e = ground (arith, e)

-- Nothing fails by itself.
pub record IsFaultless (io : Faults) : Type 0 where
  pub opening : io.opening ≡ none
  pub writing : io.writing ≡ none
  pub renaming_out : io.renaming_out ≡ none
  pub renaming_tmp : io.renaming_tmp ≡ none

module _ (io : Faults) (f : String) (ok_io : IsFaultless io) where
  -- The new file takes the statefile's name, whether or not there was a statefile.
  install_first :
      (c : Bytes) (d : Disk)
      → lookup (tmp_name f) d.files ≡ some c
      → let (e, d') = install io f d in
        (e ≡ none) × (lookup f d'.files ≡ some c) × (lookup (tmp_name f) d'.files ≡ none)
  unfolding install rename
  install_first c d t = elim (Option-cases (lookup f d.files)) [
    | inl n ↦
        ground (arith, ok_io.renaming_out, ok_io.renaming_tmp, n, t, placed d.files, gone d.files)
    | inr (old, n) ↦
        let first = insert (backup_name f) old (erase f d.files) in
        ground (
          arith,
          ok_io.renaming_out,
          ok_io.renaming_tmp,
          n,
          tmp_survives f old c d t,
          placed first,
          gone first,
        )
  ]
    where
      placed : (fs : Files) → lookup f (insert f c (erase (tmp_name f) fs)) ≡ some c
      placed fs = lookup-insert_self f c (erase (tmp_name f) fs)

      gone : (fs : Files) → lookup (tmp_name f) (insert f c (erase (tmp_name f) fs)) ≡ none
      gone fs =
          lookup-insert_ne f (tmp_name f) c (erase (tmp_name f) fs) (λ e. tmp_ne_name f (sym e))
          ∙ lookup-erase_self (tmp_name f) fs

  -- Without a new file the statefile is moved to its backup, and nothing takes its name.
  install_again :
      (c : Bytes) (d : Disk)
      → lookup f d.files ≡ some c
      → lookup (tmp_name f) d.files ≡ none
      → let (e, d') = install io f d in
        (e ≡ some not_exist)
        × (lookup f d'.files ≡ none)
        × (lookup (backup_name f) d'.files ≡ some c)
  unfolding install rename
  install_again c d h t =
      let first = insert (backup_name f) c (erase f d.files) in
      let no_tmp : lookup (tmp_name f) first ≡ none =
        lookup-insert_ne (backup_name f) (tmp_name f) c (erase f d.files)
          (λ e. tmp_ne_backup f (sym e))
        ∙ lookup-erase_ne f (tmp_name f) d.files (λ e. tmp_ne_name f (sym e))
        ∙ t in
      let no_file : lookup f first ≡ none =
        lookup-insert_ne (backup_name f) f c (erase f d.files) (backup_ne_name f)
        ∙ lookup-erase_self f d.files in
      ground (
        arith,
        ok_io.renaming_out,
        ok_io.renaming_tmp,
        h,
        no_tmp,
        no_file,
        lookup-insert_self (backup_name f) c (erase f d.files),
      )

  abbrev opened : Disk → Disk
  opened d = touch d (insert (tmp_name f) [] d.files)

  abbrev written : Bytes → Disk → Disk
  written c d =
      let part = touch d (insert (tmp_name f) (take io.half_written c) d.files) in
      touch part (insert (tmp_name f) c part.files)

  -- Both have written, the second one last.
  both_written :
      (c c' : Bytes) (d : Disk)
      → interleave io f (true ∷ true ∷ false ∷ false ∷ true ∷ false ∷ []) (opens c) (opens c') d
        ≡ interleave io f
            (true ∷ false ∷ [])
            installs
            installs
            (written c' (opened (written c (opened d))))
  unfolding interleave advance open_tmp write_tmp
  both_written c c' d = ground (arith, ok_io.opening, ok_io.writing)

  -- Then both install.
  both_installed :
      (d : Disk)
      → let (e, d₁) = install io f d in
        let (e', d₂) = install io f d₁ in
        interleave io f (true ∷ false ∷ []) installs installs d ≡ (ends e, ends e', d₂)
  unfolding interleave advance
  both_installed d = refl

missing_file :
    {State : Type 0} (crypto : Crypto State) (f : String) (passphrase : Bytes) (d : Disk)
    → lookup f d.files ≡ none
    → load_state_writer crypto f passphrase d ≡ some (err not_exist)
unfolding load_state_writer decrypt_state_file
missing_file crypto f passphrase d e = ground (arith, e)

-- Two goroutines save at the same time, as the worker and `Shutdown` do, and no call fails by itself.
-- There is an order of their calls in which the first write returns no error, the second one finds no
-- new file to rename, and afterwards there is no statefile, so that the client cannot be started
-- again, whatever the passphrase.
pub interleave-loses :
    {State : Type 0} (crypto : Crypto State) (io : Faults) (f : String) (c c' passphrase : Bytes)
    (d : Disk)
    → IsFaultless io
    → let (s, t, d') =
        interleave io f (true ∷ true ∷ false ∷ false ∷ true ∷ false ∷ []) (opens c) (opens c') d in
      (s ≡ ends none)
      × (t ≡ ends (some not_exist))
      × (load_state_writer crypto f passphrase d' ≡ some (err not_exist))
      × (lookup (backup_name f) d'.files ≡ some c')
interleave-loses crypto io f c c' passphrase d ok_io =
    let d₀ =
      written io f ok_io c' (opened io f ok_io (written io f ok_io c (opened io f ok_io d))) in
    let (e, here, no_tmp) = install_first io f ok_io c' d₀ (lookup-insert_self (tmp_name f) c' _) in
    let (e', gone, kept) = install_again io f ok_io c' (install io f d₀).1 here no_tmp in
    rw (both_written io f ok_io c c' d ∙ both_installed io f ok_io d₀)
      (ap ends e, ap ends e', missing_file crypto f passphrase _ gone, kept)
