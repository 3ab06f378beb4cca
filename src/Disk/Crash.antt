-- ===== src/Disk/Crash.antt =====
-- Whenever a write of the statefile stops, by an error or by a crash, what the file held before is
-- still on disk.
use catshadow.Prelude.{
  ◌≡◌, refl, sym, ◌∙◌, ◌⊎◌, inl, inr, Bytes, String, List, [], ◌∷◌, ◌++◌, none, some, arith,
  Option-cases, Result-cases, ok, take, lookup, insert, erase, string_comparable,
  lookup-insert_self, lookup-insert_ne, lookup-erase_ne,
}
use catshadow.Disk.{
  Files, Disk, DiskError, Faults, Crypto, StateWriter, touch, tmp_name, backup_name, install,
  write_tmp, open_tmp, encrypt_state, encrypt_state_file, write_state, ◌andthen◌,
}
use catshadow.Disk.Renaming.{
  backup_ne_name, tmp_ne_name, tmp_ne_backup, rename_lem, tmp_survives, pair_cases,
}

abbrev pub All {ℓ κ} : {A : Type ℓ} → (A → Type κ) → List A → Type κ
All P [] = Unit
All P (x ∷ xs) = P x × All P xs

-- Every state that the disk has been in, the present one included.
abbrev pub Visits : (Files → Type 0) → Disk → Type 0
Visits P d = P d.files × All P d.past

-- The statefile or its backup holds `old`.
abbrev pub Keeps : String → Bytes → Files → Type 0
Keeps f old fs = (lookup f fs ≡ some old) ⊎ (lookup (backup_name f) fs ≡ some old)

-- `P` is true of whatever files keep `old`.
module _ (f : String) (old : Bytes) {P : Files → Type 0}
    (kept : (fs : Files) → Keeps f old fs → P fs) where
  touch_tmp :
      (c : Bytes) (d : Disk)
      → lookup f d.files ≡ some old
      → All P d.past
      → let d' = touch d (insert (tmp_name f) c d.files) in
        (lookup f d'.files ≡ some old) × (lookup (tmp_name f) d'.files ≡ some c) × All P d'.past
  touch_tmp c d h v = (
    lookup-insert_ne (tmp_name f) f c d.files (tmp_ne_name f) ∙ h,
    lookup-insert_self (tmp_name f) c d.files,
    (kept d.files (inl h), v),
  )

  open_tmp-Keeps :
      (io : Faults) (d : Disk)
      → lookup f d.files ≡ some old
      → All P d.past
      → let (e, d') = open_tmp io f d in (lookup f d'.files ≡ some old) × All P d'.past
  unfolding open_tmp
  open_tmp-Keeps io d h v = ground (arith, touch_tmp [] d h v)

  pub write_tmp-Keeps :
      (io : Faults) (c : Bytes) (d : Disk)
      → lookup f d.files ≡ some old
      → All P d.past
      → let (e, d') = write_tmp io f c d in
        (lookup f d'.files ≡ some old)
        × All P d'.past
        × (e ≡ none → lookup (tmp_name f) d'.files ≡ some c)
  unfolding write_tmp
  write_tmp-Keeps io c d h v = elim (Option-cases io.writing) [
    | inl e ↦
        rw (e, write_tmp)
          (let (h', _, v') = touch_tmp part d h v in
            let (h'', t, v'') = touch_tmp c (touch d (insert (tmp_name f) part d.files)) h' v' in
            (h'', v'', λ _. t))
    | inr (n, e) ↦ rw (e, write_tmp) (let (h', _, v') = touch_tmp part d h v in (h', v', λ x. cc))
  ]
    where
      part : Bytes
      part = take io.half_written c

  pub install-Keeps :
      (io : Faults) (c : Bytes) (d : Disk)
      → lookup f d.files ≡ some old
      → lookup (tmp_name f) d.files ≡ some c
      → All P d.past
      → let (e, d') = install io f d in
        Visits P d'
        × (e ≡ none → (lookup f d'.files ≡ some c) × (lookup (backup_name f) d'.files ≡ some old))
  unfolding install
  install-Keeps io c d h t v = ground (
    arith,
    rename_lem io.renaming_out f (backup_name f) d old h,
    rename_lem io.renaming_tmp (tmp_name f) f
        (touch d (insert (backup_name f) old (erase f d.files))) c moved,
    kept d.files (inl h),
    kept first (inr backed_up),
    kept second (inr kept_after),
    installed,
    kept_after,
  )
    where
      first : Files
      first = insert (backup_name f) old (erase f d.files)

      second : Files
      second = insert f c (erase (tmp_name f) first)

      backed_up : lookup (backup_name f) first ≡ some old
      backed_up = lookup-insert_self (backup_name f) old (erase f d.files)

      moved : lookup (tmp_name f) first ≡ some c
      moved = tmp_survives f old c d t

      installed : lookup f second ≡ some c
      installed = lookup-insert_self f c (erase (tmp_name f) first)

      kept_after : lookup (backup_name f) second ≡ some old
      kept_after =
          lookup-insert_ne f (backup_name f) c (erase (tmp_name f) first)
            (λ e. backup_ne_name f (sym e))
          ∙ lookup-erase_ne (tmp_name f) (backup_name f) first (tmp_ne_backup f)
          ∙ backed_up

  -- From `open_tmp` on, with the ciphertext at hand.
  replace-Keeps :
      (faults : Faults) (c : Bytes) (d : Disk)
      → lookup f d.files ≡ some old
      → All P d.past
      → let (e, d') = open_tmp faults f d andthen write_tmp faults f c andthen install faults f in
        Visits P d'
        × (e ≡ none → (lookup f d'.files ≡ some c) × (lookup (backup_name f) d'.files ≡ some old))
  replace-Keeps io c d h v = elim (pair_cases (open_tmp io f d)) [
    | inr (n, d₁, e) ↦ rw e (
        let (h₁, v₁) = rw e at (open_tmp-Keeps io d h v) in ((kept d₁.files (inl h₁), v₁), λ x. cc))
    | inl (d₁, e) ↦ rw e (
        let (h₁, v₁) = rw e at (open_tmp-Keeps io d h v) in
        elim (pair_cases (write_tmp io f c d₁)) [
          | inr (n, d₂, e₂) ↦ rw e₂ (
              let (h₂, v₂, _) = rw e₂ at (write_tmp-Keeps io c d₁ h₁ v₁) in
              ((kept d₂.files (inl h₂), v₂), λ x. cc))
          | inl (d₂, e₂) ↦ rw e₂ (
              let (h₂, v₂, t) = rw e₂ at (write_tmp-Keeps io c d₁ h₁ v₁) in
              install-Keeps io c d₂ h₂ (t refl) v₂)
        ])
  ]

pub write_state-Visits :
    {State : Type 0} (crypto : Crypto State) (faults : Faults) (w : StateWriter)
    (payload old : Bytes) (d : Disk) {P : Files → Type 0}
    → ((fs : Files) → Keeps w.state_file old fs → P fs)
    → lookup w.state_file d.files ≡ some old
    → All P d.past
    → let (e, d') = write_state crypto faults w payload d in
      Visits P d'
      × (e ≡ none
          → (nonce : Bytes) × (faults.nonce ≡ ok nonce)
            × (lookup w.state_file d'.files ≡ some (nonce ++ crypto.seal payload nonce w.key))
            × (lookup (backup_name w.state_file) d'.files ≡ some old))
unfolding write_state encrypt_state_file encrypt_state
write_state-Visits crypto io w payload old d kept h v = elim (Result-cases io.nonce) [
  | inl (nonce, e) ↦
      rw (e, write_state, encrypt_state_file, encrypt_state)
        (let (visits, done) =
            replace-Keeps w.state_file old kept io (nonce ++ crypto.seal payload nonce w.key) d h
              v in
          (visits, λ x. (nonce, refl, (done x).0, (done x).1)))
  | inr (n, e) ↦
      rw (e, write_state, encrypt_state_file, encrypt_state) ((kept d.files (inl h), v), λ x. cc)
]

-- Writing the statefile over an earlier one: at every state that the disk goes through, whichever
-- call fails, the statefile or its backup holds what the statefile held before; and it returns
-- an error, or the statefile holds the nonce and the sealed payload, and the backup the
-- contents before.
pub write_state-Keeps :
    {State : Type 0} (crypto : Crypto State) (faults : Faults) (w : StateWriter)
    (payload old : Bytes) (d : Disk)
    → lookup w.state_file d.files ≡ some old
    → All (Keeps w.state_file old) d.past
    → let (e, d') = write_state crypto faults w payload d in
      Visits (Keeps w.state_file old) d'
      × (((x : DiskError) × (e ≡ some x))
          ⊎ ((nonce : Bytes) × (faults.nonce ≡ ok nonce)
              × (lookup w.state_file d'.files ≡ some (nonce ++ crypto.seal payload nonce w.key))
              × (lookup (backup_name w.state_file) d'.files ≡ some old)))
write_state-Keeps crypto faults w payload old d h v =
    let (visits, written) = write_state-Visits crypto faults w payload old d (λ fs x. x) h v in
    (
      visits,
      elim (Option-cases (write_state crypto faults w payload d).0) [
        | inl e ↦ inr (written e)
        | inr e ↦ inl e
      ],
    )
