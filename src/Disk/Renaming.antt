-- ===== src/Disk/Renaming.antt =====
-- The names of the statefile, the new file and the backup, and what renaming one to another does.
use Prim.Native.String.{count}
use text.Mathlib.TextLemmas.{length-append as count-append}
use catshadow.Prelude.{
  ℕ, ◌≡◌, ◌≢◌, refl, sym, ap, ◌∙◌, ◌⊎◌, inl, inr, Bytes, String, Option, none, some, arith, lookup,
  insert, erase, string_comparable, lookup-insert_ne, lookup-erase_ne,
}
use catshadow.Disk.{Disk, DiskError, io_error, touch, rename, tmp_name, backup_name}

-- The three names differ, whatever the statefile is called.
pub backup_ne_name : (f : String) → backup_name f ≢ f
backup_ne_name f e = absurd (omega (arith, ap count e, count-append f "~"))

pub tmp_ne_name : (f : String) → tmp_name f ≢ f
tmp_ne_name f e = absurd (omega (arith, ap count e, count-append f ".tmp"))

pub tmp_ne_backup : (f : String) → tmp_name f ≢ backup_name f
tmp_ne_backup f e = absurd (omega (arith, ap count e, count-append f ".tmp", count-append f "~"))

pub rename_lem :
    (io : Option ℕ) (from to : String) (d : Disk) (c : Bytes)
    → lookup from d.files ≡ some c
    → rename io from to d ≡ (elim io [
      | none ↦ (none, touch d (insert to c (erase from d.files)))
      | some n ↦ (some (io_error n), d)
    ])
unfolding rename
rename_lem none from to d c h = rw (h, rename)
rename_lem (some n) from to d c h = refl

-- Moving the statefile to its backup leaves the new file alone.
pub tmp_survives :
    (f : String) (old c : Bytes) (d : Disk)
    → lookup (tmp_name f) d.files ≡ some c
    → lookup (tmp_name f) (insert (backup_name f) old (erase f d.files)) ≡ some c
tmp_survives f old c d t =
    lookup-insert_ne (backup_name f) (tmp_name f) old (erase f d.files)
      (λ e. tmp_ne_backup f (sym e))
    ∙ lookup-erase_ne f (tmp_name f) d.files (λ e. tmp_ne_name f (sym e))
    ∙ t

pub pair_cases :
    (r : Option DiskError × Disk)
    → ((d : Disk) × (r ≡ (none, d))) ⊎ ((e : DiskError) × (d : Disk) × (r ≡ (some e, d)))
pair_cases (none, d) = inl (d, refl)
pair_cases (some e, d) = inr (e, d, refl)
