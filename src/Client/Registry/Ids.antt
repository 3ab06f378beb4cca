-- ===== src/Client/Registry/Ids.antt =====
-- `randID`: the ID that a new contact gets.
use catshadow.Prelude.{
  ℕ, ◌≡◌, ◌≢◌, ◌<◌, ◌^◌, length, subst, ◌⊎◌, inl, inr, Bytes, List, [], ◌∷◌, ◌++◌, Map, Option,
  none, some, arith, lookup, nat_comparable, ◌==◌, ==_iff, Option-cases, Bool-cases,
}
use native.Mathlib.Nat.{pow-suc}
use catshadow.Client.{done}
use catshadow.Client.Registry.{uint64, rand_id}

-- A draw that the loop refuses: zero, or the ID of a contact.
abbrev pub IsRefused : Map ℕ ℕ → Bytes → Type 0
IsRefused contacts b = (uint64 b ≡ 0) ⊎ ((p : ℕ) × (lookup (uint64 b) contacts ≡ some p))

abbrev pub AllRefused : Map ℕ ℕ → List Bytes → Type 0
AllRefused contacts [] = Unit
AllRefused contacts (b ∷ bs) = IsRefused contacts b × AllRefused contacts bs

abbrev drawn : List Bytes → List (Option Bytes)
drawn [] = []
drawn (b ∷ bs) = some b ∷ drawn bs

-- The loop ends at the first draw that is not refused, and returns its number.
pub rand_id_first :
    (contacts : Map ℕ ℕ) (bs : List Bytes) (b : Bytes) (draws : List (Option Bytes))
    → AllRefused contacts bs
    → uint64 b ≢ 0
    → lookup (uint64 b) contacts ≡ none
    → rand_id contacts (drawn bs ++ some b ∷ draws) ≡ done (uint64 b)
unfolding rand_id
rand_id_first contacts [] b draws h nonzero free = ground (arith, free, ==_iff (uint64 b) 0)
rand_id_first contacts (x ∷ bs) b draws (inl zero_, h) nonzero free =
    ground (arith, zero_, ==_iff (uint64 x) 0, rand_id_first contacts bs b draws h nonzero free)
rand_id_first contacts (x ∷ bs) b draws (inr (p, taken), h) nonzero free =
    ground (arith, taken, rand_id_first contacts bs b draws h nonzero free)

-- Whatever the random source yields, an ID that the loop returns is not zero and is no contact's.
pub rand_id_fresh :
    (contacts : Map ℕ ℕ) (draws : List (Option Bytes)) (n : ℕ)
    → rand_id contacts draws ≡ done n
    → (n ≢ 0) × (lookup n contacts ≡ none)
unfolding rand_id
rand_id_fresh contacts [] n e = cc
rand_id_fresh contacts (none ∷ draws) n e = cc
rand_id_fresh contacts (some b ∷ draws) n e = elim (Bool-cases (uint64 b == 0)) [
  | inl z ↦ rand_id_fresh contacts draws n (ground (arith, z))
  | inr nz ↦ elim (Option-cases (lookup (uint64 b) contacts)) [
    | inl free ↦
        let same : uint64 b ≡ n = ground (arith, nz, free) in
        (λ z. ground (arith, nz, same, ==_iff (uint64 b) 0), rw (← same) free)
    | inr (p, taken) ↦ rand_id_fresh contacts draws n (ground (arith, nz, taken))
  ]
]

abbrev pub AreBytes : Bytes → Type 0
AreBytes [] = Unit
AreBytes (b ∷ bs) = (b < 256) × AreBytes bs

-- Eight bytes, or a failure of the random source.
abbrev pub AreDraws : List (Option Bytes) → Type 0
AreDraws [] = Unit
AreDraws (none ∷ draws) = AreDraws draws
AreDraws (some b ∷ draws) = (length b ≡ 8) × AreBytes b × AreDraws draws

uint64_bound : (bs : Bytes) → AreBytes bs → uint64 bs < 256 ^ length bs
unfolding uint64
uint64_bound [] a = omega arith
uint64_bound (b ∷ bs) (x, a) = omega (arith, x, uint64_bound bs a, pow-suc 256 (length bs))

-- An ID that the loop returns is the number of one of the draws.
rand_id_drawn :
    (P : ℕ → Type 0) (contacts : Map ℕ ℕ) (draws : List (Option Bytes)) (n : ℕ)
    → AreDraws draws
    → ((b : Bytes) → length b ≡ 8 → AreBytes b → P (uint64 b))
    → rand_id contacts draws ≡ done n
    → P n
unfolding rand_id
rand_id_drawn P contacts [] n a p e = absurd (ground (arith, e))
rand_id_drawn P contacts (none ∷ draws) n a p e = absurd (ground (arith, e))
rand_id_drawn P contacts (some b ∷ draws) n (len, x, a) p e = elim (Bool-cases (uint64 b == 0)) [
  | inl z ↦ rand_id_drawn P contacts draws n a p (ground (arith, e, z))
  | inr nz ↦ elim (Option-cases (lookup (uint64 b) contacts)) [
    | inl free ↦ let same : uint64 b ≡ n = ground (arith, e, nz, free) in subst P same (p b len x)
    | inr (q, taken) ↦ rand_id_drawn P contacts draws n a p (ground (arith, e, nz, taken))
  ]
]

-- An ID that the loop returns over draws of eight bytes is a uint64, is not zero, and is no contact's.
pub rand_id_bounds :
    (contacts : Map ℕ ℕ) (draws : List (Option Bytes)) (n : ℕ)
    → AreDraws draws
    → rand_id contacts draws ≡ done n
    → (n < 2 ^ 64) × (n ≢ 0) × (lookup n contacts ≡ none)
rand_id_bounds contacts draws n a e =
    let (nonzero, free) = rand_id_fresh contacts draws n e in
    (
      rand_id_drawn (λ x. x < 2 ^ 64) contacts draws n a
          (λ b len x. let bound = uint64_bound b x in subst (λ k. uint64 b < 256 ^ k) len bound) e,
      nonzero,
      free,
    )
