-- ===== src/Client/Sound/Saving.antt =====
-- What a sound client saves can be restored.
use catshadow.Prelude.{
  ℕ, ◌≡◌, sym, ap, ◌∙◌, subst, String, [], ◌∷◌, Map, none, some, arith, lookup, Distinct,
  nat_comparable, string_comparable, ==_iff,
}
use catshadow.Queue.Refine.{HoldsCommands}
use catshadow.Contact.{Contact}
use catshadow.Client.{Client, Env, contacts_of, snapshot}
use catshadow.Client.Startup.{HasNoId, HaveDistinctIds}
use catshadow.Client.Sound.{IsSound, Stands}
use catshadow.Client.Sound.Removing.{same_contact, one_value}
use catshadow.Client.Sound.Startup.{
  HasNoNickname, HaveDistinctNicknames, HaveValidQueues, IsRestorable,
}

module _ {R : Type 0} (env : Env R) (heap : Map ℕ (Contact R)) (names : Map String ℕ) where
  -- Each entry leads to a contact that its nickname leads to as well.
  abbrev IsEntry : ℕ → ℕ → Type 0
  IsEntry i q = (n : String) × Stands q i n heap × (lookup n names ≡ some q)

  abbrev AreEntries : Map ℕ ℕ → Type 0
  AreEntries [] = Unit
  AreEntries ((i, q) ∷ es) = IsEntry i q × AreEntries es

  contacts-AreEntries :
      (es : Map ℕ ℕ)
      → ((i q : ℕ) → lookup i es ≡ some q → IsEntry i q)
      → Distinct es
      → AreEntries es
  unfolding lookup
  contacts-AreEntries [] each d = tt
  contacts-AreEntries ((i, q) ∷ es) each (new, d) = (
    each i q (ground (arith, ==_iff i i)),
    contacts-AreEntries es
        (λ j r h. each j r (ground (arith, h, new, ==_iff i j, ap (λ (x : ℕ). lookup x es)))) d,
  )

  contacts_of_entry :
      (es : Map ℕ ℕ) (i q : ℕ) (k : Contact R)
      → lookup q heap ≡ some k
      → contacts_of heap ((i, q) ∷ es) ≡ k ∷ contacts_of heap es
  unfolding contacts_of
  contacts_of_entry es i q k h = ground (arith, h)

  contacts_of-HasNoId :
      (i : ℕ) (es : Map ℕ ℕ)
      → AreEntries es
      → lookup i es ≡ none
      → HasNoId env i (contacts_of heap es)
  unfolding lookup
  contacts_of-HasNoId i [] a h = unfold contacts_of in tt
  contacts_of-HasNoId i ((j, q) ∷ es) ((n, s, _), a) h =
      rw (contacts_of_entry es j q s.contact s.at) (
        (λ e. ground (arith, h, ==_iff j i, sym s.same_id ∙ e)),
        contacts_of-HasNoId i es a (ground (arith, h)),
      )

  contacts_of-HaveDistinctIds :
      (es : Map ℕ ℕ) → AreEntries es → Distinct es → HaveDistinctIds env (contacts_of heap es)
  contacts_of-HaveDistinctIds [] a d = unfold contacts_of in tt
  contacts_of-HaveDistinctIds ((i, q) ∷ es) ((n, s, _), a) (new, d) =
      rw (contacts_of_entry es i q s.contact s.at) (
        contacts_of-HasNoId s.contact.id es a (ap (λ (x : ℕ). lookup x es) s.same_id ∙ new),
        contacts_of-HaveDistinctIds es a d,
      )

  -- A nickname that leads to an entry leads to no other one.
  contacts_of-HasNoNickname :
      (i p : ℕ) (n : String) (es : Map ℕ ℕ)
      → Stands p i n heap
      → lookup n names ≡ some p
      → AreEntries es
      → lookup i es ≡ none
      → HasNoNickname n (contacts_of heap es)
  unfolding lookup
  contacts_of-HasNoNickname i p n [] t named a h = unfold contacts_of in tt
  contacts_of-HasNoNickname i p n ((j, q) ∷ es) t named ((n', s, named'), a) h =
      rw (contacts_of_entry es j q s.contact s.at) (
        (λ e.
            let same_place : p ≡ q =
              one_value env n n' p q names (sym e ∙ s.same_nickname) named named' in
            let same_id : i ≡ j =
              (same_contact env q i j n n' heap (subst (λ (x : ℕ). Stands x i n heap) same_place t)
                s).0 in
            ground (arith, h, ==_iff j i, same_id)),
        contacts_of-HasNoNickname i p n es t named a (ground (arith, h)),
      )

  contacts_of-HaveDistinctNicknames :
      (es : Map ℕ ℕ) → AreEntries es → Distinct es → HaveDistinctNicknames (contacts_of heap es)
  contacts_of-HaveDistinctNicknames [] a d = unfold contacts_of in tt
  contacts_of-HaveDistinctNicknames ((i, q) ∷ es) ((n, s, named), a) (new, d) =
      rw (contacts_of_entry es i q s.contact s.at) (
        subst (λ (x : String). HasNoNickname x (contacts_of heap es)) (sym s.same_nickname)
            (contacts_of-HasNoNickname i q n es s named a new),
        contacts_of-HaveDistinctNicknames es a d,
      )

  contacts_of-HaveValidQueues :
      (es : Map ℕ ℕ)
      → AreEntries es
      → ((p : ℕ) (k : Contact R) → lookup p heap ≡ some k → HoldsCommands k.outbound)
      → HaveValidQueues (contacts_of heap es)
  contacts_of-HaveValidQueues [] a each = unfold contacts_of in tt
  contacts_of-HaveValidQueues ((i, q) ∷ es) ((n, s, _), a) each =
      rw (contacts_of_entry es i q s.contact s.at)
        (each q s.contact s.at, contacts_of-HaveValidQueues es a each)

module _ {R : Type 0} (env : Env R) where
  -- The state that a sound client saves is one that `New` makes a sound client of.
  pub snapshot-IsRestorable : (c : Client R) → IsSound c → IsRestorable env (snapshot env c)
  unfolding snapshot
  snapshot-IsRestorable c v =
      let a = contacts-AreEntries env c.heap c.contact_nicknames c.contacts v.by_id v.distinct in
      record {
        ids = contacts_of-HaveDistinctIds env c.heap c.contact_nicknames c.contacts a v.distinct;
        nicknames =
            contacts_of-HaveDistinctNicknames env c.heap c.contact_nicknames c.contacts a
              v.distinct;
        queues =
            contacts_of-HaveValidQueues env c.heap c.contact_nicknames c.contacts a
              (λ p k h. (v.each p k h).queue);
      }
