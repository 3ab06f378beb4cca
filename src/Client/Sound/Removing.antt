-- ===== src/Client/Sound/Removing.antt =====
-- Removing a contact keeps the client's state sound.
use catshadow.Prelude.{
  ℕ, ◌≡◌, refl, sym, ap, ◌∙◌, subst, String, List, Map, none, some, arith, lookup, erase-Distinct,
  erase, lookup-erase_inv, lookup-erase_ne, Comparable, nat_comparable, string_comparable,
  Option-cases, inl, inr,
}
use catshadow.Disk.{Faults}
use catshadow.Contact.{Contact}
use catshadow.Client.{Op, Client, Env, done, ◌>>=◌, pure, gets, store}
use catshadow.Client.Registry.{do_contact_removal}
use catshadow.Client.Registry.Removal.{Removed, closed, do_contact_removal-Removed}
use catshadow.Client.Sound.{IsSound, IsSoundFor, Stands, nothing}
use catshadow.Client.Sound.Keeps.{Goes, Goes-quiet, Goes-refl, Keeps}
use catshadow.Client.Sound.Actions.{Keeps-store}

module _ {R : Type 0} (env : Env R) where
  -- One contact stands at an address.
  pub same_contact :
      (p id id' : ℕ) (n n' : String) (heap : Map ℕ (Contact R))
      → Stands p id n heap
      → Stands p id' n' heap
      → (id ≡ id') × (n ≡ n')
  same_contact p id id' n n' heap s s' =
      let who : s.contact ≡ s'.contact = ground (arith, s.at, s'.at) in
      (
        sym s.same_id ∙ ap (λ (x : Contact R). x.id) who ∙ s'.same_id,
        sym s.same_nickname ∙ ap (λ (x : Contact R). x.nickname) who ∙ s'.same_nickname,
      )

  -- One key has one value.
  pub one_value :
      {K : Type 0} ⦃d : Comparable K⦄ (j k : K) (p q : ℕ) (m : Map K ℕ)
      → j ≡ k
      → lookup j m ≡ some p
      → lookup k m ≡ some q
      → p ≡ q
  one_value {K = K} j k p q m e h h' = ground (arith, h, h', ap (λ (x : K). lookup x m) e)

  -- Deleting the two entries of a contact that is listed.
  without-IsSound :
      (p id : ℕ) (nickname : String) (heap : Map ℕ (Contact R)) (next : ℕ) (ids : Map ℕ ℕ)
      (names : Map String ℕ) (ops : List Op)
      → IsSoundFor heap next ids names ops
      → Stands p id nickname heap
      → lookup nickname names ≡ some p
      → IsSoundFor heap next (erase id ids) (erase nickname names) ops
  without-IsSound p id nickname heap next ids names ops v s named = record {
    by_name = λ n q h.
        let (other, was) = lookup-erase_inv nickname n q names h in
        let (i, t, at_i) = v.by_name n q was in
        (
          i,
          t,
          lookup-erase_ne id i ids (λ e. other (
                (same_contact p id i nickname n heap s (
                  subst (λ (x : ℕ). Stands x i n heap) (sym (one_value id i p q ids e by_id at_i))
                    t)).1))
              ∙ at_i,
        );
    by_id = λ i q h.
        let (other, was) = lookup-erase_inv id i q ids h in
        let (n, t, at_n) = v.by_id i q was in
        (
          n,
          t,
          lookup-erase_ne nickname n names (λ e. other (
                (same_contact p id i nickname n heap s (
                  subst (λ (x : ℕ). Stands x i n heap)
                    (sym (one_value nickname n p q names e named at_n)) t)).0))
              ∙ at_n,
        );
    each = v.each;
    distinct = erase-Distinct id ids v.distinct;
    requests = v.requests;
    room = v.room;
  }
    where
      by_id : lookup id ids ≡ some p
      by_id =
          let (i, t, at_i) = v.by_name nickname p named in
          let same = (same_contact p i id nickname nickname heap t s).0 in
          ap (λ (x : ℕ). lookup x ids) (sym same) ∙ at_i

  Removed-Goes :
      (nickname : String) (p : ℕ) (k : Contact R) (c c' : Client R)
      → IsSound c
      → lookup nickname c.contact_nicknames ≡ some p
      → lookup p c.heap ≡ some k
      → k.nickname ≡ nickname
      → Removed env nickname p k c c'
      → Goes c c'
  unfolding store
  Removed-Goes nickname p k c c' v named at same r =
      let s : Stands p k.id nickname c.heap = record {
        contact = k;
        at = at;
        same_id = refl;
        same_nickname = same;
      } in
      let left =
        without-IsSound p k.id nickname c.heap c.next_address c.contacts c.contact_nicknames c.op_ch
          v s named in
      elim r.heap [
        | inl (_, e) ↦
            Goes-quiet (rw (e, r.address, r.ids, r.names, r.ops) left) (λ q i n x. rw e x)
              (sym r.events)
        | inr (_, e) ↦
            let g =
              (Keeps-store p k.id nickname (closed env k) (v.each p k at).queue refl same).at
                (record c {
                  contacts = erase k.id c.contacts;
                  contact_nicknames = erase nickname c.contact_nicknames;
                })
                left s in
            Goes-quiet (rw (e, r.address, r.ids, r.names, r.ops) g.sound)
              (λ q i n x. rw e (g.extends q i n x)) (sym r.events)
      ]

  removal_of_nothing :
      (faults : Faults) (nickname : String) (c : Client R)
      → lookup nickname c.contact_nicknames ≡ none
      → do_contact_removal env faults nickname c ≡ (done tt, c)
  unfolding do_contact_removal ◌>>=◌ gets pure
  removal_of_nothing faults nickname c n = ground (arith, n)

  pub do_contact_removal-Keeps :
      (faults : Faults) (nickname : String) → Keeps nothing (do_contact_removal env faults nickname)
  do_contact_removal-Keeps faults nickname = record {
    at = λ c v h. elim (Option-cases (lookup nickname c.contact_nicknames)) [
      | inl n ↦
          subst (λ r. Goes c r.1) (sym (removal_of_nothing faults nickname c n)) (Goes-refl c v)
      | inr (p, n) ↦
          let (id, s, _) = v.by_name nickname p n in
          elim (do_contact_removal-Removed env faults nickname p s.contact c n s.at) [
            | inl (_, stopped) ↦ subst (λ r. Goes c r.1) (sym stopped) (Goes-refl c v)
            | inr (r, _) ↦ Removed-Goes nickname p s.contact c _ v n s.at s.same_nickname r
          ]
    ];
  }
