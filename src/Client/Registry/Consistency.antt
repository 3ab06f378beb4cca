-- ===== src/Client/Registry/Consistency.antt =====
-- The two maps of contacts: what `createContact` and `doContactRemoval` keep true of them.
use catshadow.Prelude.{
  ℕ, ◌<◌, ◌≡◌, ◌≢◌, sym, ap, ◌∙◌, subst, inl, inr, Bytes, String, lookup-insert_self, none, some,
  arith, lookup, erase, lookup-insert, lookup-erase_self, lookup-erase_ne, lookup-insert_ne,
  nat_comparable, string_comparable, ==_iff, ◌==◌, Option-cases, Bool-cases,
}
use catshadow.Disk.{Disk, Faults}
use catshadow.Contact.{Contact}
use catshadow.Client.{◌>>=◌, Client, Env}
use catshadow.Client.Registry.{Creation, create_contact, do_contact_removal}
use catshadow.Client.Registry.Ids.{rand_id_fresh}
use catshadow.Client.Registry.Addition.{
  Succeeds, exchanging, with_contact, made_as, create_contact_leaves,
}
use catshadow.Client.Registry.Removal.{Removed, closed, do_contact_removal-Removed}

module _ {R : Type 0} where
  -- The contact behind a nickname: it has that nickname, its ID leads to it as well, and its address
  -- was allocated.
  pub record IsListed (nickname : String) (p : ℕ) (c : Client R) : Type 0 where
    pub contact : Contact R
    pub at : lookup p c.heap ≡ some contact
    pub same : contact.nickname ≡ nickname
    pub by_id : lookup contact.id c.contacts ≡ some p
    pub allocated : p < c.next_address

  -- Every nickname of the map is a listed contact's.
  abbrev pub IsConsistent : Client R → Type 0
  IsConsistent c =
      (nickname : String) (p : ℕ)
      → lookup nickname c.contact_nicknames ≡ some p
      → IsListed nickname p c

  -- At one address stands one contact.
  same_id :
      (c : Client R) (p q : ℕ) (k j : Contact R)
      → lookup p c.heap ≡ some k
      → lookup q c.heap ≡ some j
      → p ≡ q
      → k.id ≡ j.id
  same_id c p q k j at at' e =
      let who : some k ≡ some j = sym at ∙ ap (λ (x : ℕ). lookup x c.heap) e ∙ at' in
      ground (arith, who)

  -- Two nicknames never lead to contacts with one ID.
  same_id-same_nickname :
      (c : Client R) (n m : String) (p q : ℕ) (k j : Contact R)
      → lookup p c.heap ≡ some k
      → lookup q c.heap ≡ some j
      → k.nickname ≡ n
      → j.nickname ≡ m
      → lookup k.id c.contacts ≡ some p
      → lookup j.id c.contacts ≡ some q
      → k.id ≡ j.id
      → n ≡ m
  same_id-same_nickname c n m p q k j at at' name name' by by' e =
      let where_ : p ≡ q = ground (arith, by, by', ap (λ (x : ℕ). lookup x c.contacts) e) in
      let who : some k ≡ some j = sym at ∙ ap (λ (x : ℕ). lookup x c.heap) where_ ∙ at' in
      let who' : k ≡ j = ground (arith, who) in
      sym name ∙ ap (λ (x : Contact R). x.nickname) who' ∙ name'

module _ {R : Type 0} (env : Env R) where
  Removed-IsConsistent :
      (nickname : String) (p : ℕ) (k : Contact R) (c c' : Client R)
      → IsConsistent c
      → lookup nickname c.contact_nicknames ≡ some p
      → lookup p c.heap ≡ some k
      → Removed env nickname p k c c'
      → IsConsistent c'
  Removed-IsConsistent nickname p k c c' v named at r n q h =
      let was : lookup n (erase nickname c.contact_nicknames) ≡ some q =
        ap (lookup n) (sym r.names) ∙ h in
      let other : nickname ≢ n =
        λ e. ground (arith, e, was, lookup-erase_self n c.contact_nicknames) in
      let l = v n q (sym (lookup-erase_ne nickname n c.contact_nicknames other) ∙ was) in
      let gone = v nickname p named in
      let who : some gone.contact ≡ some k = sym gone.at ∙ at in
      let who' : gone.contact ≡ k = ground (arith, who) in
      let ids_differ : k.id ≢ l.contact.id = λ e. other (
        same_id-same_nickname c nickname n p q gone.contact l.contact gone.at l.at gone.same l.same
          gone.by_id l.by_id (ap (λ (x : Contact R). x.id) who' ∙ e)) in
      let apart : p ≢ q = λ e. ids_differ (
        sym (ap (λ (x : Contact R). x.id) who')
        ∙ same_id c p q gone.contact l.contact gone.at l.at e) in
      record {
        contact = l.contact;
        at = elim r.heap [
          | inl (_, e) ↦ ap (lookup q) e ∙ l.at
          | inr (_, e) ↦ ap (lookup q) e ∙ lookup-insert_ne p q (closed env k) c.heap apart ∙ l.at
        ];
        same = l.same;
        by_id =
            ap (lookup l.contact.id) r.ids
            ∙ lookup-erase_ne k.id l.contact.id c.contacts ids_differ
            ∙ l.by_id;
        allocated = omega (arith, l.allocated, r.address);
      }

  -- Removing a contact, found or not, leaves the maps consistent, however the removal ends.
  pub do_contact_removal-IsConsistent :
      (faults : Faults) (nickname : String) (c : Client R)
      → IsConsistent c
      → IsConsistent (do_contact_removal env faults nickname c).1
  do_contact_removal-IsConsistent faults nickname c v =
      elim (Option-cases (lookup nickname c.contact_nicknames)) [
        | inl n ↦
            let same : (do_contact_removal env faults nickname c).1 ≡ c =
              unfold ◌>>=◌ do_contact_removal in ground (arith, n) in
            subst IsConsistent (sym same) v
        | inr (p, n) ↦
            let l = v nickname p n in
            elim (do_contact_removal-Removed env faults nickname p l.contact c n l.at) [
              | inl (_, stopped) ↦ subst IsConsistent (sym (ap (λ r. r.1) stopped)) v
              | inr (r, _) ↦ Removed-IsConsistent nickname p l.contact c _ v n l.at r
            ]
      ]

  added-IsConsistent :
      (k : Contact R) (kx : Bytes) (c : Client R)
      → IsConsistent c
      → lookup k.id c.contacts ≡ none
      → IsConsistent (with_contact env k kx c)
  added-IsConsistent k kx c v fresh n q h = elim (Bool-cases (k.nickname == n)) [
    | inl e ↦
        let where_ : c.next_address ≡ q =
          ground (arith, h, e, lookup-insert k.nickname n c.next_address c.contact_nicknames) in
        subst (λ (x : ℕ). IsListed n x (with_contact env k kx c)) where_
          (record {
            contact = exchanging env kx k;
            at = lookup-insert_self c.next_address (exchanging env kx k) _;
            same = (==_iff k.nickname n).0 e;
            by_id = lookup-insert_self k.id c.next_address c.contacts;
            allocated = omega arith;
          })
    | inr e ↦
        let l =
          v n q
            (ground (arith, h, e, lookup-insert k.nickname n c.next_address c.contact_nicknames)) in
        let apart : c.next_address ≢ q = λ x. omega (arith, x, l.allocated) in
        let ids_differ : k.id ≢ l.contact.id =
          λ x. ground (arith, fresh, l.by_id, ap (λ (i : ℕ). lookup i c.contacts) x) in
        record {
          contact = l.contact;
          at =
              lookup-insert_ne c.next_address q (exchanging env kx k) _ apart
              ∙ lookup-insert_ne c.next_address q k c.heap apart
              ∙ l.at;
          same = l.same;
          by_id = lookup-insert_ne k.id l.contact.id c.next_address c.contacts ids_differ ∙ l.by_id;
          allocated = omega (arith, l.allocated);
        }
  ]

  -- Making a contact, where nothing fails but perhaps the save, leaves the maps consistent.
  pub create_contact-IsConsistent :
      (new : Creation R) (nickname : String) (id : ℕ) (k : Contact R) (kx : Bytes) (c : Client R)
      → Succeeds env new nickname id k kx c
      → IsConsistent c
      → IsConsistent (create_contact env new nickname c).1
  create_contact-IsConsistent new nickname id k kx c y v =
      let (same_id, _, _) = made_as env new nickname id k kx c y in
      let (d, left) = create_contact_leaves env new nickname id k kx c y in
      let fresh : lookup k.id c.contacts ≡ none =
        rw same_id (rand_id_fresh c.contacts new.draws id y.drawn).1 in
      subst IsConsistent (sym left) (on_disk d (added-IsConsistent k kx c v fresh))
    where
      on_disk :
          (d : Disk)
          → IsConsistent (with_contact env k kx c)
          → IsConsistent (record (with_contact env k kx c) { disk = d })
      on_disk d w n q h =
          let l = w n q h in
          record {
            contact = l.contact;
            at = l.at;
            same = l.same;
            by_id = l.by_id;
            allocated = l.allocated;
          }
