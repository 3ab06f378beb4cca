-- ===== src/Client/Startup.antt =====
-- client.go, `New` and `NewClientAndRemoteSpool`: a client made from a state that was loaded.
use catshadow.Prelude.{
  ℕ, suc, ◌<◌, ◌≡◌, ◌≢◌, refl, sym, ap, ◌∙◌, List, [], ◌∷◌, ◌++◌, append_assoc, append-nil, Map,
  Option, none, some, Result, ok, err, arith, lookup, insert, lookup-insert_self, lookup-insert_ne,
  ◌==◌, nat_comparable, Option-cases, inl, inr, Bool-cases,
}
use catshadow.Contact.{Contact, Err}
use catshadow.Disk.{Disk}
use catshadow.Client.{Client, Env, State, contacts_of, snapshot}
use catshadow.Client.Registry.{add}

module _ {R : Type 0} (env : Env R) where
  -- The loop of `New` over the contacts of the state.
  unfoldable pub restore : List (Contact R) → Client R → Client R
  restore [] c = c
  restore (contact ∷ contacts) c = restore contacts (add env contact c).1

  -- The value that `New` allocates. Its field `user`, and the provider and the key of the session, are
  -- those of `env`.
  abbrev pub allocated : State R → Disk → Client R
  allocated state disk = record {
    heap = [];
    next_address = 0;
    contacts = [];
    contact_nicknames = [];
    conversations = state.conversations;
    send_map = [];
    spool_read_descriptor = state.spool_read_descriptor;
    op_ch = [];
    event_ch = [];
    fatal_err = none;
    transmitted = [];
    running = [];
    disk = disk;
  }

  -- `New` once it has the session, with the disk that the process finds.
  unfoldable pub new_client : State R → Disk → Client R
  new_client state disk = restore state.contacts (allocated state disk)

  -- `New`, over the error of `NewSession`.
  unfoldable pub new : Option Err → State R → Disk → Result (Client R) Err
  new (some e) state disk = err e
  new none state disk = ok (new_client state disk)

  -- No contact of the list has this ID.
  abbrev pub HasNoId : ℕ → List (Contact R) → Type 0
  HasNoId id [] = Unit
  HasNoId id (k ∷ ks) = (k.id ≢ id) × HasNoId id ks

  -- The contacts have different IDs.
  abbrev pub HaveDistinctIds : List (Contact R) → Type 0
  HaveDistinctIds [] = Unit
  HaveDistinctIds (k ∷ ks) = HasNoId k.id ks × HaveDistinctIds ks

  -- None of the contacts' IDs is in the map.
  abbrev AllFresh : List (Contact R) → Map ℕ ℕ → Type 0
  AllFresh [] ids = Unit
  AllFresh (k ∷ ks) ids = (lookup k.id ids ≡ none) × AllFresh ks ids

  -- Every address in the map was allocated before the next one.
  abbrev AllBelow : ℕ → Map ℕ ℕ → Type 0
  AllBelow n [] = Unit
  AllBelow n ((_, p) ∷ ids) = (p < n) × AllBelow n ids

  insert-AllFresh :
      (ks : List (Contact R)) (id n : ℕ) (ids : Map ℕ ℕ)
      → AllFresh ks ids
      → HasNoId id ks
      → AllFresh ks (insert id n ids)
  insert-AllFresh [] id n ids f a = tt
  insert-AllFresh (k ∷ ks) id n ids (f, fs) (a, rest) =
      (lookup-insert_ne id k.id n ids (λ e. a (sym e)) ∙ f, insert-AllFresh ks id n ids fs rest)

  AllBelow-suc : (n : ℕ) (ids : Map ℕ ℕ) → AllBelow n ids → AllBelow (suc n) ids
  AllBelow-suc n [] b = tt
  AllBelow-suc n ((_, p) ∷ ids) (b, bs) = (omega (arith, b), AllBelow-suc n ids bs)

  insert-AllBelow : (id n : ℕ) (ids : Map ℕ ℕ) → AllBelow n ids → AllBelow (suc n) (insert id n ids)
  unfolding insert
  insert-AllBelow id n [] b = (omega arith, tt)
  insert-AllBelow id n ((j, p) ∷ ids) (b, bs) = elim (Bool-cases (j == id)) [
    | inl e ↦ rw e (omega arith, AllBelow-suc n ids bs)
    | inr e ↦ rw e (omega (arith, b), insert-AllBelow id n ids bs)
  ]

  -- An allocation does not change the contacts that were there.
  contacts_of-insert_heap :
      (n : ℕ) (k : Contact R) (heap : Map ℕ (Contact R)) (ids : Map ℕ ℕ)
      → AllBelow n ids
      → contacts_of (insert n k heap) ids ≡ contacts_of heap ids
  unfolding contacts_of
  contacts_of-insert_heap n k heap [] b = refl
  contacts_of-insert_heap n k heap ((j, p) ∷ ids) (b, bs) = ground (
    arith,
    lookup-insert_ne n p k heap (λ e. omega (arith, e, b)),
    contacts_of-insert_heap n k heap ids bs,
  )

  -- A contact with a new ID is visited last.
  contacts_of-insert_id :
      (id p : ℕ) (k : Contact R) (heap : Map ℕ (Contact R)) (ids : Map ℕ ℕ)
      → lookup id ids ≡ none
      → lookup p heap ≡ some k
      → contacts_of heap (insert id p ids) ≡ contacts_of heap ids ++ k ∷ []
  unfolding contacts_of insert lookup
  contacts_of-insert_id id p k heap [] f h = ground (arith, h)
  contacts_of-insert_id id p k heap ((j, q) ∷ ids) f h =
      ground (arith, f, h, contacts_of-insert_id id p k heap ids, Option-cases (lookup q heap))

  nothing-AllFresh : (ks : List (Contact R)) → AllFresh ks []
  unfolding lookup
  nothing-AllFresh [] = tt
  nothing-AllFresh (k ∷ ks) = (refl, nothing-AllFresh ks)

  -- Restoring contacts with new IDs adds them behind those that were there.
  contacts_of-restore :
      (ks : List (Contact R)) (c : Client R)
      → HaveDistinctIds ks
      → AllFresh ks c.contacts
      → AllBelow c.next_address c.contacts
      → let r = restore ks c in contacts_of r.heap r.contacts ≡ contacts_of c.heap c.contacts ++ ks
  unfolding restore add
  contacts_of-restore [] c d f b = sym (append-nil _)
  contacts_of-restore (k ∷ ks) c (a, d) (f, fs) b =
      let c₁ = (add env k c).1 in
      contacts_of-restore ks c₁ d (insert-AllFresh ks k.id c.next_address c.contacts fs a)
        (insert-AllBelow k.id c.next_address c.contacts b)
      ∙ ap (λ (l : List (Contact R)). l ++ ks)
          (contacts_of-insert_id k.id c.next_address k c₁.heap c.contacts f
              (lookup-insert_self c.next_address k c.heap)
            ∙ ap (λ (l : List (Contact R)). l ++ k ∷ [])
                (contacts_of-insert_heap c.next_address k c.heap c.contacts b))
      ∙ append_assoc (contacts_of c.heap c.contacts) (k ∷ []) ks

  -- The loop changes the contacts only.
  restore_leaves :
      (ks : List (Contact R)) (c : Client R)
      → let r = restore ks c in
        (r.conversations ≡ c.conversations)
        × (r.spool_read_descriptor ≡ c.spool_read_descriptor)
        × (r.send_map ≡ c.send_map)
  unfolding restore add
  restore_leaves [] c = (refl, refl, refl)
  restore_leaves (k ∷ ks) c = restore_leaves ks (add env k c).1

  -- A client made from a state whose contacts have different IDs would save that state again: the
  -- contacts in their order, the conversations and the spool's descriptor; and no message is on its
  -- way.
  pub snapshot-new_client :
      (state : State R) (disk : Disk)
      → HaveDistinctIds state.contacts
      → state.user ≡ env.user
      → state.provider ≡ env.provider
      → state.link_key ≡ env.link_key
      → (snapshot env (new_client state disk) ≡ state) × ((new_client state disk).send_map ≡ [])
  unfolding new_client snapshot contacts_of
  snapshot-new_client state disk d u p l =
      let c = allocated state disk in
      let (talks, reader, sends) = restore_leaves state.contacts c in
      let known = contacts_of-restore state.contacts c d (nothing-AllFresh state.contacts) tt in
      (ground (arith, talks, reader, known, u, p, l), sends)
