-- ===== src/Client/Registry/Addition.antt =====
-- `createContact` where the client uses PANDA: the state that it leaves, and a second call.
use catshadow.Prelude.{
  ℕ, suc, ◌≡◌, ap, ◌∙◌, ◌⊎◌, inl, inr, true, false, Bytes, String, ◌∷◌, none, some, ok, arith,
  lookup, insert, lookup-insert_self, nat_comparable, string_comparable,
}
use catshadow.Disk.{Disk}
use catshadow.Contact.{Contact, already_exists, new_contact}
use catshadow.Client.{◌>>=◌, Client, Env, done, load, store, save, panda, ◌>>◌, pure}
use catshadow.Client.Steps.{save-Saves}
use catshadow.Client.Registry.{
  Creation, rand_id, add, create_contact, do_panda_exchange, start_exchange,
}
use catshadow.Client.Registry.Ids.{rand_id_fresh}
use mathlib.Core.Option

module _ {R : Type 0} (env : Env R) where
  -- The nickname is free, and all that making the contact asks for succeeds: an ID, the contact
  -- itself, and the PANDA exchange.
  pub record Succeeds (new : Creation R) (nickname : String) (id : ℕ) (k : Contact R) (kx : Bytes)
      (c : Client R) : Type 0 where
    pub free : lookup nickname c.contact_nicknames ≡ none
    pub drawn : rand_id c.contacts new.draws ≡ done id
    pub made :
        new_contact nickname id
          (Option.map env.get_write_descriptor c.spool_read_descriptor)
          new.ratchet
          env.create_key_exchange
          env.marshal_contact_exchange
        ≡ some (ok k)
    pub configured : env.panda_configured ≡ true
    pub no_reunion : (env.reunion_enabled ≡ none) ⊎ (env.reunion_enabled ≡ some false)
    pub started : new.panda_exchange ≡ ok kx

  abbrev pub exchanging : Bytes → Contact R → Contact R
  exchanging kx k = record k { panda_key_exchange = some kx; key_exchange = none }

  abbrev pub with_contact : Contact R → Bytes → Client R → Client R
  with_contact k kx c = record c {
    heap = insert c.next_address (exchanging kx k) (insert c.next_address k c.heap);
    next_address = suc c.next_address;
    contacts = insert k.id c.next_address c.contacts;
    contact_nicknames = insert k.nickname c.next_address c.contact_nicknames;
    running = panda k.id ∷ c.running;
  }

  create_contact_lem :
      (new : Creation R) (nickname : String) (id : ℕ) (k : Contact R) (kx : Bytes) (c : Client R)
      → Succeeds new nickname id k kx c
      → create_contact env new nickname c ≡ (save env new.faults >> pure none) (with_contact k kx c)
  unfolding ◌>>=◌ create_contact start_exchange do_panda_exchange add load store
  create_contact_lem new nickname id k kx c y = elim y.no_reunion [
    | inl off ↦ ground (
      arith,
      y.free,
      y.drawn,
      y.made,
      y.configured,
      off,
      y.started,
      lookup-insert_self c.next_address k c.heap,
    )
    | inr off ↦ ground (
      arith,
      y.free,
      y.drawn,
      y.made,
      y.configured,
      off,
      y.started,
      lookup-insert_self c.next_address k c.heap,
    )
  ]

  pub made_as :
      (new : Creation R) (nickname : String) (id : ℕ) (k : Contact R) (kx : Bytes) (c : Client R)
      → Succeeds new nickname id k kx c
      → (k.id ≡ id) × (k.nickname ≡ nickname) × (k.is_pending ≡ true)
  unfolding new_contact
  made_as new nickname id k kx c y =
      (ground (arith, y.made), ground (arith, y.made), ground (arith, y.made))

  pub create_contact_leaves :
      (new : Creation R) (nickname : String) (id : ℕ) (k : Contact R) (kx : Bytes) (c : Client R)
      → Succeeds new nickname id k kx c
      → (d : Disk) × ((create_contact env new nickname c).1
          ≡ record (with_contact k kx c) { disk = d })
  unfolding ◌>>=◌
  create_contact_leaves new nickname id k kx c y =
      let (o, d, e) = save-Saves env new.faults (with_contact k kx c) in
      (d, ap (λ r. r.1) (create_contact_lem new nickname id k kx c y) ∙ ground (arith, o, e))

  -- With PANDA, where the nickname is free and nothing fails but perhaps the save: the new contact is
  -- pending, and found under its nickname and under an ID that no contact had, with its exchange,
  -- which runs. A second call for the nickname returns an error and changes nothing, whatever it
  -- would be made of.
  pub create_contact-once :
      (new again : Creation R) (nickname : String) (id : ℕ) (k : Contact R) (kx : Bytes)
      (c : Client R)
      → Succeeds new nickname id k kx c
      → let c' = (create_contact env new nickname c).1 in
        (k.is_pending ≡ true)
        × (lookup nickname c'.contact_nicknames ≡ some c.next_address)
        × (lookup id c.contacts ≡ none)
        × (lookup id c'.contacts ≡ some c.next_address)
        × (lookup c.next_address c'.heap ≡ some (exchanging kx k))
        × (c'.running ≡ panda id ∷ c.running)
        × (create_contact env again nickname c' ≡ (done (some (already_exists nickname)), c'))
  create_contact-once new again nickname id k kx c y =
      let c' = (create_contact env new nickname c).1 in
      let (same_id, same_name, pending) = made_as new nickname id k kx c y in
      let (d, left) = create_contact_leaves new nickname id k kx c y in
      let named : lookup nickname c'.contact_nicknames ≡ some c.next_address =
        ap (λ (x : Client R). lookup nickname x.contact_nicknames) left
        ∙ rw same_name (lookup-insert_self nickname c.next_address c.contact_nicknames) in
      (
        pending,
        named,
        (rand_id_fresh c.contacts new.draws id y.drawn).1,
        ap (λ (x : Client R). lookup id x.contacts) left
            ∙ rw same_id (lookup-insert_self id c.next_address c.contacts),
        ap (λ (x : Client R). lookup c.next_address x.heap) left
            ∙ lookup-insert_self c.next_address _ _,
        ap (λ (x : Client R). x.running) left ∙ ap (λ (n : ℕ). panda n ∷ c.running) same_id,
        unfold ◌>>=◌ create_contact in ground (arith, named),
      )
