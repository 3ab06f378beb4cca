-- ===== src/Client/Sound/Adding.antt =====
-- Making a contact keeps the client's state sound.
use catshadow.Prelude.{
  ℕ, ◌≡◌, refl, sym, ap, ◌∙◌, subst, Bytes, String, Option, none, some, Result, ok, err, arith,
  lookup, insert, lookup-insert_self, lookup-insert_inv, lookup-insert_new, insert-Distinct, ◌⊎◌,
  lookup-insert_ne, nat_comparable, string_comparable, Option-cases, Result-cases, inl, inr,
}
use catshadow.Queue.{new_queue}
use catshadow.Queue.Refine.{HoldsCommands, new_queue-HoldsCommands}
use catshadow.Contact.{Contact, Err, SpoolWriteDescriptor, ContactExchange, new_contact}
use catshadow.Client.{Client, Env, ◌>>=◌, pure, panic, gets}
use catshadow.Client.Steps.{ends}
use catshadow.Client.Registry.{Creation, rand_id, add, start_exchange, create_contact}
use catshadow.Client.Registry.Ids.{rand_id_fresh}
use catshadow.Client.Sound.{IsSound, Stands, Extends, Extends-AllPointInto, nothing}
use catshadow.Client.Sound.Keeps.{Goes, Goes-quiet, Goes-refl, Goes-trans, Keeps}
use catshadow.Client.Sound.Starting.{start_exchange-Keeps}
use mathlib.Core.Option

module _ {R : Type 0} (env : Env R) where
  -- A contact with a new ID and a new nickname is added.
  pub add-Goes :
      (k : Contact R) (c : Client R)
      → IsSound c
      → HoldsCommands k.outbound
      → lookup k.id c.contacts ≡ none
      → lookup k.nickname c.contact_nicknames ≡ none
      → Goes c (add env k c).1
  unfolding add
  add-Goes k c v valid new_id new_name =
      Goes-quiet
        (record {
          by_name = λ n p h.
              elim (lookup-insert_inv k.nickname n c.next_address p c.contact_nicknames h) [
                | inl (e, at_next) ↦
                    subst
                      (λ (q : ℕ).
                        (id : ℕ) × Stands q id n (insert c.next_address k c.heap)
                        × (lookup id (insert k.id c.next_address c.contacts) ≡ some q))
                      at_next
                      (
                        k.id,
                        itself k.id n refl e,
                        lookup-insert_self k.id c.next_address c.contacts,
                      )
                | inr old ↦
                    let (id, s, i) = v.by_name n p old in
                    (
                      id,
                      larger p id n s,
                      lookup-insert_new k.id id c.next_address p c.contacts new_id i,
                    )
              ];
          by_id = λ id p h. elim (lookup-insert_inv k.id id c.next_address p c.contacts h) [
            | inl (e, at_next) ↦
                subst
                  (λ (q : ℕ).
                    (n : String) × Stands q id n (insert c.next_address k c.heap)
                    × (lookup n (insert k.nickname c.next_address c.contact_nicknames) ≡ some q))
                  at_next
                  (
                    k.nickname,
                    itself id k.nickname e refl,
                    lookup-insert_self k.nickname c.next_address c.contact_nicknames,
                  )
            | inr old ↦
                let (n, s, i) = v.by_id id p old in
                (
                  n,
                  larger p id n s,
                  lookup-insert_new k.nickname n c.next_address p c.contact_nicknames new_name i,
                )
          ];
          each = λ p j h. elim (lookup-insert_inv c.next_address p k j c.heap h) [
            | inl (e, who) ↦ record {
              queue = subst (λ (x : Contact R). HoldsCommands x.outbound) who valid;
              allocated = omega (arith, e);
            }
            | inr old ↦
                let was = v.each p j old in
                record { queue = was.queue; allocated = omega (arith, was.allocated) }
          ];
          requests =
              Extends-AllPointInto c.op_ch c.heap (insert c.next_address k c.heap) larger
                v.requests;
          room = v.room;
          distinct = insert-Distinct k.id c.next_address c.contacts v.distinct;
        })
        larger refl
    where
      larger : Extends c.heap (insert c.next_address k c.heap)
      larger p id n s = record {
        contact = s.contact;
        at =
            lookup-insert_ne c.next_address p k c.heap
              (λ e. omega (arith, e, (v.each p s.contact s.at).allocated))
            ∙ s.at;
        same_id = s.same_id;
        same_nickname = s.same_nickname;
      }

      itself :
          (id : ℕ) (n : String)
          → k.id ≡ id
          → k.nickname ≡ n
          → Stands c.next_address id n (insert c.next_address k c.heap)
      itself id n e e' = record {
        contact = k;
        at = lookup-insert_self c.next_address k c.heap;
        same_id = e;
        same_nickname = e';
      }

  -- What is known of a contact that `NewContact` makes.
  new_contact_lem :
      (nickname : String) (id : ℕ) (d : Option SpoolWriteDescriptor) (r : Result R Err)
      (create : R → Result Bytes Err) (marshal : ContactExchange → Result Bytes Err) (k : Contact R)
      → new_contact nickname id d r create marshal ≡ some (ok k)
      → (k.id ≡ id) × (k.nickname ≡ nickname) × (k.outbound ≡ new_queue)
  unfolding new_contact
  new_contact_lem nickname id d (err e) create marshal k h = ground (arith, h)
  new_contact_lem nickname id d (ok r) create marshal k h = ground (arith, h)

  -- `createContact` adds a contact and starts its exchange, or changes nothing.
  create_contact_lem :
      (new : Creation R) (nickname : String) (c : Client R)
      → ((create_contact env new nickname c).1 ≡ c)
        ⊎ ((k : Contact R) × (lookup k.id c.contacts ≡ none)
            × (lookup k.nickname c.contact_nicknames ≡ none)
            × (k.outbound ≡ new_queue)
            × (create_contact env new nickname c
                ≡ start_exchange env new c.next_address (add env k c).1))
  unfolding create_contact ◌>>=◌ gets pure panic add
  create_contact_lem new nickname c = elim (Option-cases (lookup nickname c.contact_nicknames)) [
    | inr (p, known) ↦ inl (ground (arith, known))
    | inl unknown ↦ elim (ends (rand_id c.contacts new.draws, c)) [
      | inr (inl (p, e)) ↦ inl (ground (arith, unknown, e))
      | inr (inr e) ↦ inl (ground (arith, unknown, e))
      | inl (id, e) ↦
          let made =
            new_contact nickname id (Option.map env.get_write_descriptor c.spool_read_descriptor)
              new.ratchet env.create_key_exchange env.marshal_contact_exchange in
          elim (Option-cases made) [
            | inl n ↦ inl (ground (arith, unknown, e, n))
            | inr (r, n) ↦ elim (Result-cases r) [
              | inr (x, f) ↦ inl (ground (arith, unknown, e, n, f))
              | inl (k, f) ↦
                  let (same_id, same_name, queue) =
                    new_contact_lem nickname id _ new.ratchet env.create_key_exchange
                      env.marshal_contact_exchange k (n ∙ ap some f) in
                  inr (
                    k,
                    rw same_id (rand_id_fresh c.contacts new.draws id (ap (λ r. r.0) e)).1,
                    rw same_name unknown,
                    queue,
                    ground (arith, unknown, e, n, f),
                  )
            ]
          ]
    ]
  ]

  pub create_contact-Keeps :
      (new : Creation R) (nickname : String) → Keeps nothing (create_contact env new nickname)
  create_contact-Keeps new nickname = record {
    at = λ c v h. elim (create_contact_lem new nickname c) [
      | inl e ↦ subst (Goes c) (sym e) (Goes-refl c v)
      | inr (k, new_id, new_name, queue, e) ↦
          let added =
            add-Goes k c v (subst HoldsCommands (sym queue) new_queue-HoldsCommands) new_id
              new_name in
          subst (λ r. Goes c r.1) (sym e)
            (Goes-trans added
              ((start_exchange-Keeps env new c.next_address).at (add env k c).1 added.sound tt))
    ];
  }
