-- ===== src/Client/Exchanges/Panda.antt =====
-- `processPANDAUpdate`: how a PANDA exchange ends, and what that leaves for `doSendMessage`.
use catshadow.Prelude.{
  ℕ, ◌≡◌, refl, ap, ◌∙◌, ◌≢◌, ◌==◌, ==_iff, bytes_comparable, Bool-cases, false, Bytes, String, [],
  ◌∷◌, ◌++◌, Option, none, some, Result, ok, err, arith, ◌⊎◌, inl, inr, lookup, insert,
  lookup-insert_self, nat_comparable, string_comparable,
}
use catshadow.Disk.{Disk, Faults}
use catshadow.Contact.{
  Contact, ContactExchange, Err, parse_failure, ratchet_failure, echoed_exchange,
}
use catshadow.Client.{
  ◌>>=◌, Client, Env, ◌>>◌, done, panicked, nil_pointer, load, store, emit, save, put_message,
  key_exchange_completed,
}
use catshadow.Client.Steps.{save-Saves}
use catshadow.Client.Messaging.{do_send_message, encrypt_and_enqueue}
use catshadow.Client.Exchanges.{
  PandaUpdate, process_panda_update, panda_completed, panda_unusable, panda_progressed, bytes_of,
}

module _ {R : Type 0} (env : Env R) where
  -- The client knows the contact, under its ID and under its nickname.
  pub record IsKnown (id p : ℕ) (k : Contact R) (c : Client R) : Type 0 where
    pub by_id : lookup id c.contacts ≡ some p
    pub by_nickname : lookup k.nickname c.contact_nicknames ≡ some p
    pub at : lookup p c.heap ≡ some k

  -- An update that carries the exchange's result.
  pub record IsFinal (id : ℕ) (b : Bytes) (u : PandaUpdate) : Type 0 where
    pub to : u.id ≡ id
    pub fine : u.error ≡ none
    pub no_snapshot : u.serialised ≡ none
    pub yields : u.result ≡ some b

  -- A result that cannot be used: it does not parse, or the ratchet refuses it.
  abbrev pub IsUnusable : Bytes → Contact R → Type 0
  IsUnusable b k =
      ((e : Err) × (env.unmarshal_contact_exchange b ≡ err e))
      ⊎ ((exchange : ContactExchange) × (e : Err) × (r : R) × (env.unmarshal_contact_exchange b
            ≡ ok exchange)
          × (env.process_key_exchange k.ratchet exchange.signed_key_exchange ≡ (some e, r)))

  -- What an unusable result makes of the contact.
  abbrev given_up : R → Err → Contact R → Contact R
  given_up r e k = record k {
    panda_key_exchange = none;
    ratchet = r;
    panda_result = some e;
    is_pending = false;
  }

  unusable :
      (restart : Option Err) (faults : Faults) (u : PandaUpdate) (b : Bytes) (id p : ℕ)
      (k : Contact R) (c : Client R)
      → IsKnown id p k c
      → IsFinal id b u
      → IsUnusable b k
      → (r : R) × (e : Err) × (process_panda_update env restart faults u c
          ≡ (save env faults >> emit (key_exchange_completed k.nickname (some e)))
              (record c { heap = insert p (given_up r e k) c.heap }))
  unfolding ◌>>=◌ process_panda_update panda_completed panda_unusable load store
  unusable restart faults u b id p k c y f (inl (e, parsed)) = (
    k.ratchet,
    parse_failure e,
    ground (arith, y.by_id, y.at, f.to, f.fine, f.no_snapshot, f.yields, parsed),
  )
  unusable restart faults u b id p k c y f (inr (exchange, e, r, parsed, processed)) = (
    r,
    ratchet_failure e,
    ground (arith, y.by_id, y.at, f.to, f.fine, f.no_snapshot, f.yields, parsed, processed),
  )

  -- A save and an event leave the contacts as they were.
  save_and_emit :
      (faults : Faults) (nickname : String) (e : Option Err) (c : Client R)
      → let c' = ((save env faults >> emit (key_exchange_completed nickname e)) c).1 in
        (c'.heap ≡ c.heap) × (c'.contact_nicknames ≡ c.contact_nicknames)
  unfolding ◌>>=◌ emit
  save_and_emit faults nickname e c =
      let (o, d, s) = save-Saves env faults c in
      elim o [
        | inl o' ↦ (ground (arith, o', s), ground (arith, o', s))
        | inr o' ↦ (ground (arith, o', s), ground (arith, o', s))
      ]

  -- A pending contact without the peer's spool, whose exchange yields a result that cannot be used,
  -- counts as paired all the same: it is no longer pending and still has no spool, so the next message
  -- to it stops the client at the nil descriptor, whatever the message.
  pub process_panda_update-then_sending_panics :
      (restart : Option Err) (faults faults' : Faults) (u : PandaUpdate) (b : Bytes) (id p : ℕ)
      (k : Contact R) (now : ℕ) (sent : Result Bytes Err) (message_id message : Bytes)
      (c : Client R)
      → IsKnown id p k c
      → IsFinal id b u
      → IsUnusable b k
      → k.spool_write_descriptor ≡ none
      → let c' = (process_panda_update env restart faults u c).1 in
        ((k' : Contact R) × (lookup p c'.heap ≡ some k')
          × (k'.is_pending ≡ false)
          × (k'.spool_write_descriptor ≡ none))
        × ((do_send_message env now sent faults' message_id k.nickname message c').0
            ≡ panicked nil_pointer)
  unfolding ◌>>=◌ do_send_message encrypt_and_enqueue load store put_message
  process_panda_update-then_sending_panics restart faults faults' u b id p k now sent message_id
        message c y f bad no_spool =
      let (r, e, step) = unusable restart faults u b id p k c y f bad in
      let k' = given_up r e k in
      let c₁ = record c { heap = insert p k' c.heap } in
      let (same, names) = save_and_emit faults k.nickname (some e) c₁ in
      let at : lookup p (process_panda_update env restart faults u c).1.heap ≡ some k' =
        ap (λ x. lookup p x.1.heap) step ∙ ap (lookup p) same ∙ lookup-insert_self p k' c.heap in
      let named : lookup k.nickname
            (process_panda_update env restart faults u c).1.contact_nicknames
          ≡ some p =
        ap (λ x. lookup k.nickname x.1.contact_nicknames) step
        ∙ ap (lookup k.nickname) names
        ∙ y.by_nickname in
      ((k', at, refl, no_spool), ground (arith, at, named, no_spool))

  -- An update that echoes the snapshot that the contact has tells the user so, and changes nothing
  -- else; any other snapshot replaces it, and beside that only the disk changes.
  pub process_panda_update-snapshot :
      (restart : Option Err) (faults : Faults) (u : PandaUpdate) (s : Bytes) (id p : ℕ)
      (k : Contact R) (c : Client R)
      → IsKnown id p k c
      → u.id ≡ id
      → u.error ≡ none
      → u.serialised ≡ some s
      → let r = process_panda_update env restart faults u c in
        ((bytes_of k.panda_key_exchange ≡ s)
          × (r ≡ (
            done tt,
            record c {
              event_ch =
                  c.event_ch ++ key_exchange_completed k.nickname (some echoed_exchange) ∷ [];
            },
          )))
        ⊎ ((bytes_of k.panda_key_exchange ≢ s)
            × (d : Disk) × (r.1 ≡ record c {
              heap = insert p (record k { panda_key_exchange = some s }) c.heap;
              disk = d;
            }))
  unfolding ◌>>=◌ process_panda_update panda_progressed load store emit
  process_panda_update-snapshot restart faults u s id p k c y to fine snap =
      elim (Bool-cases (bytes_of k.panda_key_exchange == s)) [
        | inl same ↦ inl (
          ground (arith, same, ==_iff (bytes_of k.panda_key_exchange) s),
          ground (arith, y.by_id, y.at, to, fine, snap, same),
        )
        | inr other ↦
            let c₁ = record c {
              heap = insert p (record k { panda_key_exchange = some s }) c.heap;
            } in
            let step : process_panda_update env restart faults u c ≡ save env faults c₁ =
              ground (arith, y.by_id, y.at, to, fine, snap, other) in
            let (_, d, e) = save-Saves env faults c₁ in
            inr (
              λ q. ground (arith, other, q, ==_iff (bytes_of k.panda_key_exchange) s),
              d,
              ap (λ x. x.1) step ∙ e,
            )
      ]
