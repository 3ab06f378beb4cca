-- ===== src/Client/Exchanges/Reunion.antt =====
-- `processReunionUpdate`: how a Reunion exchange ends, and what becomes of its snapshots.
use catshadow.Prelude.{
  ℕ, ◌≡◌, ap, ◌∙◌, true, false, Bytes, [], ◌∷◌, ◌++◌, none, some, ok, arith, Map, lookup, insert,
  erase, lookup-insert_self, nat_comparable,
}
use catshadow.Disk.{Disk, Faults}
use catshadow.Contact.{BoundExchange, Contact, ContactExchange, Err}
use catshadow.Client.{◌>>=◌, Client, Env, done, load, store, emit, save, key_exchange_completed}
use catshadow.Client.Steps.{save-Saves}
use catshadow.Client.Exchanges.{
  ReunionUpdate, process_reunion_update, reunion_completed, reunion_failed, reunion_late,
  put_reunion_result, erase?,
}

module _ {R : Type 0} (env : Env R) where
  -- The update is for this contact of the client.
  pub record IsFor (u : ReunionUpdate) (p : ℕ) (k : Contact R) (c : Client R) : Type 0 where
    pub by_id : lookup u.contact_id c.contacts ≡ some p
    pub at : lookup p c.heap ≡ some k

  abbrev pub reunited : ℕ → ContactExchange → R → Contact R → Contact R
  reunited x exchange r k = record k {
    reunion_key_exchange = erase? x k.reunion_key_exchange;
    ratchet = r;
    spool_write_descriptor = exchange.spool_write_descriptor;
    key_exchange = none;
    is_pending = false;
  }

  -- The first exchange with a pending contact that yields a usable result pairs it: it has the
  -- peer's spool and the new ratchet, that exchange is forgotten, the user is told of a completion
  -- without an error, and beside that only the disk changes. An update of any other exchange that
  -- comes after that changes nothing but that exchange's entries in the contact.
  pub process_reunion_update-pairs_once :
      (faults faults' : Faults) (u v : ReunionUpdate) (b : Bytes) (p : ℕ) (k : Contact R)
      (exchange : ContactExchange) (r : R) (c : Client R)
      → IsFor u p k c
      → k.is_pending ≡ true
      → u.error ≡ none
      → u.serialized ≡ none
      → u.result ≡ some b
      → env.unmarshal_contact_exchange b ≡ ok exchange
      → env.process_key_exchange k.ratchet exchange.signed_key_exchange ≡ (none, r)
      → v.contact_id ≡ u.contact_id
      → let k' = reunited u.exchange_id exchange r k in
        let c' = (process_reunion_update env faults u c).1 in
        ((d : Disk) × (c' ≡ record c {
          heap = insert p k' (
              insert p
                (record k { reunion_key_exchange = erase? u.exchange_id k.reunion_key_exchange })
                c.heap);
          event_ch = c.event_ch ++ key_exchange_completed k.nickname none ∷ [];
          disk = d;
        }))
        × (process_reunion_update env faults' v c' ≡ (
          done tt,
          record c' {
            heap =
                insert p
                  (record k' {
                    reunion_key_exchange = erase? v.exchange_id k'.reunion_key_exchange;
                    reunion_result = erase? v.exchange_id k'.reunion_result;
                  })
                  c'.heap;
          },
        ))
  unfolding ◌>>=◌ process_reunion_update reunion_completed reunion_late load store emit
  process_reunion_update-pairs_once faults faults' u v b p k exchange r c y pending fine no_snapshot
        yields parsed processed same =
      let k' = reunited u.exchange_id exchange r k in
      let c₁ = record c {
        heap = insert p k' (
            insert p
              (record k { reunion_key_exchange = erase? u.exchange_id k.reunion_key_exchange })
              c.heap);
        event_ch = c.event_ch ++ key_exchange_completed k.nickname none ∷ [];
      } in
      let step : process_reunion_update env faults u c ≡ save env faults c₁ =
        ground (arith, y.by_id, y.at, pending, fine, no_snapshot, yields, parsed, processed) in
      let (_, d, e) = save-Saves env faults c₁ in
      let left : (process_reunion_update env faults u c).1 ≡ record c₁ { disk = d } =
        ap (λ x. x.1) step ∙ e in
      let at' : lookup p (process_reunion_update env faults u c).1.heap ≡ some k' =
        ap (λ x. lookup p x.heap) left ∙ lookup-insert_self p k' _ in
      let by_id' : lookup v.contact_id (process_reunion_update env faults u c).1.contacts ≡ some p =
        ap (λ x. lookup x (process_reunion_update env faults u c).1.contacts) same
        ∙ ap (λ x. lookup u.contact_id x.contacts) left
        ∙ y.by_id in
      ((d, left), ground (arith, at', by_id'))

  -- A failed exchange of a pending contact with the maps that `createContact` makes: the contact goes
  -- on pending with the other exchanges, the failed one is out of the map and its error in the
  -- results, the user is told, and nothing is saved.
  pub process_reunion_update-failed :
      (faults : Faults) (u : ReunionUpdate) (e : Err) (exs : Map ℕ BoundExchange) (rs : Map ℕ Err)
      (p : ℕ) (k : Contact R) (c : Client R)
      → IsFor u p k c
      → k.is_pending ≡ true
      → k.reunion_key_exchange ≡ some exs
      → k.reunion_result ≡ some rs
      → u.error ≡ some e
      → let r = process_reunion_update env faults u c in
        (r.0 ≡ done tt)
        × (lookup p r.1.heap
            ≡ some (record k {
              reunion_key_exchange = some (erase u.exchange_id exs);
              reunion_result = some (insert u.exchange_id e rs);
            }))
        × (r.1.event_ch ≡ c.event_ch ++ key_exchange_completed k.nickname (some e) ∷ [])
        × (r.1.disk ≡ c.disk)
  unfolding ◌>>=◌ process_reunion_update reunion_failed put_reunion_result load store emit
  process_reunion_update-failed faults u e exs rs p k c y pending has had failed =
      let k₁ = record k { reunion_result = some (insert u.exchange_id e rs) } in
      let k₂ = record k₁ { reunion_key_exchange = some (erase u.exchange_id exs) } in
      let step : process_reunion_update env faults u c ≡ (
        done tt,
        record c {
          heap = insert p k₂ (insert p k₁ c.heap);
          event_ch = c.event_ch ++ key_exchange_completed k.nickname (some e) ∷ [];
        },
      ) =
        ground (arith, y.by_id, y.at, pending, has, had, failed) in
      (
        ap (λ x. x.0) step,
        ap (λ x. lookup p x.1.heap) step ∙ lookup-insert_self p k₂ _,
        ap (λ x. x.1.event_ch) step,
        ap (λ x. x.1.disk) step,
      )
