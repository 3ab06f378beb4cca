-- ===== src/Client/Exchanges.antt =====
-- client.go: what the worker does with an update from a key exchange, PANDA's or Reunion's.
pub mod Panda
pub mod Reunion
use catshadow.Prelude.{
  ℕ, Bool, true, false, Bytes, String, [], ◌∷◌, Map, Option, none, some, Result, ok, err, ◌==◌,
  bytes_comparable, nat_comparable, lookup, insert, erase, if◌then◌else◌,
}
use catshadow.Disk.{Faults}
use catshadow.Contact.{
  Contact, ContactExchange, Err, BoundExchange, reply_timeout, echoed_exchange, parse_failure,
  ratchet_failure, reunion_parse_failure, reunion_ratchet_failure,
}
use catshadow.Client.{
  Client, Env, M, done, pure, panic, ◌>>=◌, ◌>>◌, gets, modify, load, store, emit, save,
  key_exchange_completed, nil_map, no_panda_config, bad_exchange, panda,
}

-- `panda.PandaUpdate`
pub record PandaUpdate : Type 0 where
  pub id : ℕ
  pub error : Option Err
  pub serialised : Option Bytes
  pub result : Option Bytes

-- `rClient.ReunionUpdate`
pub record ReunionUpdate : Type 0 where
  pub contact_id : ℕ
  pub exchange_id : ℕ
  pub error : Option Err
  pub serialized : Option Bytes
  pub result : Option Bytes

-- The bytes of a slice; a nil slice has none.
abbrev pub bytes_of : Option Bytes → Bytes
bytes_of none = []
bytes_of (some b) = b

-- `delete` from a map that may be nil, which does nothing then.
abbrev pub erase? {ℓ} : {V : Type ℓ} → ℕ → Option (Map ℕ V) → Option (Map ℕ V)
erase? k none = none
erase? k (some m) = some (erase k m)

-- `ex.serialized = update.Serialized`: `ex` is a copy of the map's entry, which is not put back.
unfoldable pub assign_to_copy : ℕ → Bytes → Option (Map ℕ BoundExchange) → Option BoundExchange
assign_to_copy exchange_id s none = none
assign_to_copy exchange_id s (some exs) = elim (lookup exchange_id exs) [
  | none ↦ none
  | some ex ↦ some (record ex { serialized = some s })
]

module _ {R : Type 0} (env : Env R) where
  -- The restart of the handshake with the contact's state, which panics without a PANDA
  -- configuration, and where `UnmarshalKeyExchange` returns an error (`restart`).
  unfoldable pub restart_panda : Option Err → ℕ → M R (Unit {0})
  restart_panda restart id =
      if env.panda_configured
      then elim restart [
        | some _ ↦ panic bad_exchange
        | none ↦ modify λ c. record c { running = panda id ∷ c.running }
      ]
      else panic no_panda_config

  -- `case update.Err != nil`
  unfoldable pub panda_failed : Option Err → ℕ → Err → M R (Unit {0})
  panda_failed restart p e = do
    contact ← load p
    elim e [ reply_timeout ↦ restart_panda restart contact.id | _ ↦ pure tt ]
    store p (record contact { panda_result = some e; panda_shutdown_chan = none })
    emit (key_exchange_completed contact.nickname (some e))

  -- A result that cannot be used: the contact is no longer pending, and has the error.
  unfoldable pub panda_unusable : Faults → ℕ → Contact R → Err → M R (Unit {0})
  panda_unusable faults p contact e = do
    store p (record contact { panda_result = some e; is_pending = false })
    save env faults
    emit (key_exchange_completed contact.nickname (some e))

  -- `case update.Result != nil`, with the save behind the switch where the code gets there.
  unfoldable pub panda_completed : Faults → ℕ → Bytes → M R (Unit {0})
  panda_completed faults p result = do
    before ← load p
    let contact = record before { panda_key_exchange = none }
    elim (env.unmarshal_contact_exchange result) [
      | err e ↦ panda_unusable faults p contact (parse_failure e)
      | ok exchange ↦
          let (e, r) = env.process_key_exchange contact.ratchet exchange.signed_key_exchange in
          elim e [
            | some e' ↦
                panda_unusable faults p (record contact { ratchet = r }) (ratchet_failure e')
            | none ↦ do
              store p (record contact {
                ratchet = r;
                spool_write_descriptor = exchange.spool_write_descriptor;
                is_pending = false;
              })
              emit (key_exchange_completed contact.nickname none)
              save env faults
          ]
    ]

  -- `case update.Serialised != nil`
  unfoldable pub panda_progressed : Faults → ℕ → Bytes → M R (Unit {0})
  panda_progressed faults p serialised = do
    contact ← load p
    if bytes_of contact.panda_key_exchange == serialised
        then emit (key_exchange_completed contact.nickname (some echoed_exchange))
        else (store p (record contact { panda_key_exchange = some serialised }) >> save env faults)

  unfoldable pub process_panda_update : Option Err → Faults → PandaUpdate → M R (Unit {0})
  process_panda_update restart faults update = do
    found ← gets (λ c. lookup update.id c.contacts)
    elim found [
      | none ↦ pure tt
      | some p ↦ elim update.error [
        | some e ↦ panda_failed restart p e >> save env faults
        | none ↦ elim update.serialised [
          | some s ↦ panda_progressed faults p s
          | none ↦ elim update.result [
            | some r ↦ panda_completed faults p r
            | none ↦ save env faults
          ]
        ]
      ]
    ]

  -- An update that comes after the contact was paired.
  unfoldable pub reunion_late : ℕ → ℕ → Contact R → M R (Unit {0})
  reunion_late p exchange_id contact = store p (record contact {
    reunion_key_exchange = erase? exchange_id contact.reunion_key_exchange;
    reunion_result = erase? exchange_id contact.reunion_result;
  })

  -- `contact.reunionResult[update.ExchangeID] = err.Error()`
  unfoldable pub put_reunion_result : ℕ → ℕ → Err → Contact R → M R (Contact R)
  put_reunion_result p exchange_id e contact = elim contact.reunion_result [
    | none ↦ panic nil_map
    | some m ↦ do
      let contact' = record contact { reunion_result = some (insert exchange_id e m) }
      store p contact'
      pure contact'
  ]

  -- `case update.Error != nil`
  unfoldable pub reunion_failed : ℕ → ℕ → Err → Contact R → M R (Unit {0})
  reunion_failed p exchange_id e contact = do
    contact' ← put_reunion_result p exchange_id e contact
    store p (record contact' {
      reunion_key_exchange = erase? exchange_id contact'.reunion_key_exchange;
    })
    emit (key_exchange_completed contact.nickname (some e))

  unfoldable pub reunion_unusable : Faults → ℕ → ℕ → Contact R → Err → M R (Unit {0})
  reunion_unusable faults p exchange_id contact e = do
    contact' ← put_reunion_result p exchange_id e contact
    save env faults
    emit (key_exchange_completed contact.nickname (some e))

  -- `case update.Result != nil`, with the save behind the switch where the code gets there.
  unfoldable pub reunion_completed : Faults → ℕ → ℕ → Bytes → Contact R → M R (Unit {0})
  reunion_completed faults p exchange_id result before = do
    let contact = record before {
      reunion_key_exchange = erase? exchange_id before.reunion_key_exchange;
    }
    store p contact
    elim (env.unmarshal_contact_exchange result) [
      | err e ↦ reunion_unusable faults p exchange_id contact (reunion_parse_failure exchange_id e)
      | ok exchange ↦
          let (e, r) = env.process_key_exchange contact.ratchet exchange.signed_key_exchange in
          let contact' = record contact {
            ratchet = r;
            spool_write_descriptor = exchange.spool_write_descriptor;
          } in
          elim e [
            | some e' ↦ do
              store p contact'
              reunion_unusable faults p exchange_id contact'
                  (reunion_ratchet_failure exchange_id e')
            | none ↦ do
              store p (record contact' { key_exchange = none; is_pending = false })
              emit (key_exchange_completed contact.nickname none)
              save env faults
          ]
    ]

  unfoldable pub process_reunion_update : Faults → ReunionUpdate → M R (Unit {0})
  process_reunion_update faults update = do
    found ← gets (λ c. lookup update.contact_id c.contacts)
    elim found [
      | none ↦ pure tt
      | some p ↦ do
        contact ← load p
        if contact.is_pending
            then elim update.error [
              | some e ↦ reunion_failed p update.exchange_id e contact
              | none ↦ elim update.serialized [
                | some s ↦
                    let ex = assign_to_copy update.exchange_id s contact.reunion_key_exchange in
                    save env faults
                | none ↦ elim update.result [
                  | some r ↦ reunion_completed faults p update.exchange_id r contact
                  | none ↦ save env faults
                ]
              ]
            ]
            else reunion_late p update.exchange_id contact
    ]
