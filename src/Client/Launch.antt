-- ===== src/Client/Launch.antt =====
-- client.go, `Start`: what is taken up again of a client that was loaded, its key exchanges and the
-- messages that wait.
pub mod Waiting
pub mod Forgotten
use catshadow.Prelude.{
  ℕ, Bool, true, false, Bytes, String, List, [], ◌∷◌, ◌++◌, Map, Option, none, some, Result, ok,
  err, ◌==◌, ◌&&◌, string_comparable, if◌then◌else◌,
}
use catshadow.Queue.{peek}
use catshadow.Contact.{BoundExchange, Contact, Err}
use catshadow.Conversation.{garbage_collect_conversations}
use catshadow.Client.{
  Client, Env, M, Op, retransmit, done, pure, panic, ◌>>=◌, ◌>>◌, gets, modify, load, store,
  bad_exchange, panda, reunion,
}
use catshadow.Client.Registry.Meeting.{Provider, Transport, get_reunion_transports}
use catshadow.Client.Exchanges.{erase?}

-- What the environment yields during `Start`: the clock, the consensus document, what
-- `NewExchangeFromSnapshot` returns for a snapshot and a transport, and `UnmarshalKeyExchange` for the
-- state of a contact's exchange; `none` stands for no error.
pub record Launch : Type 0 where
  pub now : String → Bytes → ℕ
  pub document : Option (List Provider)
  pub from_snapshot : Option Bytes → Transport → Option Err
  pub from_state : Option Bytes → Option Err

-- The exchanges that a `range` over the map visits.
abbrev pub entries : Option (Map ℕ BoundExchange) → Map ℕ BoundExchange
entries none = []
entries (some exs) = exs

-- The deferred sends, which run in the opposite order.
unfoldable pub requests : List ℕ → List Op
requests [] = []
requests (p ∷ ps) = requests ps ++ retransmit p ∷ []

module _ {R : Type 0} (launch : Launch) where
  -- The loop over the transports for one exchange: whether its transport still exists.
  unfoldable pub try_transports : ℕ → BoundExchange → List Transport → M R Bool
  try_transports eid ex [] = pure false
  try_transports eid ex (tr ∷ trs) =
      let later = try_transports eid ex trs in
      if (tr.recipient == ex.recipient) && (tr.provider == ex.provider)
      then elim (launch.from_snapshot ex.serialized tr) [
        | some _ ↦ later >>= λ _. pure true
        | none ↦ (do modify λ c. record c { running = reunion eid ∷ c.running }; pure true)
      ]
      else later

  -- The loop over a contact's exchanges.
  unfoldable pub resume_exchanges : ℕ → List Transport → Map ℕ BoundExchange → M R (Unit {0})
  resume_exchanges p trs [] = pure tt
  resume_exchanges p trs ((eid, ex) ∷ exs) =
      let later = resume_exchanges p trs exs in
      try_transports eid ex trs >>= λ (m : Bool).
      if m
      then later
      else (load p >>= λ contact.
          store p
            (record contact { reunion_key_exchange = erase? eid contact.reunion_key_exchange })
          >> later)

module _ {R : Type 0} (env : Env R) (launch : Launch) where
  -- The loop over the contacts, with the contacts to be prodded. A missing transport leaves this loop,
  -- not only the contact.
  unfoldable pub launch_contacts : Map ℕ ℕ → M R (List ℕ)
  launch_contacts [] = pure []
  launch_contacts ((_, p) ∷ ids) =
      let later = launch_contacts ids in
      load p >>= λ contact.
      if contact.is_pending
      then elim env.reunion_enabled [
        | some true ↦ elim (get_reunion_transports launch.document) [
          | err _ ↦ pure []
          | ok trs ↦ resume_exchanges launch p trs (entries contact.reunion_key_exchange) >> later
        ]
        | _ ↦
            if env.panda_configured
            then elim (launch.from_state contact.panda_key_exchange) [
              | some _ ↦ panic bad_exchange
              | none ↦ (do modify λ c. record c { running = panda contact.id ∷ c.running }; later)
            ]
            else later
      ]
      else elim (peek contact.outbound) [ err _ ↦ later | ok _ ↦ later >>= λ ps. pure (p ∷ ps) ]

  -- `Start` before the deferred sends, with the contacts that they are for.
  unfoldable pub resume : M R (List ℕ)
  resume = do
    modify
        λ c. record c { conversations = garbage_collect_conversations launch.now c.conversations }
    ids ← gets (λ c. c.contacts)
    launch_contacts ids

  -- `Start`, up to where the worker has been started and has room for what is sent to it.
  unfoldable pub start : M R (Unit {0})
  start = do waiting ← resume; modify λ c. record c { op_ch = c.op_ch ++ requests waiting }
