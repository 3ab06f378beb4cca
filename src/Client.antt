-- ===== src/Client.antt =====
-- client.go: the client's state, and what its methods are made of. A method is a function from a
-- state to an outcome and the state it leaves. What other repositories compute is the record `Env`;
-- what the network, the clock, the random source and the disk yield during one call is an argument
-- of the method that asks for it. Logging changes no state and is left out.
pub mod Data
pub mod Encoding
pub mod Steps
pub mod Registry
pub mod Messaging
pub mod Inbox
pub mod Exchanges
pub mod InFlight
pub mod Worker
pub mod Startup
pub mod Launch
pub mod EndToEnd
pub mod Sound
pub mod Interface
pub mod System
pub mod RemoteSpool
mod Examples
use catshadow.Prelude.{
  ℕ, zero, suc, ◌+◌, Bool, true, false, Bytes, String, List, [], ◌∷◌, ◌++◌, Map, Option, none, some,
  Result, ok, err, Comparable, bytes_comparable, nat_comparable, string_comparable, bytes_beq,
  bytes_beq_iff, nat_beq, nat_beq_iff, lookup, insert, erase, length, leb, if◌then◌else◌, ◌≡◌, ◌↔◌,
  arith,
}
use catshadow.Payload.{Slice}
use catshadow.Disk.{Disk, Faults, Crypto, StateWriter, write_state}
use catshadow.Contact.{
  Contact, ContactExchange, Err, SpoolReadDescriptor, SpoolWriteDescriptor, BoundExchange,
}
use catshadow.Conversation.{Conversations, Message, put}
use catshadow.Client.Encoding.{marshal_state}
pub use catshadow.Client.Data.{
  SerializedState, StateCodec, SendKey, by_value, by_pointer, send_key_beq, send_key_beq_iff,
  send_key_comparable, Pointer, SentMessageDescriptor, Event, Op, Panic, Outcome, Fatal, State,
  SpoolResponse, Exchange, Transmission, Env, Client, key_exchange_completed, message_not_sent,
  message_sent, message_delivered, message_received, connection_status, add_contact, remove_contact,
  send_message, get_contacts, unknown_operation, retransmit, nil_pointer, nil_map, out_of_range,
  closed_twice, random_failed, save_failed, no_panda_config, bad_exchange, contact_not_found,
  contact_missing, not_requested_yet, done, panicked, blocked, bad_spool_response, no_read_command,
  no_randomness, nil_document, bad_operation, bad_event, panda, reunion,
}

-- `make(chan interface{}, 8)`
abbrev pub op_ch_capacity : ℕ
op_ch_capacity = 8

abbrev pub M : Type 0 → Type 0 → Type 0
M R A = Client R → Outcome A × Client R

unfoldable pub pure : {R A : Type 0} → A → M R A
pure a c = (done a, c)

unfoldable pub panic : {R A : Type 0} → Panic → M R A
panic p c = (panicked p, c)

unfoldable pub gets : {R A : Type 0} → (Client R → A) → M R A
gets f c = (done (f c), c)

unfoldable pub modify : {R : Type 0} → (Client R → Client R) → M R (Unit {0})
modify f c = (done tt, f c)

infixl 5 ◌>>=◌ ◌>>◌
unfoldable pub ◌>>=◌ : {R A B : Type 0} → M R A → (A → M R B) → M R B
unfolding pure panic gets modify
◌>>=◌ m f c =
    let (r, c') = m c in
    elim r [ done a ↦ f a c' | panicked p ↦ (panicked p, c') | blocked ↦ (blocked, c') ]

abbrev pub ◌>>◌ : {R B : Type 0} → M R (Unit {0}) → M R B → M R B
m >> k = m >>= λ _. k

-- `defer k()` in front of `m`: `k` runs when `m` returns, and when it panics, which goes on after
-- `k`. A goroutine that waits for ever runs nothing more.
unfoldable pub deferred : {R A : Type 0} → M R (Unit {0}) → M R A → M R A
deferred k m c =
    let (r, c') = m c in
    elim r [
      | done a ↦
          let (s, c'') = k c' in
          elim s [
            | done _ ↦ (done a, c'')
            | panicked p ↦ (panicked p, c'')
            | blocked ↦ (blocked, c'')
          ]
      | panicked p ↦
          let (s, c'') = k c' in
          elim s [
            | done _ ↦ (panicked p, c'')
            | panicked q ↦ (panicked q, c'')
            | blocked ↦ (blocked, c'')
          ]
      | blocked ↦ (blocked, c')
    ]

module _ {R : Type 0} where
  -- The contact behind a pointer, and a write through it.
  unfoldable pub load : ℕ → M R (Contact R)
  load p c = elim (lookup p c.heap) [ none ↦ (panicked nil_pointer, c) | some k ↦ (done k, c) ]

  unfoldable pub store : ℕ → Contact R → M R (Unit {0})
  store p k c = (done tt, record c { heap = insert p k c.heap })

  -- `c.eventCh.In() <- event`, which never waits.
  unfoldable pub emit : Event → M R (Unit {0})
  emit e c = (done tt, record c { event_ch = c.event_ch ++ e ∷ [] })

  -- `c.opCh <- op` by the worker, which is the channel's only reader.
  unfoldable pub push_op : Op → M R (Unit {0})
  push_op op c =
      if leb op_ch_capacity (length c.op_ch)
      then (blocked, c)
      else (done tt, record c { op_ch = c.op_ch ++ op ∷ [] })

  -- `c.fatalErrCh <- err`: the watcher receives one error and no more.
  unfoldable pub fatal : Fatal → M R (Unit {0})
  fatal e c = elim c.fatal_err [
    | none ↦ (done tt, record c { fatal_err = some e })
    | some _ ↦ (blocked, c)
  ]

  -- The contacts that the values of `c.contacts` point to, in the order of the map.
  unfoldable pub contacts_of : Map ℕ (Contact R) → Map ℕ ℕ → List (Contact R)
  contacts_of heap [] = []
  contacts_of heap ((id, p) ∷ ids) =
      let rest = contacts_of heap ids in elim (lookup p heap) [ none ↦ rest | some k ↦ k ∷ rest ]

  unfoldable pub put_message : String → Bytes → Message → M R (Unit {0})
  put_message nickname id m c =
      (done tt, record c { conversations = put nickname id m c.conversations })

  module _ (env : Env R) where
    -- `marshal`, less the encoding.
    unfoldable pub snapshot : Client R → State R
    snapshot c = record {
      spool_read_descriptor = c.spool_read_descriptor;
      contacts = contacts_of c.heap c.contacts;
      user = env.user;
      provider = env.provider;
      link_key = env.link_key;
      conversations = c.conversations;
    }

    unfoldable pub save : Faults → M R (Unit {0})
    save faults c = elim (marshal_state env.state_codec (snapshot c)) [
      | err _ ↦ (panicked save_failed, c)
      | ok serialized ↦
          let (e, d) = write_state env.crypto faults env.state_worker serialized c.disk in
          elim e [
            | none ↦ (done tt, record c { disk = d })
            | some _ ↦ (panicked save_failed, record c { disk = d })
          ]
    ]
