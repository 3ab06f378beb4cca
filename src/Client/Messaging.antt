-- ===== src/Client/Messaging.antt =====
-- client.go: sending a message, and what the worker does when the session reports on it.
-- `sent` is what `SendUnreliableMessage` returns, a message ID or an error.
pub mod Handing
pub mod Enqueue
pub mod Egress
pub mod Delivery
use catshadow.Prelude.{
  ℕ, ◌*◌, ◌%◌, ◌^◌, Bool, true, false, Bytes, String, [], ◌∷◌, ◌++◌, Option, none, some, Result, ok,
  err, ◌==◌, string_comparable, nat_comparable, lookup, insert, erase, if◌then◌else◌,
}
use catshadow.Payload.{frame}
use catshadow.Disk.{Faults}
use catshadow.Fifo.{QueuedSpoolCommand, QueueError}
use catshadow.Queue.{push, pop, peek}
use catshadow.Contact.{Contact, Err, SpoolWriteDescriptor, Timer, armed, stopped}
use catshadow.Conversation.{Message}
use catshadow.Client.{
  Client, Env, M, done, pure, panic, ◌>>=◌, ◌>>◌, gets, modify, deferred, load, store, emit,
  push_op, fatal, put_message, save, SendKey, by_value, by_pointer, send_key_comparable,
  SentMessageDescriptor, Pointer, Event, message_not_sent, message_sent, message_delivered, Op,
  retransmit, Panic, nil_pointer, contact_not_found,
}

-- `client.MessageSentEvent`; the estimate is a duration in nanoseconds, an int64 read as unsigned.
pub record SentEvent : Type 0 where
  pub message_id : Pointer
  pub error : Option Err
  pub reply_eta : ℕ

module _ {R : Type 0} where
  -- `c.sendMap.Store(*mesgID, …)` after a message is handed to the session.
  unfoldable pub transmit : String → QueuedSpoolCommand → Result Bytes Err → M R (Unit {0})
  transmit nickname cmd (err _) c = (done tt, c)
  transmit nickname cmd (ok message_id) c = (
    done tt,
    record c {
      transmitted =
          c.transmitted
          ++ (record {
            message_id = message_id;
            receiver = cmd.receiver;
            provider = cmd.provider;
            command = cmd.command;
          })
            ∷ [];
      send_map =
          insert (by_value message_id) (record { nickname = nickname; message_id = cmd.id })
            c.send_map;
    },
  )

  -- `sendMessage`
  unfoldable pub send_message : Result Bytes Err → ℕ → M R (Unit {0})
  send_message sent p = do
    contact ← load p
    elim (peek contact.outbound) [
      | err _ ↦ pure tt
      | ok none ↦ panic nil_pointer
      | ok (some cmd) ↦ transmit contact.nickname cmd sent
    ]

  module _ (env : Env R) where
    -- `Push`, and the save that follows if there was room.
    unfoldable pub push_and_save : Faults → ℕ → QueuedSpoolCommand → M R (Unit {0})
    push_and_save faults p item = do
      contact ← load p
      let (e, queue) = push contact.outbound item
      store p (record contact { outbound = queue })
      elim e [ some _ ↦ pure tt | none ↦ save env faults ]

    -- From `item := &queuedSpoolCommand{…}` to the end of `doSendMessage`.
    unfoldable pub enqueue : Result Bytes Err → Faults → ℕ → QueuedSpoolCommand → M R (Unit {0})
    enqueue sent faults p item = do
      contact ← load p
      elim (peek contact.outbound) [
        | err _ ↦ deferred (send_message sent p) (push_and_save faults p item)
        | ok _ ↦ push_and_save faults p item
      ]

    -- From the encryption of the payload on, for a contact that is no longer pending.
    unfoldable pub encrypt_and_enqueue :
        Result Bytes Err → Faults → Bytes → Bytes → ℕ → Contact R → M R (Unit {0})
    encrypt_and_enqueue sent faults id message p contact = do
      let (ciphertext, ratchet) = env.encrypt contact.ratchet (frame env.payload_length message)
      store p (record contact { ratchet = ratchet })
      elim contact.spool_write_descriptor [
        | none ↦ panic nil_pointer
        | some d ↦ elim (env.append_to_spool d.id ciphertext) [
          | err _ ↦ pure tt
          | ok command ↦
              enqueue sent faults p (record {
                provider = d.provider;
                receiver = d.receiver;
                command = command;
                id = id;
              })
        ]
      ]

    unfoldable pub do_send_message :
        ℕ → Result Bytes Err → Faults → Bytes → String → Bytes → M R (Unit {0})
    do_send_message now sent faults id nickname message = do
      put_message nickname id (record { plaintext = message; timestamp = now; outbound = true })
      found ← gets (λ c. lookup nickname c.contact_nicknames)
      elim found [
        | none ↦ pure tt
        | some p ↦ do
          contact ← load p
          if contact.is_pending
              then pure tt
              else encrypt_and_enqueue sent faults id message p contact
      ]

    -- `contact.rtx.Stop()` if there is a timer.
    abbrev pub stop_timer : Contact R → Contact R
    stop_timer contact = record contact {
      rtx = elim contact.rtx [ none ↦ none | some _ ↦ some stopped ];
    }

    -- `handleSent` for a message that went to a contact.
    unfoldable pub handle_sent_to : SentEvent → SentMessageDescriptor → ℕ → M R (Unit {0})
    handle_sent_to event tp p = do
      contact ← load p
      elim event.error [
        | some _ ↦ do
          store p (stop_timer contact)
          emit (message_not_sent tp.nickname tp.message_id)
          push_op (retransmit p)
        | none ↦ do
          store p (stop_timer contact)
          store p
              (record (stop_timer contact) { rtx = some (armed (event.reply_eta * 2 % 2 ^ 64)) })
          emit (message_sent tp.nickname tp.message_id)
      ]

    unfoldable pub handle_sent : SentEvent → M R (Unit {0})
    handle_sent event = do
      orig ← gets (λ c. lookup (by_value event.message_id.value) c.send_map)
      elim orig [
        | none ↦ pure tt
        | some tp ↦ if tp.nickname == env.user then pure tt else do
          found ← gets (λ c. lookup tp.nickname c.contact_nicknames)
          elim found [ none ↦ panic contact_not_found | some p ↦ handle_sent_to event tp p ]
      ]

  -- `garbageCollectSendMap`; the client library's event says what kind of key it carries.
  unfoldable pub garbage_collect_send_map : SendKey → M R (Unit {0})
  garbage_collect_send_map key = modify λ c. record c { send_map = erase key c.send_map }
