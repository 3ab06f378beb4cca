-- ===== src/Client/Inbox.antt =====
-- client.go: reading the remote spool, and what the worker does with a reply, which is either a
-- message of the spool or the acknowledgement of one that was sent.
pub mod Acknowledge
pub mod Acknowledged
pub mod Draining
pub mod Spool
pub mod Trial
pub mod Decryption
use catshadow.Prelude.{
  ℕ, ◌%◌, ◌^◌, Bool, true, false, Bytes, String, List, [], ◌∷◌, ◌++◌, Map, Option, none, some,
  Result, ok, err, ◌==◌, string_comparable, nat_comparable, lookup, insert, erase, ltb, not,
  if◌then◌else◌, replicate,
}
use catshadow.Payload.{Slice, unframe, put_uint32}
use catshadow.Queue.{pop}
use catshadow.Contact.{Contact, Err, SpoolReadDescriptor}
use catshadow.Conversation.{Message}
use catshadow.Client.{
  Client, Env, M, done, pure, panic, ◌>>=◌, ◌>>◌, gets, modify, deferred, load, store, emit, fatal,
  put_message, SendKey, by_value, by_pointer, send_key_comparable, SentMessageDescriptor, Pointer,
  Event, message_delivered, message_received, Transmission, SpoolResponse, nil_pointer,
  out_of_range, contact_missing, not_requested_yet, bad_spool_response, no_read_command,
  no_randomness,
}
use catshadow.Client.Messaging.{send_message, stop_timer}

-- `client.MessageReplyEvent`
pub record ReplyEvent : Type 0 where
  pub message_id : Pointer
  pub payload : Bytes

module _ {R : Type 0} (env : Env R) where
  -- `sendReadInbox`
  unfoldable pub send_read_inbox : Result Bytes Err → M R (Unit {0})
  send_read_inbox sent = do
    reader ← gets (λ c. c.spool_read_descriptor)
    elim reader [
      | none ↦ pure tt
      | some d ↦ elim (env.read_from_spool d.id d.read_offset d.private_key) [
        | err _ ↦ fatal no_read_command
        | ok command ↦ elim sent [
          | err _ ↦ pure tt
          | ok message_id ↦ modify λ c. record c {
            transmitted =
                c.transmitted
                ++ (record {
                  message_id = message_id;
                  receiver = d.receiver;
                  provider = d.provider;
                  command = command;
                })
                  ∷ [];
            send_map =
                insert (by_value message_id)
                  (record { nickname = env.user; message_id = put_uint32 d.read_offset })
                  c.send_map;
          }
        ]
      ]
    ]

  -- The loop of `decryptMessage`: the first contact that is not pending and whose ratchet decrypts
  -- the ciphertext, with the message.
  unfoldable pub try_contacts : Bytes → Map ℕ ℕ → M R (Option (String × Bytes))
  try_contacts ciphertext [] c = (done none, c)
  try_contacts ciphertext ((_, p) ∷ rest) c =
      let later = λ (c' : Client R). try_contacts ciphertext rest c' in
      elim (lookup p c.heap) [
        | none ↦ panic nil_pointer c
        | some contact ↦
            if contact.is_pending
            then later c
            else let (plaintext, ratchet) = env.decrypt contact.ratchet ciphertext in
              let c' = record c { heap = insert p (record contact { ratchet = ratchet }) c.heap } in
              elim plaintext [
                | err _ ↦ later c'
                | ok slice ↦ elim (unframe slice) [
                  | none ↦ panic out_of_range c'
                  | some message ↦ (done (some (contact.nickname, message)), c')
                ]
              ]
      ]

  -- `MessageID{}`
  abbrev pub zero_message_id : Bytes
  zero_message_id = replicate 4 0

  -- The rest of `decryptMessage` once a message is decrypted; `random` is what the random source
  -- reads into the ID. If reading fails, the ID stays zero and the message is kept all the same.
  unfoldable pub record_received : ℕ → Option Bytes → String → Bytes → M R (Unit {0})
  record_received now random nickname message = do
    elim random [ none ↦ fatal no_randomness | some _ ↦ pure tt ]
    put_message nickname (elim random [ none ↦ zero_message_id | some id ↦ id ])
        (record { plaintext = message; timestamp = now; outbound = false })
    emit (message_received nickname message now)

  unfoldable pub decrypt_message : ℕ → Option Bytes → Bytes → M R Bool
  decrypt_message now random ciphertext = do
    ids ← gets (λ c. c.contacts)
    found ← try_contacts ciphertext ids
    elim found [
      | none ↦ pure false
      | some (nickname, message) ↦ do record_received now random nickname message; pure true
    ]

  -- `handleReply` for the acknowledgement of a message that went to a contact.
  unfoldable pub acknowledge : Result Bytes Err → SentMessageDescriptor → ℕ → M R (Unit {0})
  acknowledge sent tp p = do
    contact ← load p
    let (e, queue) = pop contact.outbound
    store p (record (stop_timer env contact) { outbound = queue })
    elim e [
      | err _ ↦ emit (message_delivered tp.nickname tp.message_id)
      | ok _ ↦ deferred (send_message sent p) (emit (message_delivered tp.nickname tp.message_id))
    ]

  -- The reply to the read at the client's offset: the offset moves on, also where no contact can
  -- decrypt the message.
  unfoldable pub advance : ℕ → Option Bytes → Bytes → SpoolReadDescriptor → M R (Unit {0})
  advance now random ciphertext d = do
    modify λ c. record c { spool_read_descriptor = some (env.increment_offset d) }
    decrypted ← decrypt_message now random ciphertext
    pure tt

  -- `handleReply` for a message of the client's own spool.
  unfoldable pub receive : ℕ → Option Bytes → SpoolResponse → M R (Unit {0})
  receive now random response = do
    reader ← gets (λ c. c.spool_read_descriptor)
    elim reader [
      | none ↦ panic nil_pointer
      | some d ↦
          if ltb response.message_id d.read_offset
          then pure tt
          else if response.message_id == d.read_offset
          then advance now random response.message d
          else panic not_requested_yet
    ]

  -- `handleReply` from the switch on.
  unfoldable pub dispatch_reply :
      Result Bytes Err → ℕ → Option Bytes → Bytes → SentMessageDescriptor → M R (Unit {0})
  dispatch_reply sent now random payload tp = elim (env.spool_response_from_bytes payload) [
    | err e ↦ fatal (bad_spool_response e)
    | ok response ↦
        if not response.is_ok
        then pure tt
        else if tp.nickname == env.user
        then receive now random response
        else do
          found ← gets (λ c. lookup tp.nickname c.contact_nicknames)
          elim found [ none ↦ panic contact_missing | some p ↦ acknowledge sent tp p ]
  ]

  -- `handleReply`. The deferred `Delete` is given the pointer, not the array that it points to.
  unfoldable pub handle_reply : Result Bytes Err → ℕ → Option Bytes → ReplyEvent → M R (Unit {0})
  handle_reply sent now random event = do
    orig ← gets (λ c. lookup (by_value event.message_id.value) c.send_map)
    elim orig [
      | none ↦ pure tt
      | some tp ↦
          deferred
            (modify
              λ c. record c { send_map = erase (by_pointer event.message_id.address) c.send_map })
            (dispatch_reply sent now random event.payload tp)
    ]
