-- ===== src/Client/Messaging/Egress.antt =====
-- `doSendMessage`: what becomes of a message, and when it is handed to the session.
use catshadow.Prelude.{
  ℕ, ◌<◌, ◌≡◌, ap, ◌∙◌, ◌⊎◌, inl, inr, true, false, Bytes, String, [], ◌∷◌, ◌++◌, none, some,
  Result, ok, arith, length, lookup, insert, lookup-insert_self, nat_comparable, string_comparable,
  ==_refl, bytes_comparable,
}
use catshadow.Payload.{frame}
use catshadow.Disk.{Faults}
use catshadow.Fifo.{QueuedSpoolCommand, Fifo}
use catshadow.Queue.{max_queue_size}
use catshadow.Queue.Refine.{Holds}
use catshadow.Contact.{Contact, Err, SpoolWriteDescriptor}
use catshadow.Conversation.{Message, message_at, put}
use catshadow.Conversation.Expiry.{message_at-put}
use catshadow.Client.{◌>>=◌, Client, Env, done, load, store, put_message, send_key_comparable}
use catshadow.Client.Messaging.Enqueue.{Enqueued, enqueue-Enqueued}
use catshadow.Client.Messaging.Handing.{handed_if_first}
use catshadow.Client.Messaging.{enqueue, encrypt_and_enqueue, do_send_message}

module _ {R : Type 0} (env : Env R) where
  -- A contact whose key exchange is completed, with what encrypting a message for it yields.
  pub record IsReady (nickname : String) (message : Bytes) (p : ℕ) (k : Contact R)
      (d : SpoolWriteDescriptor) (r : R) (command : Bytes) (c : Client R) : Type 0 where
    pub named : lookup nickname c.contact_nicknames ≡ some p
    pub at : lookup p c.heap ≡ some k
    pub paired : k.is_pending ≡ false
    pub spool : k.spool_write_descriptor ≡ some d
    pub advanced : (env.encrypt k.ratchet (frame env.payload_length message)).1 ≡ r
    pub appended :
        env.append_to_spool d.id (env.encrypt k.ratchet (frame env.payload_length message)).0
        ≡ ok command

  abbrev pub outgoing : ℕ → Bytes → Message
  outgoing now message = record { plaintext = message; timestamp = now; outbound = true }

  abbrev pub command_for : Bytes → SpoolWriteDescriptor → Bytes → QueuedSpoolCommand
  command_for id d command = record {
    provider = d.provider;
    receiver = d.receiver;
    command = command;
    id = id;
  }

  do_send_message_lem :
      (now : ℕ) (sent : Result Bytes Err) (faults : Faults) (id : Bytes) (nickname : String)
      (message : Bytes) (p : ℕ) (k : Contact R) (d : SpoolWriteDescriptor) (r : R) (command : Bytes)
      (c : Client R)
      → IsReady nickname message p k d r command c
      → do_send_message env now sent faults id nickname message c
        ≡ enqueue env sent faults p (command_for id d command) (record c {
          heap = insert p (record k { ratchet = r }) c.heap;
          conversations = put nickname id (outgoing now message) c.conversations;
        })
  unfolding ◌>>=◌ do_send_message encrypt_and_enqueue load store put_message
  do_send_message_lem now sent faults id nickname message p k d r command c y =
      ground (arith, y.named, y.at, y.paired, y.spool, y.advanced, y.appended)

  -- A message for a contact whose key exchange is completed and whose queue has room goes to the end
  -- of that queue as a command for the contact's spool, is kept in the conversation under its ID,
  -- and moves the contact's ratchet on; it is handed to the session at once if and only if nothing
  -- waited before it.
  pub do_send_message-ready :
      (now : ℕ) (sent : Result Bytes Err) (faults : Faults) (id : Bytes) (nickname : String)
      (message : Bytes) (p : ℕ) (k : Contact R) (d : SpoolWriteDescriptor) (r : R) (command : Bytes)
      (l : Fifo) (c : Client R)
      → IsReady nickname message p k d r command c
      → Holds k.outbound l
      → length l < max_queue_size
      → let c' = (do_send_message env now sent faults id nickname message c).1 in
        (k' : Contact R) × (lookup p c'.heap ≡ some k')
        × Holds k'.outbound (l ++ command_for id d command ∷ [])
        × (k'.ratchet ≡ r)
        × (message_at nickname id c'.conversations ≡ some (outgoing now message))
        × (c'.transmitted ≡ c.transmitted ++ handed_if_first sent l (command_for id d command))
  do_send_message-ready now sent faults id nickname message p k d r command l c y q room =
      rw (do_send_message_lem now sent faults id nickname message p k d r command c y) (
        e.contact,
        e.at,
        e.queue,
        e.same_ratchet,
        ap (message_at nickname id) e.same_conversations ∙ kept,
        e.handed_over,
      )
    where
      c₁ : Client R
      c₁ = record c {
        heap = insert p (record k { ratchet = r }) c.heap;
        conversations = put nickname id (outgoing now message) c.conversations;
      }

      e :
          Enqueued env l p
            (record k { ratchet = r })
            (command_for id d command)
            sent
            c₁
            (enqueue env sent faults p (command_for id d command) c₁).1
      e =
          enqueue-Enqueued env sent faults p (command_for id d command) l (record k { ratchet = r })
            c₁ (lookup-insert_self p (record k { ratchet = r }) c.heap) q room

      kept : message_at nickname id c₁.conversations ≡ some (outgoing now message)
      kept =
          message_at-put nickname nickname id id (outgoing now message) c.conversations
          ∙ rw (==_refl nickname, ==_refl id)

  -- A contact that no message can be sent to.
  abbrev pub IsUnready : String → Client R → Type 0
  IsUnready nickname c =
      (lookup nickname c.contact_nicknames ≡ none)
      ⊎ ((p : ℕ) × (k : Contact R) × (lookup nickname c.contact_nicknames ≡ some p)
          × (lookup p c.heap ≡ some k)
          × (k.is_pending ≡ true))

  -- A message for a nickname that no contact has, or whose contact is pending, is kept in the
  -- conversation under its ID, and that is all that changes: it is neither queued nor handed to the
  -- session nor saved.
  pub do_send_message-unready :
      (now : ℕ) (sent : Result Bytes Err) (faults : Faults) (id : Bytes) (nickname : String)
      (message : Bytes) (c : Client R)
      → IsUnready nickname c
      → do_send_message env now sent faults id nickname message c ≡ (
        done tt,
        record c { conversations = put nickname id (outgoing now message) c.conversations },
      )
  unfolding ◌>>=◌ do_send_message load put_message
  do_send_message-unready now sent faults id nickname message c (inl h) = ground (arith, h)
  do_send_message-unready now sent faults id nickname message c (inr (p, k, n, h, pend)) =
      ground (arith, n, h, pend)
