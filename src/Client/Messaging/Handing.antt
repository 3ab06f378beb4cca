-- ===== src/Client/Messaging/Handing.antt =====
-- Handing the command at the front of a queue to the session.
use catshadow.Prelude.{
  ℕ, ◌≡◌, ◌≢◌, refl, sym, Bytes, String, List, [], ◌∷◌, ◌++◌, some, Result, ok, err, arith, lookup,
  lookup-insert_ne, lookup-insert_self, nat_comparable, string_comparable, append-nil,
  bytes_comparable,
}
use catshadow.Fifo
use catshadow.Fifo.{QueuedSpoolCommand, Fifo, QueueError}
use catshadow.Queue.{peek}
use catshadow.Queue.Refine.{Holds, peek_refines}
use catshadow.Contact.{Contact, Err}
use catshadow.Client.{
  ◌>>=◌, Client, Outcome, done, load, SendKey, by_value, send_key_comparable, Transmission,
}
use catshadow.Client.Messaging.{transmit, send_message}

-- What the session is handed for a command, if it takes it.
abbrev pub handed : Result Bytes Err → QueuedSpoolCommand → List Transmission
handed (err _) cmd = []
handed (ok message_id) cmd =
    (record {
      message_id = message_id;
      receiver = cmd.receiver;
      provider = cmd.provider;
      command = cmd.command;
    })
    ∷ []

-- What `sendMessage` hands over for a queue.
abbrev pub handed_front : Result Bytes Err → Fifo → List Transmission
handed_front sent [] = []
handed_front sent (cmd ∷ l) = handed sent cmd

-- Only the first command of an empty queue is handed over at once.
abbrev pub handed_if_first : Result Bytes Err → Fifo → QueuedSpoolCommand → List Transmission
handed_if_first sent [] cmd = handed sent cmd
handed_if_first sent (x ∷ l) cmd = []

module _ {R : Type 0} where
  pub send_message_lem :
      (sent : Result Bytes Err) (p : ℕ) (cmd : QueuedSpoolCommand) (k : Contact R) (c : Client R)
      → lookup p c.heap ≡ some k
      → peek k.outbound ≡ ok (some cmd)
      → send_message sent p c ≡ transmit k.nickname cmd sent c
  unfolding ◌>>=◌ send_message load
  send_message_lem sent p cmd k c h e = ground (arith, h, e)

  send_message_none :
      (sent : Result Bytes Err) (p : ℕ) (e : QueueError) (k : Contact R) (c : Client R)
      → lookup p c.heap ≡ some k
      → peek k.outbound ≡ err e
      → send_message sent p c ≡ (done tt, c)
  unfolding ◌>>=◌ send_message load
  send_message_none sent p e k c h q = ground (arith, h, q)

  -- What handing a command over, or none, leaves alone, and what it does.
  pub record Hands (sent : Result Bytes Err) (ts : List Transmission) (c : Client R)
      (r : Outcome (Unit {0}) × Client R) : Type 0 where
    pub returns : r.0 ≡ done tt
    pub same_heap : r.1.heap ≡ c.heap
    pub same_names : r.1.contact_nicknames ≡ c.contact_nicknames
    pub same_ids : r.1.contacts ≡ c.contacts
    pub same_conversations : r.1.conversations ≡ c.conversations
    pub same_events : r.1.event_ch ≡ c.event_ch
    pub hands : r.1.transmitted ≡ c.transmitted ++ ts
    pub same_descriptor :
        (key : SendKey)
        → ((id : Bytes) → sent ≡ ok id → by_value id ≢ key)
        → lookup key r.1.send_map ≡ lookup key c.send_map

  pub transmit-Hands :
      (nickname : String) (cmd : QueuedSpoolCommand) (sent : Result Bytes Err) (c : Client R)
      → Hands sent (handed sent cmd) c (transmit nickname cmd sent c)
  unfolding transmit
  transmit-Hands nickname cmd (err _) c = record {
    returns = refl;
    same_heap = refl;
    same_names = refl;
    same_ids = refl;
    same_conversations = refl;
    same_events = refl;
    hands = sym (append-nil c.transmitted);
    same_descriptor = λ key other. refl;
  }
  transmit-Hands nickname cmd (ok id) c = record {
    returns = refl;
    same_heap = refl;
    same_names = refl;
    same_ids = refl;
    same_conversations = refl;
    same_events = refl;
    hands = refl;
    same_descriptor = λ key other.
        lookup-insert_ne (by_value id) key (record { nickname = nickname; message_id = cmd.id })
          c.send_map (other id refl);
  }

  -- `sendMessage` hands over the command at the front of the contact's queue and leaves it there.
  pub send_message-Hands :
      (sent : Result Bytes Err) (p : ℕ) (l : Fifo) (k : Contact R) (c : Client R)
      → lookup p c.heap ≡ some k
      → Holds k.outbound l
      → Hands sent (handed_front sent l) c (send_message sent p c)
  unfolding Fifo.front
  send_message-Hands sent p [] k c h q =
      rw (send_message_none sent p _ k c h (peek_refines k.outbound [] q)) (record {
        returns = refl;
        same_heap = refl;
        same_names = refl;
        same_ids = refl;
        same_conversations = refl;
        same_events = refl;
        hands = sym (append-nil c.transmitted);
        same_descriptor = λ key other. refl;
      })
  send_message-Hands sent p (cmd ∷ l) k c h q =
      rw (send_message_lem sent p cmd k c h (peek_refines k.outbound (cmd ∷ l) q))
        (transmit-Hands k.nickname cmd sent c)

  -- The command that is handed over has its entry in the send map under the session's message ID.
  pub send_message_entry :
      (id : Bytes) (p : ℕ) (cmd : QueuedSpoolCommand) (l : Fifo) (k : Contact R) (c : Client R)
      → lookup p c.heap ≡ some k
      → Holds k.outbound (cmd ∷ l)
      → lookup (by_value id) (send_message (ok id) p c).1.send_map
        ≡ some (record { nickname = k.nickname; message_id = cmd.id })
  unfolding Fifo.front
  send_message_entry id p cmd l k c h q =
      rw (send_message_lem (ok id) p cmd k c h (peek_refines k.outbound (cmd ∷ l) q))
        (unfold transmit in lookup-insert_self (by_value id) _ c.send_map)
