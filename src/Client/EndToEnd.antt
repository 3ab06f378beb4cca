-- ===== src/Client/EndToEnd.antt =====
-- A message on its whole way: from one client's `doSendMessage`, as a command for the other's spool, to
-- the other client's `decryptMessage`.
use catshadow.Prelude.{
  ℕ, ◌+◌, ◌≤◌, ◌<◌, ◌^◌, ◌≡◌, ap, true, false, Bytes, String, [], ◌∷◌, ◌++◌, Map, some, Result, ok,
  arith, length, lookup, nat_comparable,
}
use catshadow.Payload.{frame}
use catshadow.Disk.{Faults}
use catshadow.Fifo.{Fifo}
use catshadow.Queue.{max_queue_size}
use catshadow.Queue.Refine.{Holds}
use catshadow.Contact.{Contact, Err, SpoolWriteDescriptor}
use catshadow.Conversation.{message_at}
use catshadow.Client.{Client, Env, done}
use catshadow.Client.Messaging.{do_send_message}
use catshadow.Client.Messaging.Egress.{IsReady, command_for, do_send_message-ready}
use catshadow.Client.Inbox.{decrypt_message}
use catshadow.Client.Inbox.Trial.{AllPassOver, Avoids, Decrypts}
use catshadow.Client.Inbox.Decryption.{incoming, decrypt_message-delivers}

module _ {R : Type 0} (env peer : Env R) where
  -- What the double ratchet does for two ends of one session: the one decrypts what the other has
  -- encrypted next.
  abbrev pub ArePaired : R → R → Type 0
  ArePaired here there =
      (plain : Bytes)
      → (spare : Bytes) × (next : R) × (peer.decrypt there (env.encrypt here plain).0
          ≡ (ok (record { bytes = plain; spare = spare }), next))

  -- What the one client encrypts for the contact.
  abbrev pub ciphertext_of : Contact R → Bytes → Bytes
  ciphertext_of k message = (env.encrypt k.ratchet (frame env.payload_length message)).0

  -- The other client, with the contact that stands for the first one, and those that it tries before.
  pub record Listens (ciphertext : Bytes) (id p : ℕ) (k : Contact R) (pre post : Map ℕ ℕ)
      (c : Client R) : Type 0 where
    pub order : c.contacts ≡ pre ++ (id, p) ∷ post
    pub at : lookup p c.heap ≡ some k
    pub paired : k.is_pending ≡ false
    pub others : AllPassOver peer ciphertext c pre
    pub distinct : Avoids peer p pre

  -- A message that fits its frame, for a contact that is paired and has room in its queue: the sender
  -- queues a command that appends a ciphertext to the contact's spool, and from that ciphertext the
  -- contact's client gets the same message, in its conversation with the contact whose ratchet is the
  -- other end. Both clients use the same payload length.
  pub do_send_message-decrypt_message :
      (now now' : ℕ) (sent : Result Bytes Err) (faults : Faults) (id new_id : Bytes)
      (nickname : String) (message : Bytes) (p : ℕ) (k : Contact R) (d : SpoolWriteDescriptor)
      (r : R) (command : Bytes) (l : Fifo) (a : Client R) (id' p' : ℕ) (k' : Contact R)
      (pre post : Map ℕ ℕ) (b : Client R)
      → IsReady env nickname message p k d r command a
      → Holds k.outbound l
      → length l < max_queue_size
      → Listens (ciphertext_of k message) id' p' k' pre post b
      → ArePaired k.ratchet k'.ratchet
      → peer.payload_length ≡ env.payload_length
      → length message + 4 ≤ env.payload_length
      → env.payload_length < 2 ^ 32
      → let a' = (do_send_message env now sent faults id nickname message a).1 in
        let b' = decrypt_message peer now' (some new_id) (ciphertext_of k message) b in
        ((after : Contact R) × (lookup p a'.heap ≡ some after)
          × Holds after.outbound (l ++ command_for env id d command ∷ []))
        × (env.append_to_spool d.id (ciphertext_of k message) ≡ ok command)
        × (b'.0 ≡ done true)
        × (message_at k'.nickname new_id b'.1.conversations ≡ some (incoming peer now' message))
  do_send_message-decrypt_message now now' sent faults id new_id nickname message p k d r command l
        a id' p' k' pre post b ready queue room y pair same fits small =
      let (after, at, held, _, _, _) =
        do_send_message-ready env now sent faults id nickname message p k d r command l a ready
          queue room in
      let (spare, next, e) = pair (frame env.payload_length message) in
      let decrypts : Decrypts peer (ciphertext_of k message)
          (record { bytes = frame peer.payload_length message; spare = spare }) next p' k' b =
        record {
          at = y.at;
          paired = y.paired;
          plain = rw same (ap (λ x. x.0) e);
          advanced = ap (λ x. x.1) e;
        } in
      let (returns, kept, _, _) =
        decrypt_message-delivers peer now' new_id (ciphertext_of k message) message spare next id'
          p' k' pre post b y.order y.others y.distinct decrypts (omega (arith, fits, same))
          (omega (arith, small, same)) in
      ((after, at, held), ready.appended, returns, kept)
