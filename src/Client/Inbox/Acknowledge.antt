-- ===== src/Client/Inbox/Acknowledge.antt =====
-- `handleReply` for acknowledgements: what is delivered, what is sent next, and what becomes of the
-- entry in the send map.
use catshadow.Prelude.{
  ℕ, ◌≡◌, ◌≢◌, ap, ◌∙◌, Bytes, List, [], ◌∷◌, ◌++◌, Option, some, Result, ok, lookup,
  nat_comparable, string_comparable,
}
use catshadow.Fifo.{QueuedSpoolCommand, Fifo}
use catshadow.Queue.Refine.{Holds}
use catshadow.Contact.{Contact, Err}
use catshadow.Client.{
  Client, Env, done, send_key_comparable, SentMessageDescriptor, Event, message_delivered,
  SpoolResponse,
}
use catshadow.Client.Messaging.Handing.{handed_front}
use catshadow.Client.Inbox.{ReplyEvent, handle_reply}
use catshadow.Client.Inbox.Acknowledged.{Acknowledges, handled}

module _ {R : Type 0} (env : Env R) where
  -- When the spool has taken the command at the front of a contact's queue, that command leaves the
  -- queue, the others stay in order, the client reports the delivery, and the session is handed the
  -- next command, if there is one.
  pub handle_reply-acknowledged :
      (sent : Result Bytes Err) (now : ℕ) (random : Option Bytes) (event : ReplyEvent)
      (response : SpoolResponse) (tp : SentMessageDescriptor) (p : ℕ) (k : Contact R)
      (cmd : QueuedSpoolCommand) (l : Fifo) (c : Client R)
      → Acknowledges env event response tp p c
      → lookup p c.heap ≡ some k
      → Holds k.outbound (cmd ∷ l)
      → let (o, c') = handle_reply env sent now random event c in
        (o ≡ done tt)
        × (k' : Contact R) × (lookup p c'.heap ≡ some k')
        × Holds k'.outbound l
        × (c'.event_ch ≡ c.event_ch ++ message_delivered tp.nickname tp.message_id ∷ [])
        × (c'.transmitted ≡ c.transmitted ++ handed_front sent l)
  handle_reply-acknowledged sent now random event response tp p k cmd l c a h q =
      let d = handled env sent now random event response tp p k cmd l c a h q in
      (d.returns, d.contact, d.at, d.queue, d.reported, d.handed_next)

  -- The entry of the send map outlives the reply, since the deferred `Delete` is given a pointer and
  -- not the message ID. So a second reply with the same message ID takes the next command off the
  -- queue, which the spool has not acknowledged, and reports the first one as delivered again.
  pub handle_reply-duplicate :
      (sent sent' : Result Bytes Err) (now now' : ℕ) (random random' : Option Bytes)
      (event : ReplyEvent) (response : SpoolResponse) (tp : SentMessageDescriptor) (p : ℕ)
      (k : Contact R) (cmd next : QueuedSpoolCommand) (l : Fifo) (c : Client R)
      → Acknowledges env event response tp p c
      → sent ≢ ok event.message_id.value
      → lookup p c.heap ≡ some k
      → Holds k.outbound (cmd ∷ next ∷ l)
      → let c' = (handle_reply env sent now random event c).1 in
        let (o, c'') = handle_reply env sent' now' random' event c' in
        (o ≡ done tt)
        × (k' : Contact R) × (lookup p c''.heap ≡ some k')
        × Holds k'.outbound l
        × (c''.event_ch
            ≡ (c.event_ch ++ message_delivered tp.nickname tp.message_id ∷ [])
              ++ message_delivered tp.nickname tp.message_id ∷ [])
  handle_reply-duplicate sent sent' now now' random random' event response tp p k cmd next l c a
        other h q =
      let d = handled env sent now random event response tp p k cmd (next ∷ l) c a h q in
      let c' = (handle_reply env sent now random event c).1 in
      let again : Acknowledges env event response tp p c' = record {
        entry = d.same_descriptor event.message_id.value other ∙ a.entry;
        parsed = a.parsed;
        accepted = a.accepted;
        not_own = a.not_own;
        named = ap (lookup tp.nickname) d.same_names ∙ a.named;
      } in
      let d' =
        handled env sent' now' random' event response tp p d.contact next l c' again d.at d.queue in
      (
        d'.returns,
        d'.contact,
        d'.at,
        d'.queue,
        d'.reported
            ∙ ap (λ (es : List Event). es ++ message_delivered tp.nickname tp.message_id ∷ [])
                d.reported,
      )
