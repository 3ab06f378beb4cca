-- ===== src/Client/Inbox/Draining.antt =====
-- A contact's queue drains, if the spool takes what the session sends: one reply after the other.
use catshadow.Prelude.{
  ℕ, ◌≡◌, ◌≢◌, refl, sym, ap, ◌∙◌, Bytes, String, true, List, [], ◌∷◌, ◌++◌, append_assoc,
  append-nil, map, Option, some, ok, arith, length, lookup, nat_comparable, string_comparable,
}
use catshadow.Fifo.{QueuedSpoolCommand, Fifo}
use catshadow.Queue.Refine.{Holds}
use catshadow.Contact.{Contact}
use catshadow.Client.{
  Client, Env, M, Outcome, done, pure, ◌>>◌, by_value, send_key_comparable, SentMessageDescriptor,
  Event, message_delivered, SpoolResponse, Transmission,
}
use catshadow.Client.Steps.{bind_done}
use catshadow.Client.Messaging.Handing.{handed_front}
use catshadow.Client.Inbox.{ReplyEvent, handle_reply}
use catshadow.Client.Inbox.Acknowledged.{Acknowledged, handled}

-- One reply, with what the environment yields while it is handled: the message ID under which the
-- session takes the next command.
pub record Round : Type 0 where
  pub event : ReplyEvent
  pub response : SpoolResponse
  pub now : ℕ
  pub random : Option Bytes
  pub next_id : Bytes

-- What the session is handed: after each reply the next command, under that reply's ID.
abbrev pub all_handed : List Round → Fifo → List Transmission
all_handed [] l = []
all_handed (r ∷ rs) [] = []
all_handed (r ∷ rs) (cmd ∷ l) = handed_front (ok r.next_id) l ++ all_handed rs l

abbrev pub delivered : String → Fifo → List Event
delivered nickname l = map (λ (cmd : QueuedSpoolCommand). message_delivered nickname cmd.id) l

finishes : {R : Type 0} (r : Outcome (Unit {0}) × Client R) → r.0 ≡ done tt → r ≡ (done tt, r.1)
finishes r e = ground (arith, e)

module _ {R : Type 0} (env : Env R) where
  -- The worker handles the replies.
  abbrev pub drain : List Round → M R (Unit {0})
  drain [] = pure tt
  drain (r ∷ rs) = handle_reply env (ok r.next_id) r.now r.random r.event >> drain rs

  -- Each reply says that the spool has taken the command that was handed over last.
  abbrev pub Answers : Bytes → List Round → Type 0
  Answers id [] = Unit
  Answers id (r ∷ rs) =
      (r.event.message_id.value ≡ id)
      × (env.spool_response_from_bytes r.event.payload ≡ ok r.response)
      × (r.response.is_ok ≡ true)
      × Answers r.next_id rs

  -- The first of these commands is on its way to the contact, under this message ID of the session.
  pub record IsSending (nickname : String) (p : ℕ) (id : Bytes) (l : Fifo) (c : Client R)
      : Type 0 where
    pub contact : Contact R
    pub at : lookup p c.heap ≡ some contact
    pub queue : Holds contact.outbound l
    pub same : contact.nickname ≡ nickname
    pub named : lookup nickname c.contact_nicknames ≡ some p
    pub entry :
        (cmd : QueuedSpoolCommand) (rest : Fifo)
        → l ≡ cmd ∷ rest
        → lookup (by_value id) c.send_map
          ≡ some (record { nickname = nickname; message_id = cmd.id })

  -- The descriptor that is kept for the first command.
  abbrev descriptor_of : String → QueuedSpoolCommand → SentMessageDescriptor
  descriptor_of nickname cmd = record { nickname = nickname; message_id = cmd.id }

  one_round :
      (nickname : String) (p : ℕ) (id : Bytes) (cmd : QueuedSpoolCommand) (l : Fifo) (r : Round)
      (c : Client R)
      → nickname ≢ env.user
      → (s : IsSending nickname p id (cmd ∷ l) c) → r.event.message_id.value ≡ id
      → env.spool_response_from_bytes r.event.payload ≡ ok r.response
      → r.response.is_ok ≡ true
      → Acknowledged env l
          (descriptor_of nickname cmd)
          p
          s.contact
          (ok r.next_id)
          c
          (handle_reply env (ok r.next_id) r.now r.random r.event c)
  one_round nickname p id cmd l r c other s same_id parsed fine =
      handled env (ok r.next_id) r.now r.random r.event r.response (descriptor_of nickname cmd) p
        s.contact cmd l c
        (record {
          entry = ap (λ (x : Bytes). lookup (by_value x) c.send_map) same_id ∙ s.entry cmd l refl;
          parsed = parsed;
          accepted = fine;
          not_own = other;
          named = s.named;
        })
        s.at s.queue

  handle_reply-IsSending :
      (nickname : String) (p : ℕ) (id : Bytes) (cmd : QueuedSpoolCommand) (l : Fifo) (r : Round)
      (c : Client R) (s : IsSending nickname p id (cmd ∷ l) c)
      → let o = handle_reply env (ok r.next_id) r.now r.random r.event c in
        Acknowledged env l (descriptor_of nickname cmd) p s.contact (ok r.next_id) c o
        → IsSending nickname p r.next_id l o.1
  handle_reply-IsSending nickname p id cmd l r c s d = record {
    contact = d.contact;
    at = d.at;
    queue = d.queue;
    same = d.same_nickname ∙ s.same;
    named = ap (lookup nickname) d.same_names ∙ s.named;
    entry = λ next rest e.
        d.next_entry r.next_id next rest refl e
        ∙ ap (λ (n : String). some (record { nickname = n; message_id = next.id })) s.same;
  }

  -- Messages wait for a contact, and the first is on its way. If the spool takes every command that it
  -- is handed, as many replies as there are messages empty the queue: every reply is handled without
  -- an error, each message is reported as delivered, in the order in which they were sent, and the
  -- session was handed the others, one after each reply, in that order.
  pub drain-delivers :
      (nickname : String) (p : ℕ) (id : Bytes) (l : Fifo) (rs : List Round) (c : Client R)
      → nickname ≢ env.user
      → IsSending nickname p id l c
      → Answers id rs
      → length rs ≡ length l
      → let (o, c') = drain rs c in
        (o ≡ done tt)
        × (k : Contact R) × (lookup p c'.heap ≡ some k)
        × Holds k.outbound []
        × (c'.event_ch ≡ c.event_ch ++ delivered nickname l)
        × (c'.transmitted ≡ c.transmitted ++ all_handed rs l)
  unfolding pure
  drain-delivers nickname p id [] [] c other s a e =
      (refl, s.contact, s.at, s.queue, sym (append-nil c.event_ch), sym (append-nil c.transmitted))
  drain-delivers nickname p id (cmd ∷ l) [] c other s a e = absurd (omega (arith, e))
  drain-delivers nickname p id [] (r ∷ rs) c other s a e = absurd (omega (arith, e))
  drain-delivers nickname p id (cmd ∷ l) (r ∷ rs) c other s (same_id, parsed, fine, a) e =
      let d = one_round nickname p id cmd l r c other s same_id parsed fine in
      let c' = (handle_reply env (ok r.next_id) r.now r.random r.event c).1 in
      let (o, k, at, empty, reported, handed) =
        drain-delivers nickname p r.next_id l rs c' other
          (handle_reply-IsSending nickname p id cmd l r c s d) a (omega (arith, e)) in
      rw
        (bind_done (handle_reply env (ok r.next_id) r.now r.random r.event) (λ _. drain rs) c c' tt
          (finishes _ d.returns))
        (
          o,
          k,
          at,
          empty,
          reported
              ∙ ap (λ es. es ++ delivered nickname l) d.reported
              ∙ append_assoc c.event_ch _ (delivered nickname l),
          handed
              ∙ ap (λ ts. ts ++ all_handed rs l) d.handed_next
              ∙ append_assoc c.transmitted _ (all_handed rs l),
        )
