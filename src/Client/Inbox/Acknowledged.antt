-- ===== src/Client/Inbox/Acknowledged.antt =====
-- What `handleReply` does when the spool has taken a message: the command popped, the next one sent.
use catshadow.Prelude.{
  ℕ, ◌≡◌, ◌≢◌, refl, ap, ◌∙◌, subst, true, Bytes, [], ◌∷◌, ◌++◌, Option, some, Result, ok, arith,
  lookup, insert, erase, lookup-insert_self, lookup-erase_ne, nat_comparable, string_comparable,
  ==_iff,
}
use catshadow.Fifo.{QueuedSpoolCommand, Fifo}
use catshadow.Queue.{pop}
use catshadow.Queue.Refine.{Holds, pop_of_cons}
use catshadow.Contact.{Contact, Err}
use catshadow.Client.{
  ◌>>=◌, Client, Env, Outcome, done, deferred, load, store, emit, by_value, by_pointer,
  send_key_comparable, SentMessageDescriptor, message_delivered, SpoolResponse,
}
use catshadow.Client.Steps.{deferred_state}
use catshadow.Client.Messaging.{send_message, stop_timer}
use catshadow.Client.Messaging.Handing.{handed_front, Hands, send_message-Hands, send_message_entry}
use catshadow.Client.Inbox.{ReplyEvent, acknowledge, dispatch_reply, handle_reply}

module _ {R : Type 0} (env : Env R) where
  abbrev after_pop : Contact R → Contact R
  after_pop k = record (stop_timer env k) { outbound = (pop k.outbound).1 }

  -- The state in which the next command is sent.
  abbrev popped : SentMessageDescriptor → ℕ → Contact R → Client R → Client R
  popped tp p k c = record c {
    heap = insert p (after_pop k) c.heap;
    event_ch = c.event_ch ++ message_delivered tp.nickname tp.message_id ∷ [];
  }

  acknowledge_lem :
      (sent : Result Bytes Err) (tp : SentMessageDescriptor) (p : ℕ) (k : Contact R)
      (cmd : QueuedSpoolCommand) (l : Fifo) (c : Client R)
      → lookup p c.heap ≡ some k
      → Holds k.outbound (cmd ∷ l)
      → (acknowledge env sent tp p c).1 ≡ (send_message sent p (popped tp p k c)).1
  unfolding ◌>>=◌ acknowledge load store emit
  acknowledge_lem sent tp p k cmd l c h q = ground (
    arith,
    h,
    (pop_of_cons k.outbound l cmd q).0,
    deferred_state (send_message sent p) (emit (message_delivered tp.nickname tp.message_id))
        (record c { heap = insert p (after_pop k) c.heap }),
  )

  -- What the acknowledgement of the command at the front of a queue leads to, where `l` is the rest.
  pub record Acknowledged (l : Fifo) (tp : SentMessageDescriptor) (p : ℕ) (k : Contact R)
      (sent : Result Bytes Err) (c : Client R) (r : Outcome (Unit {0}) × Client R) : Type 0 where
    pub returns : r.0 ≡ done tt
    pub contact : Contact R
    pub at : lookup p r.1.heap ≡ some contact
    pub queue : Holds contact.outbound l
    pub same_nickname : contact.nickname ≡ k.nickname
    pub same_names : r.1.contact_nicknames ≡ c.contact_nicknames
    pub reported : r.1.event_ch ≡ c.event_ch ++ message_delivered tp.nickname tp.message_id ∷ []
    pub handed_next : r.1.transmitted ≡ c.transmitted ++ handed_front sent l
    pub same_descriptor :
        (key : Bytes)
        → sent ≢ ok key
        → lookup (by_value key) r.1.send_map ≡ lookup (by_value key) c.send_map
    pub next_entry :
        (id : Bytes) (next : QueuedSpoolCommand) (rest : Fifo)
        → sent ≡ ok id
        → l ≡ next ∷ rest
        → lookup (by_value id) r.1.send_map
          ≡ some (record { nickname = k.nickname; message_id = next.id })

  acknowledge_returns :
      (sent : Result Bytes Err) (tp : SentMessageDescriptor) (p : ℕ) (k : Contact R)
      (cmd : QueuedSpoolCommand) (l : Fifo) (c : Client R)
      → lookup p c.heap ≡ some k
      → Holds k.outbound (cmd ∷ l)
      → (send_message sent p (popped tp p k c)).0 ≡ done tt
      → (acknowledge env sent tp p c).0 ≡ done tt
  unfolding ◌>>=◌ acknowledge load store emit deferred
  acknowledge_returns sent tp p k cmd l c h q e =
      ground (arith, h, e, (pop_of_cons k.outbound l cmd q).0)

  by_value_injective : (a b : Bytes) → by_value a ≡ by_value b → a ≡ b
  by_value_injective a b e = cc

  acknowledge-Acknowledged :
      (sent : Result Bytes Err) (tp : SentMessageDescriptor) (p : ℕ) (k : Contact R)
      (cmd : QueuedSpoolCommand) (l : Fifo) (c : Client R)
      → lookup p c.heap ≡ some k
      → Holds k.outbound (cmd ∷ l)
      → Acknowledged l tp p k sent c (acknowledge env sent tp p c)
  acknowledge-Acknowledged sent tp p k cmd l c h q = record {
    returns = acknowledge_returns sent tp p k cmd l c h q hands.returns;
    contact = after_pop k;
    at = ap (λ (s : Client R). lookup p s.heap) state ∙ ap (lookup p) hands.same_heap ∙ found;
    queue = (pop_of_cons k.outbound l cmd q).1;
    same_nickname = refl;
    same_names = ap (λ (s : Client R). s.contact_nicknames) state ∙ hands.same_names;
    reported = ap (λ (s : Client R). s.event_ch) state ∙ hands.same_events;
    handed_next = ap (λ (s : Client R). s.transmitted) state ∙ hands.hands;
    same_descriptor = λ key other.
        ap (λ (s : Client R). lookup (by_value key) s.send_map) state
        ∙ hands.same_descriptor (by_value key)
            (λ id e eq. other (e ∙ ap ok (by_value_injective id key eq)));
    next_entry = λ id next rest e e'.
        ap (λ (s : Client R). lookup (by_value id) s.send_map) state
        ∙ ap
            (λ (x : Result Bytes Err).
              lookup (by_value id) (send_message x p (popped tp p k c)).1.send_map)
            e
        ∙ send_message_entry id p next rest (after_pop k) (popped tp p k c) found
            (subst (Holds (pop k.outbound).1) e' (pop_of_cons k.outbound l cmd q).1);
  }
    where
      found : lookup p (popped tp p k c).heap ≡ some (after_pop k)
      found = lookup-insert_self p (after_pop k) c.heap

      hands :
          Hands sent (handed_front sent l) (popped tp p k c) (send_message sent p (popped tp p k c))
      hands =
          send_message-Hands sent p l (after_pop k) (popped tp p k c) found
            (pop_of_cons k.outbound l cmd q).1

      state : (acknowledge env sent tp p c).1 ≡ (send_message sent p (popped tp p k c)).1
      state = acknowledge_lem sent tp p k cmd l c h q

  -- The reply reports that the spool has taken a message that went to a contact.
  pub record Acknowledges (event : ReplyEvent) (response : SpoolResponse)
      (tp : SentMessageDescriptor) (p : ℕ) (c : Client R) : Type 0 where
    pub entry : lookup (by_value event.message_id.value) c.send_map ≡ some tp
    pub parsed : env.spool_response_from_bytes event.payload ≡ ok response
    pub accepted : response.is_ok ≡ true
    pub not_own : tp.nickname ≢ env.user
    pub named : lookup tp.nickname c.contact_nicknames ≡ some p

  abbrev cleaned : ReplyEvent → Client R → Client R
  cleaned event c = record c { send_map = erase (by_pointer event.message_id.address) c.send_map }

  handle_reply_lem :
      (sent : Result Bytes Err) (now : ℕ) (random : Option Bytes) (event : ReplyEvent)
      (response : SpoolResponse) (tp : SentMessageDescriptor) (p : ℕ) (c : Client R)
      → Acknowledges event response tp p c
      → (acknowledge env sent tp p c).0 ≡ done tt
      → handle_reply env sent now random event c
        ≡ (done tt, cleaned event (acknowledge env sent tp p c).1)
  unfolding ◌>>=◌ handle_reply dispatch_reply deferred
  handle_reply_lem sent now random event response tp p c a e =
      ground
        (arith, e, a.entry, a.parsed, a.accepted, a.named, a.not_own, ==_iff tp.nickname env.user)

  pub handled :
      (sent : Result Bytes Err) (now : ℕ) (random : Option Bytes) (event : ReplyEvent)
      (response : SpoolResponse) (tp : SentMessageDescriptor) (p : ℕ) (k : Contact R)
      (cmd : QueuedSpoolCommand) (l : Fifo) (c : Client R)
      → Acknowledges event response tp p c
      → lookup p c.heap ≡ some k
      → Holds k.outbound (cmd ∷ l)
      → Acknowledged l tp p k sent c (handle_reply env sent now random event c)
  handled sent now random event response tp p k cmd l c a h q =
      let d = acknowledge-Acknowledged sent tp p k cmd l c h q in
      rw (handle_reply_lem sent now random event response tp p c a d.returns) (record {
        returns = refl;
        contact = d.contact;
        at = d.at;
        queue = d.queue;
        same_nickname = d.same_nickname;
        same_names = d.same_names;
        reported = d.reported;
        handed_next = d.handed_next;
        same_descriptor = λ key other.
            lookup-erase_ne (by_pointer event.message_id.address) (by_value key)
              (acknowledge env sent tp p c).1.send_map (λ e. cc)
            ∙ d.same_descriptor key other;
        next_entry = λ id next rest e e'.
            lookup-erase_ne (by_pointer event.message_id.address) (by_value id)
              (acknowledge env sent tp p c).1.send_map (λ x. cc)
            ∙ d.next_entry id next rest e e';
      })
