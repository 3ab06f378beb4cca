-- ===== src/Client/Messaging/Enqueue.antt =====
-- Putting a command into a contact's queue: `enqueue` and `push_and_save`.
use catshadow.Prelude.{
  ℕ, ◌<◌, ◌≡◌, refl, sym, ap, ◌∙◌, Bytes, [], ◌∷◌, ◌++◌, none, some, Result, arith, length, lookup,
  insert, lookup-insert_self, nat_comparable, string_comparable, append-nil, bytes_comparable,
}
use catshadow.Disk.{Disk, Faults}
use catshadow.Fifo
use catshadow.Fifo.{QueuedSpoolCommand, Fifo, QueueError}
use catshadow.Queue.{push, max_queue_size}
use catshadow.Queue.Refine.{Holds, peek_refines, push_with_room}
use catshadow.Contact.{Contact, Err}
use catshadow.Client.{◌>>=◌, Client, Env, load, store, save, send_key_comparable}
use catshadow.Client.Steps.{deferred_state, save-Saves, save-ne-blocked}
use catshadow.Client.Messaging.Handing.{
  handed, handed_if_first, Hands, send_message_lem, transmit-Hands,
}
use catshadow.Client.Messaging.{transmit, send_message, push_and_save, enqueue}

module _ {R : Type 0} (env : Env R) where
  -- With room in the queue, the command is appended and the client saved.
  push_and_save_lem :
      (faults : Faults) (p : ℕ) (item : QueuedSpoolCommand) (k : Contact R) (c : Client R)
      → lookup p c.heap ≡ some k
      → (push k.outbound item).0 ≡ none
      → push_and_save env faults p item c
        ≡ save env faults
            (record c { heap = insert p (record k { outbound = (push k.outbound item).1 }) c.heap })
  unfolding ◌>>=◌ push_and_save load store
  push_and_save_lem faults p item k c h room = ground (arith, h, room)

  -- What a command that is put into a queue with room leads to.
  pub record Enqueued (l : Fifo) (p : ℕ) (k : Contact R) (item : QueuedSpoolCommand)
      (sent : Result Bytes Err) (c c' : Client R) : Type 0 where
    pub contact : Contact R
    pub at : lookup p c'.heap ≡ some contact
    pub queue : Holds contact.outbound (l ++ item ∷ [])
    pub same_ratchet : contact.ratchet ≡ k.ratchet
    pub same_conversations : c'.conversations ≡ c.conversations
    pub handed_over : c'.transmitted ≡ c.transmitted ++ handed_if_first sent l item

  abbrev with_pushed : Contact R → QueuedSpoolCommand → Contact R
  with_pushed k item = record k { outbound = (push k.outbound item).1 }

  enqueue_later :
      (sent : Result Bytes Err) (faults : Faults) (p : ℕ) (item x : QueuedSpoolCommand) (l : Fifo)
      (k : Contact R) (c : Client R)
      → lookup p c.heap ≡ some k
      → Holds k.outbound (x ∷ l)
      → length (x ∷ l) < max_queue_size
      → Enqueued (x ∷ l) p k item sent c (enqueue env sent faults p item c).1
  unfolding ◌>>=◌ enqueue load Fifo.front
  enqueue_later sent faults p item x l k c h q room =
      rw (straight, saved.1)
        (record {
          contact = with_pushed k item;
          at = lookup-insert_self p (with_pushed k item) c.heap;
          queue = pushed.1;
          same_ratchet = refl;
          same_conversations = refl;
          handed_over = sym (append-nil c.transmitted);
        })
    where
      pushed :
          ((push k.outbound item).0 ≡ none) × Holds (push k.outbound item).1 ((x ∷ l) ++ item ∷ [])
      pushed = push_with_room k.outbound (x ∷ l) item q room

      c' : Client R
      c' = record c { heap = insert p (with_pushed k item) c.heap }

      straight : enqueue env sent faults p item c ≡ save env faults c'
      straight =
          ground (arith, h, peek_refines k.outbound (x ∷ l) q)
          ∙ push_and_save_lem faults p item k c h pushed.0

      saved : (d : Disk) × ((save env faults c').1 ≡ record c' { disk = d })
      saved = let (_, d, e) = save-Saves env faults c' in (d, e)

  enqueue_first :
      (sent : Result Bytes Err) (faults : Faults) (p : ℕ) (item : QueuedSpoolCommand)
      (k : Contact R) (c : Client R)
      → lookup p c.heap ≡ some k
      → Holds k.outbound []
      → Enqueued [] p k item sent c (enqueue env sent faults p item c).1
  unfolding ◌>>=◌ enqueue load Fifo.front
  enqueue_first sent faults p item k c h q =
      rw (first, stored, saved.1, resent)
        (record {
          contact = with_pushed k item;
          at = ap (lookup p) after.same_heap ∙ found;
          queue = pushed.1;
          same_ratchet = refl;
          same_conversations = after.same_conversations;
          handed_over = after.hands;
        })
    where
      pushed : ((push k.outbound item).0 ≡ none) × Holds (push k.outbound item).1 (item ∷ [])
      pushed = push_with_room k.outbound [] item q (omega arith)

      c' : Client R
      c' = record c { heap = insert p (with_pushed k item) c.heap }

      found : lookup p c'.heap ≡ some (with_pushed k item)
      found = lookup-insert_self p (with_pushed k item) c.heap

      saved : (d : Disk) × ((save env faults c').1 ≡ record c' { disk = d })
      saved = let (_, d, e) = save-Saves env faults c' in (d, e)

      stored : push_and_save env faults p item c ≡ save env faults c'
      stored = push_and_save_lem faults p item k c h pushed.0

      first :
          (enqueue env sent faults p item c).1
          ≡ (send_message sent p (push_and_save env faults p item c).1).1
      first = ground (
        arith,
        h,
        peek_refines k.outbound [] q,
        deferred_state (send_message sent p) (push_and_save env faults p item) c
            (rw stored (save-ne-blocked env faults c')),
      )

      resent :
          send_message sent p (record c' { disk = saved.0 })
          ≡ transmit k.nickname item sent (record c' { disk = saved.0 })
      resent =
          send_message_lem sent p item (with_pushed k item) (record c' { disk = saved.0 }) found
            (peek_refines (push k.outbound item).1 (item ∷ []) pushed.1)

      after :
          Hands sent
            (handed sent item)
            (record c' { disk = saved.0 })
            (transmit k.nickname item sent (record c' { disk = saved.0 }))
      after = transmit-Hands k.nickname item sent (record c' { disk = saved.0 })

  -- A command that is put into a queue with room stands at its end, and is handed over if it is the
  -- first.
  pub enqueue-Enqueued :
      (sent : Result Bytes Err) (faults : Faults) (p : ℕ) (item : QueuedSpoolCommand) (l : Fifo)
      (k : Contact R) (c : Client R)
      → lookup p c.heap ≡ some k
      → Holds k.outbound l
      → length l < max_queue_size
      → Enqueued l p k item sent c (enqueue env sent faults p item c).1
  enqueue-Enqueued sent faults p item [] k c h q room = enqueue_first sent faults p item k c h q
  enqueue-Enqueued sent faults p item (x ∷ l) k c h q room =
      enqueue_later sent faults p item x l k c h q room
