-- ===== src/Client/Sound/Worker.antt =====
-- Whatever the worker receives, a turn of its loop keeps the client's state sound.
use catshadow.Prelude.{
  ℕ, ◌≡◌, refl, sym, subst, Bytes, List, [], ◌∷◌, Map, Option, none, some, Result, arith, inl, inr,
  ◌⊎◌,
}
use catshadow.Contact.{Err}
use catshadow.Client.{
  Client, Env, Op, add_contact, remove_contact, send_message, get_contacts, unknown_operation,
  bad_operation, retransmit, done, ◌>>=◌, pure, modify, gets,
}
use catshadow.Client.Worker.{
  Loop, Document, Turn, Yields, halt, gc_messages, read_inbox, operation, panda_update,
  reunion_update, message_id_garbage_collected, connection_status_event, message_sent_event,
  message_reply_event, new_document_event, unknown_event, read_timer_fires, turn, start_worker,
  stop_contact_timers, halt_key_exchanges, work_on, next_operation,
}
use catshadow.Client.Sound.{IsSound, IsSoundFor, nothing}
use catshadow.Client.Sound.Keeps.{
  Goes, Goes-quiet, Goes-refl, Goes-trans, Keeps, Keeps-bind, Keeps-pure, Keeps-forget,
}
use catshadow.Client.Sound.Actions.{Keeps-fatal, actions_rules, Keeps-load}
use catshadow.Client.Sound.Messaging.{
  send_message-Keeps, do_send_message-Keeps, handle_sent-Keeps, garbage_collect_send_map-Keeps,
}
use catshadow.Client.Sound.Inbox.{send_read_inbox-Keeps, handle_reply-Keeps}
use catshadow.Client.Sound.Exchanges.{process_panda_update-Keeps, process_reunion_update-Keeps}
use catshadow.Client.Sound.Starting.{shut_exchange_down-Keeps}
use catshadow.Client.Sound.Adding.{create_contact-Keeps}
use catshadow.Client.Sound.Removing.{do_contact_removal-Keeps}

module _ {R : Type 0} (env : Env R) where
  stop_contact_timers-Keeps : (ids : Map ℕ ℕ) → Keeps nothing (stop_contact_timers env ids)
  unfolding stop_contact_timers
  stop_contact_timers-Keeps [] = Keeps-pure tt
  stop_contact_timers-Keeps ((_, p) ∷ ids) = Keeps-load p _ (λ k valid.
      Keeps-bind _ _ (search actions_rules) (λ _. Keeps-forget _ (stop_contact_timers-Keeps ids)))

  halt_key_exchanges-Keeps : (ids : Map ℕ ℕ) → Keeps nothing (halt_key_exchanges env ids)
  unfolding halt_key_exchanges
  halt_key_exchanges-Keeps [] = Keeps-pure tt
  halt_key_exchanges-Keeps ((_, p) ∷ ids) =
      Keeps-bind _ _ (shut_exchange_down-Keeps env p) (λ _. halt_key_exchanges-Keeps ids)

  work_on-Keeps : (y : Yields R) (op : Op) → Keeps nothing (work_on env y op)
  unfolding work_on
  work_on-Keeps y (add_contact name secret) =
      Keeps-bind _ _ (create_contact-Keeps env y.creation name) (search actions_rules)
  work_on-Keeps y (remove_contact name) = do_contact_removal-Keeps env y.faults name
  work_on-Keeps y (send_message id name payload) =
      do_send_message-Keeps env y.now y.sent y.faults id name payload
  work_on-Keeps y get_contacts = Keeps-pure tt
  work_on-Keeps y unknown_operation = Keeps-fatal bad_operation
  work_on-Keeps y (retransmit p) = send_message-Keeps y.sent p

  -- The operation that is taken leaves the channel.
  abbrev pub taken : List Op → Client R → Client R
  taken ops c = record c { op_ch = ops }

  pub next_operation_lem :
      (y : Yields R) (c : Client R)
      → ((c.op_ch ≡ []) × (next_operation env y c ≡ (done tt, c)))
        ⊎ ((op : Op) × (ops : List Op) × (c.op_ch ≡ op ∷ ops)
            × (next_operation env y c ≡ work_on env y op (taken ops c)))
  unfolding next_operation ◌>>=◌ gets pure modify
  next_operation_lem y c = cases c.op_ch refl
    where
      cases :
          (ops : List Op)
          → c.op_ch ≡ ops
          → ((c.op_ch ≡ []) × (next_operation env y c ≡ (done tt, c)))
            ⊎ ((op : Op) × (ops : List Op) × (c.op_ch ≡ op ∷ ops)
                × (next_operation env y c ≡ work_on env y op (taken ops c)))
      cases [] e = inl (e, ground (arith, e))
      cases (op ∷ ops) e = inr (op, ops, e, ground (arith, e))

  pub taken-Goes :
      (op : Op) (ops : List Op) (c : Client R)
      → IsSound c
      → c.op_ch ≡ op ∷ ops
      → Goes c (taken ops c)
  taken-Goes op ops c v e =
      let v' : IsSoundFor c.heap c.next_address c.contacts c.contact_nicknames (op ∷ ops) =
        subst (IsSoundFor c.heap c.next_address c.contacts c.contact_nicknames) e v in
      Goes-quiet
        (record {
          by_name = v.by_name;
          by_id = v.by_id;
          each = v.each;
          distinct = v.distinct;
          requests = v'.requests.1;
          room = omega (arith, v'.room);
        })
        (λ p id n x. x) refl

  next_operation-Keeps : (y : Yields R) → Keeps nothing (next_operation env y)
  next_operation-Keeps y = record {
    at = λ c v h. elim (next_operation_lem y c) [
      | inl (_, e) ↦ subst (λ r. Goes c r.1) (sym e) (Goes-refl c v)
      | inr (op, ops, waiting, e) ↦
          let g = taken-Goes op ops c v waiting in
          subst (λ r. Goes c r.1) (sym e)
            (Goes-trans g ((work_on-Keeps y op).at (taken ops c) g.sound tt))
    ];
  }

  read_timer_fires-Keeps :
      (draw : ℕ) (sent : Result Bytes Err) (l : Loop)
      → Keeps nothing (read_timer_fires env draw sent l)
  unfolding read_timer_fires
  read_timer_fires-Keeps draw sent l = search (actions_rules, send_read_inbox-Keeps)

  pub turn-Keeps : (l : Loop) (t : Turn R) → Keeps nothing (turn env l t)
  unfolding turn
  turn-Keeps l halt = search (actions_rules, stop_contact_timers-Keeps, halt_key_exchanges-Keeps)
  turn-Keeps l (gc_messages now) = search actions_rules
  turn-Keeps l (read_inbox draw sent) = search (actions_rules, read_timer_fires-Keeps)
  turn-Keeps l (operation y) = search (actions_rules, next_operation-Keeps)
  turn-Keeps l (panda_update restart faults update) =
      search (actions_rules, process_panda_update-Keeps)
  turn-Keeps l (reunion_update faults update) = search (actions_rules, process_reunion_update-Keeps)
  turn-Keeps l (message_id_garbage_collected key) =
      search (actions_rules, garbage_collect_send_map-Keeps)
  turn-Keeps l (connection_status_event draw event) = search actions_rules
  turn-Keeps l (message_sent_event event) = search (actions_rules, handle_sent-Keeps)
  turn-Keeps l (message_reply_event sent now random event) =
      search (actions_rules, handle_reply-Keeps)
  turn-Keeps l (new_document_event draw doc) = Keeps-pure _
  turn-Keeps l unknown_event = search actions_rules

  pub start_worker-Keeps :
      (draw : ℕ) (doc : Option Document) → Keeps nothing (start_worker env draw doc)
  unfolding start_worker
  start_worker-Keeps draw none = search actions_rules
  start_worker-Keeps draw (some doc) = Keeps-pure _
