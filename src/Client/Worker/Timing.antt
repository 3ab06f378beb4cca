-- ===== src/Client/Worker/Timing.antt =====
-- The read timer of `worker`: as long as the client is connected it runs, so the inbox is read again.
use catshadow.Prelude.{
  Bool, ℕ, ◌*◌, ◌≤◌, ◌^◌, ◌≡◌, refl, ap, ◌∙◌, sym, subst, true, false, none, some, Result, Bytes,
  arith, Bool-cases, inl, inr,
}
use catshadow.Contact.{Err}
use catshadow.Client.{
  fatal, bad_event, Client, Env, M, done, ◌>>=◌, ◌>>◌, pure, emit, connection_status,
}
use catshadow.Client.Steps.{ends, bind_done, bind_panicked, bind_blocked}
use catshadow.Client.Messaging.{garbage_collect_send_map, handle_sent}
use catshadow.Client.Exchanges.{process_panda_update, process_reunion_update}
use catshadow.Client.Inbox.{handle_reply, send_read_inbox}
use catshadow.Client.Worker.{
  Loop, Document, Turn, halt, gc_messages, read_inbox, operation, panda_update, reunion_update,
  message_id_garbage_collected, connection_status_event, message_sent_event, message_reply_event,
  new_document_event, unknown_event, get_read_inbox_interval, read_inbox_lambda_p_divisor,
  reconnect, read_timer_fires, turn, start_worker, stop_contact_timers, halt_key_exchanges,
  next_operation,
}

-- Connected, the loop has set the read timer, for no longer than its document's delay lets it.
abbrev pub IsTimed : Loop → Type 0
IsTimed l =
    l.is_connected ≡ true
    → (d : ℕ) × (l.read_inbox_timer ≡ some d)
      × (d ≤ l.doc.lambda_p_max_delay * read_inbox_lambda_p_divisor * 10 ^ 6)

get_read_inbox_interval_lem :
    (draw max_delay : ℕ)
    → get_read_inbox_interval draw max_delay ≤ max_delay * read_inbox_lambda_p_divisor * 10 ^ 6
unfolding get_read_inbox_interval
get_read_inbox_interval_lem draw max_delay = ground arith

-- A call in two parts that returns has returned from the first, and then from the second.
goes_through :
    {R A B P : Type 0} (m : M R A) (k : A → M R B) (b : B) (c : Client R)
    → ((m >>= k) c).0 ≡ done b
    → ((a : A) (c' : Client R) → m c ≡ (done a, c') → (k a c').0 ≡ done b → P)
    → P
goes_through m k b c e f = elim (ends (m c)) [
  | inl (a, h) ↦ f a (m c).1 h (ap (λ r. r.0) (sym (bind_done m k c (m c).1 a h)) ∙ e)
  | inr (inl (p, h)) ↦ absurd (ground (arith, e, bind_panicked m k c (m c).1 p h))
  | inr (inr h) ↦ absurd (ground (arith, e, bind_blocked m k c (m c).1 h))
]

module _ {R : Type 0} (env : Env R) where
  -- A call that ends by passing the loop's variables on keeps what they are.
  passes-IsTimed :
      {A : Type 0} (m : M R A) (l₁ l' : Loop) (c : Client R)
      → ((m >>= λ _. pure (some l₁)) c).0 ≡ done (some l')
      → IsTimed l₁
      → IsTimed l'
  unfolding ◌>>=◌
  passes-IsTimed m l₁ l' c e v =
      goes_through m (λ _. pure (some l₁)) (some l') c e
        (λ a c' h h'. let same : l₁ ≡ l' = ground (arith, h') in subst IsTimed same v)

  reconnect-IsTimed :
      (draw : ℕ) (event : Bool) (l : Loop) → IsTimed l → IsTimed (reconnect draw event l)
  unfolding reconnect
  reconnect-IsTimed draw true l v = elim (Bool-cases l.is_connected) [
    | inl h ↦ let same : l ≡ reconnect draw true l = ground (arith, h) in subst IsTimed same v
    | inr h ↦ rw h (λ _. (_, refl, get_read_inbox_interval_lem draw l.doc.lambda_p_max_delay))
  ]
  reconnect-IsTimed draw false l v = λ e. cc

  read_timer_fires-IsTimed :
      (draw : ℕ) (sent : Result Bytes Err) (l l' : Loop) (c : Client R)
      → ((read_timer_fires env draw sent l >>= λ l₁. pure (some l₁)) c).0 ≡ done (some l')
      → IsTimed l'
  unfolding ◌>>=◌ read_timer_fires
  read_timer_fires-IsTimed draw sent l l' c e = elim (Bool-cases l.is_connected) [
    | inr off ↦ λ on. ground (arith, off, on, e)
    | inl on ↦
        let next = record l {
          read_inbox_timer = some (get_read_inbox_interval draw l.doc.lambda_p_max_delay);
        } in
        let e' : ((send_read_inbox env sent >>= λ _. pure (some next)) c).0 ≡ done (some l') =
          ground (arith, on, e) in
        passes-IsTimed (send_read_inbox env sent) next l' c e'
          (λ _. (_, refl, get_read_inbox_interval_lem draw l.doc.lambda_p_max_delay))
  ]

  -- Whatever the worker receives, a turn of its loop that goes on leaves the read timer running if the
  -- client is connected then.
  pub turn-IsTimed :
      (t : Turn R) (l l' : Loop) (c : Client R)
      → (turn env l t c).0 ≡ done (some l')
      → IsTimed l
      → IsTimed l'
  unfolding ◌>>=◌ turn garbage_collect_send_map
  turn-IsTimed halt l l' c e v =
      goes_through (stop_contact_timers env c.contacts)
        (λ _. halt_key_exchanges env c.contacts >> pure none) (some l') c e
        (λ a c₁ h h'.
          goes_through (halt_key_exchanges env c.contacts) (λ _. pure none) (some l') c₁ h'
            (λ b c₂ k k'. ground (arith, k')))
  turn-IsTimed (gc_messages now) l l' c e v =
      let same : l ≡ l' = ground (arith, e) in subst IsTimed same v
  turn-IsTimed (read_inbox draw sent) l l' c e v = read_timer_fires-IsTimed draw sent l l' c e
  turn-IsTimed (operation y) l l' c e v = passes-IsTimed (next_operation env y) l l' c e v
  turn-IsTimed (panda_update restart faults update) l l' c e v =
      passes-IsTimed (process_panda_update env restart faults update) l l' c e v
  turn-IsTimed (reunion_update faults update) l l' c e v =
      passes-IsTimed (process_reunion_update env faults update) l l' c e v
  turn-IsTimed (message_id_garbage_collected key) l l' c e v =
      let same : l ≡ l' = ground (arith, e) in subst IsTimed same v
  turn-IsTimed (connection_status_event draw event) l l' c e v =
      passes-IsTimed (emit (connection_status event)) (reconnect draw event l) l' c e
        (reconnect-IsTimed draw event l v)
  turn-IsTimed (message_sent_event event) l l' c e v =
      passes-IsTimed (handle_sent env event) l l' c e v
  turn-IsTimed (message_reply_event sent now random event) l l' c e v =
      passes-IsTimed (handle_reply env sent now random event) l l' c e v
  turn-IsTimed (new_document_event draw doc) l l' c e v =
      let next = record l {
        doc = doc;
        read_inbox_timer = some (get_read_inbox_interval draw doc.lambda_p_max_delay);
      } in
      let same : next ≡ l' = ground (arith, e) in
      subst IsTimed same (λ _. (_, refl, get_read_inbox_interval_lem draw doc.lambda_p_max_delay))
  turn-IsTimed unknown_event l l' c e v = absurd (ground (arith, e, ends (fatal bad_event c)))

  -- What the worker has come to: the loop's variables and the client's state, after any number of
  -- turns since it started with a document. The other goroutines change the channel of operations
  -- and the conversations meanwhile, that is, the client's state between two turns in any way.
  pub data Reaches : Loop → Type 0 where
    starts :
        {l : Loop}
        → (draw : ℕ) (doc : Document) (c : Client R)
        → (start_worker env draw (some doc) c).0 ≡ done (some l)
        → Reaches l
    turns :
        {l l' : Loop}
        → (t : Turn R) (c : Client R) → Reaches l
        → (turn env l t c).0 ≡ done (some l')
        → Reaches l'

  -- However long the worker runs, and whatever it receives: while the client is connected, the read
  -- timer is set, to a time that the document's delay bounds.
  pub worker-IsTimed : (l : Loop) → Reaches l → IsTimed l
  unfolding ◌>>=◌ start_worker
  worker-IsTimed l (starts draw doc c e) =
      let first : Loop = record {
        is_connected = true;
        doc = doc;
        read_inbox_timer = some (get_read_inbox_interval draw doc.lambda_p_max_delay);
      } in
      let same : first ≡ l = ground (arith, e) in
      subst IsTimed same (λ _. (_, refl, get_read_inbox_interval_lem draw doc.lambda_p_max_delay))
  worker-IsTimed l (turns {l = l₀} t c r e) = turn-IsTimed t l₀ l c e (worker-IsTimed l₀ r)
