-- ===== src/Client/Worker.antt =====
-- worker.go: the goroutine that owns the client's state. One turn of its loop is a function of what
-- the `select` receives; the timer of the garbage collection only says when. A read timer that has fired, and is not set again, is `none`.
pub mod Timing
use catshadow.Prelude.{
  ℕ, ◌*◌, ◌-◌, ◌%◌, ◌^◌, Bool, true, false, Bytes, String, List, [], ◌∷◌, Map, Option, none, some,
  Result, leb, not, if◌then◌else◌,
}
use catshadow.Disk.{Faults}
use catshadow.Contact.{Err}
use catshadow.Conversation.{garbage_collect_conversations}
use catshadow.Client.{
  Client, Env, M, SendKey, Op, add_contact, remove_contact, send_message, get_contacts,
  unknown_operation, retransmit, connection_status, done, blocked, pure, ◌>>=◌, ◌>>◌, gets, modify,
  load, store, emit, fatal, nil_document, bad_operation, bad_event,
}
use catshadow.Client.Registry.{Creation, create_contact, do_contact_removal, shut_exchange_down}
use catshadow.Client.Messaging as Messaging
use catshadow.Client.Messaging.{
  SentEvent, do_send_message, stop_timer, handle_sent, garbage_collect_send_map,
}
use catshadow.Client.Inbox.{ReplyEvent, handle_reply, send_read_inbox}
use catshadow.Client.Exchanges.{
  PandaUpdate, ReunionUpdate, process_panda_update, process_reunion_update,
}

-- What the loop reads of a consensus document: `LambdaPMaxDelay`, a uint64.
pub record Document : Type 0 where
  pub lambda_p_max_delay : ℕ

abbrev pub read_inbox_lambda_p_divisor : ℕ
read_inbox_lambda_p_divisor = 42

-- `getReadInboxInterval`, in nanoseconds, over the draw from the exponential distribution. The
-- product wraps as a uint64, and the duration as an int64, which is read as unsigned here.
unfoldable pub get_read_inbox_interval : ℕ → ℕ → ℕ
get_read_inbox_interval draw max_delay =
    let cap = max_delay * read_inbox_lambda_p_divisor % 2 ^ 64 in
    (if leb draw cap then draw else cap) * 10 ^ 6 % 2 ^ 64

-- `math.MaxInt64`
abbrev pub max_duration : ℕ
max_duration = 2 ^ 63 - 1

-- The variables of the loop, with the time for which the read timer was set last.
pub record Loop : Type 0 where
  pub is_connected : Bool
  pub doc : Document
  pub read_inbox_timer : Option ℕ

-- What the environment yields while an operation is worked on.
pub record Yields (R : Type 0) : Type 0 where
  pub now : ℕ
  pub sent : Result Bytes Err
  pub faults : Faults
  pub creation : Creation R

-- What the `select` receives, with what the environment yields while it is worked on.
pub data Turn (R : Type 0) : Type 0 where
  halt : Turn R
  gc_messages : (String → Bytes → ℕ) → Turn R
  read_inbox : ℕ → Result Bytes Err → Turn R
  operation : Yields R → Turn R
  panda_update : Option Err → Faults → PandaUpdate → Turn R
  reunion_update : Faults → ReunionUpdate → Turn R
  message_id_garbage_collected : SendKey → Turn R
  connection_status_event : ℕ → Bool → Turn R
  message_sent_event : SentEvent → Turn R
  message_reply_event : Result Bytes Err → ℕ → Option Bytes → ReplyEvent → Turn R
  new_document_event : ℕ → Document → Turn R
  unknown_event : Turn R

-- The loop's variables after a connection event.
unfoldable pub reconnect : ℕ → Bool → Loop → Loop
reconnect draw event l =
    if event
    then if l.is_connected then l else record l {
      is_connected = true;
      read_inbox_timer = some (get_read_inbox_interval draw l.doc.lambda_p_max_delay);
    }
    else record l { is_connected = false; read_inbox_timer = some max_duration }

module _ {R : Type 0} (env : Env R) where
  -- `stopContactTimers`
  unfoldable pub stop_contact_timers : Map ℕ ℕ → M R (Unit {0})
  stop_contact_timers [] = pure tt
  stop_contact_timers ((_, p) ∷ ids) =
      let rest = stop_contact_timers ids in
      load p >>= λ contact. store p (stop_timer env contact) >> rest

  -- `haltKeyExchanges`
  unfoldable pub halt_key_exchanges : Map ℕ ℕ → M R (Unit {0})
  halt_key_exchanges [] = pure tt
  halt_key_exchanges ((_, p) ∷ ids) =
      let rest = halt_key_exchanges ids in shut_exchange_down env p >> rest

  -- The switch on an operation. The error of `createContact` is logged.
  unfoldable pub work_on : Yields R → Op → M R (Unit {0})
  work_on y (add_contact name secret) = create_contact env y.creation name >>= λ _. pure tt
  work_on y (remove_contact name) = do_contact_removal env y.faults name
  work_on y (send_message id name payload) =
      do_send_message env y.now y.sent y.faults id name payload
  work_on y get_contacts = pure tt
  work_on y unknown_operation = fatal bad_operation
  work_on y (retransmit p) = Messaging.send_message y.sent p

  -- `qo = <-c.opCh`; where the channel is empty, this case of the `select` is not ready.
  unfoldable pub next_operation : Yields R → M R (Unit {0})
  next_operation y = do
    ops ← gets (λ c. c.op_ch)
    elim ops [ [] ↦ pure tt | op ∷ rest ↦ do modify λ c. record c { op_ch = rest }; work_on y op ]

  -- The read timer fires.
  unfoldable pub read_timer_fires : ℕ → Result Bytes Err → Loop → M R Loop
  read_timer_fires draw sent l =
      if l.is_connected
      then (do
        send_read_inbox env sent
        pure (record l {
          read_inbox_timer = some (get_read_inbox_interval draw l.doc.lambda_p_max_delay);
        }))
      else pure (record l { read_inbox_timer = none })

  -- One turn of the loop in `worker`; `none` if it returns.
  unfoldable pub turn : Loop → Turn R → M R (Option Loop)
  turn l halt = do
    ids ← gets (λ c. c.contacts)
    stop_contact_timers ids
    halt_key_exchanges ids
    pure none
  turn l (gc_messages now) = do
    modify λ c. record c { conversations = garbage_collect_conversations now c.conversations }
    pure (some l)
  turn l (read_inbox draw sent) = do l' ← read_timer_fires draw sent l; pure (some l')
  turn l (operation y) = do next_operation y; pure (some l)
  turn l (panda_update restart faults update) = do
    process_panda_update env restart faults update
    pure (some l)
  turn l (reunion_update faults update) = do process_reunion_update env faults update; pure (some l)
  turn l (message_id_garbage_collected key) = do garbage_collect_send_map key; pure (some l)
  turn l (connection_status_event draw event) = do
    emit (connection_status event)
    pure (some (reconnect draw event l))
  turn l (message_sent_event event) = do handle_sent env event; pure (some l)
  turn l (message_reply_event sent now random event) = do
    handle_reply env sent now random event
    pure (some l)
  turn l (new_document_event draw doc) = pure (
      some (record l {
        doc = doc;
        read_inbox_timer = some (get_read_inbox_interval draw doc.lambda_p_max_delay);
      }))
  turn l unknown_event = do fatal bad_event; pure none

  -- The start of `worker`: without a document it gives up.
  unfoldable pub start_worker : ℕ → Option Document → M R (Option Loop)
  start_worker draw none = do fatal nil_document; pure none
  start_worker draw (some doc) = pure (
      some (record {
        is_connected = true;
        doc = doc;
        read_inbox_timer = some (get_read_inbox_interval draw doc.lambda_p_max_delay);
      }))
