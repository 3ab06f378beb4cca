-- ===== src/Client/Interface.antt =====
-- client.go: the methods that an application calls, and the goroutine that hands it the events. What
-- they share with the worker is the channel of operations, which takes what waits for room in any
-- order, the channel of events, the conversations and the channel of fatal errors.
pub mod Sink
pub mod Halting
use catshadow.Prelude.{
  ℕ, Bool, true, Bytes, String, List, [], ◌∷◌, ◌++◌, Option, none, some, lookup, string_comparable,
  length, leb, if◌then◌else◌, replicate,
}
use catshadow.Disk.{Faults}
use catshadow.Conversation.{Conversations, Messages}
use catshadow.Client as Parts
use catshadow.Client.{
  Client, Env, Outcome, done, panicked, blocked, Event, Op, fatal, no_randomness, op_ch_capacity,
  save,
}
use catshadow.Client.Worker.{Loop}

-- Where `eventSinkWorker` is: at its first `select`, at its second with an event in hand, or past the
-- closing of `EventSink`, with the event that it had in hand.
pub data SinkState : Type 0 where
  receives : SinkState
  sends_on : Event → SinkState
  returned : Option Event → SinkState

-- The case that a `select` of `eventSinkWorker` takes.
pub data SinkCase : Type 0 where
  halt_ch channel : SinkCase

-- The running program: the client, the variables of the worker's loop until it returns, the
-- operations of the goroutines that wait for room in `opCh`, where `eventSinkWorker` is, the events that
-- the application has been handed, and whether `HaltCh` is closed.
pub record System (R : Type 0) : Type 0 where
  pub client : Client R
  pub loop : Option Loop
  pub waiting : List Op
  pub sink : SinkState
  pub delivered : List Event
  pub halted : Bool

module _ {R : Type 0} where
  -- A goroutine comes to `c.opCh <- op`.
  unfoldable pub sends : Op → System R → System R
  sends op s = record s { waiting = s.waiting ++ op ∷ [] }

  -- One of those that wait goes on, if there is room.
  unfoldable pub enters : List Op → Op → List Op → System R → System R
  enters before op after s = if leb op_ch_capacity (length s.client.op_ch) then s else record s {
    client = record s.client { op_ch = s.client.op_ch ++ op ∷ [] };
    waiting = before ++ after;
  }

  -- `NewContact`
  unfoldable pub new_contact : String → Bytes → System R → System R
  new_contact nickname shared_secret s = sends (Parts.add_contact nickname shared_secret) s

  -- `RemoveContact`
  unfoldable pub remove_contact : String → System R → System R
  remove_contact nickname s = sends (Parts.remove_contact nickname) s

  -- `GetContacts`, up to where it waits for the worker's response.
  unfoldable pub get_contacts : System R → System R
  get_contacts s = sends Parts.get_contacts s

  -- `SendMessage`, over what the random source reads into the ID. If reading fails, the error is
  -- written to `fatalErrCh`, and the message is sent with the ID that is left, which is zero.
  unfoldable pub send_message : Option Bytes → String → Bytes → System R → Outcome Bytes × System R
  send_message (some id) nickname message s =
      (done id, sends (Parts.send_message id nickname message) s)
  send_message none nickname message s =
      let (r, c) = fatal no_randomness s.client in
      let id = replicate 4 0 in
      let s' = record s { client = c } in
      elim r [
        | done _ ↦ (done id, sends (Parts.send_message id nickname message) s')
        | panicked p ↦ (panicked p, s')
        | blocked ↦ (blocked, s')
      ]

  -- `GetConversation` and `GetAllConversations`
  unfoldable pub get_conversation : String → System R → Option Messages
  get_conversation nickname s = lookup nickname s.client.conversations

  unfoldable pub get_all_conversations : System R → Conversations
  get_all_conversations s = s.client.conversations

  -- `eventSinkWorker`: its next `select`. The channel is `eventCh` or `EventSink`, by turns; a case that
  -- is not ready is not taken.
  unfoldable pub event_sink_worker : SinkCase → System R → System R
  event_sink_worker halt_ch s =
      if s.halted
      then record s {
        sink = elim s.sink [
          | receives ↦ returned none
          | sends_on event ↦ returned (some event)
          | returned event ↦ returned event
        ];
      }
      else s
  event_sink_worker channel s = elim s.sink [
    | receives ↦ elim s.client.event_ch [
      | [] ↦ s
      | event ∷ events ↦ record s {
        client = record s.client { event_ch = events };
        sink = sends_on event;
      }
    ]
    | sends_on event ↦ record s { delivered = s.delivered ++ event ∷ []; sink = receives }
    | returned event ↦ s
  ]

  -- `Shutdown`: the save, after which the goroutines are told to halt.
  unfoldable pub shutdown : Env R → Faults → System R → Outcome (Unit {0}) × System R
  shutdown env faults s =
      let (r, c) = save env faults s.client in
      elim r [
        | done _ ↦ (done tt, record s { client = c; halted = true })
        | panicked p ↦ (panicked p, record s { client = c })
        | blocked ↦ (blocked, record s { client = c })
      ]
