-- ===== src/Client/Data.antt =====
-- client.go, disk.go, events.go, message.go, operations.go: the data of the client, its state, and what
-- other repositories compute for it.
use catshadow.Prelude.{
  ℕ, Bool, true, false, Bytes, String, List, Map, Option, Result, Comparable, bytes_comparable,
  nat_comparable, string_comparable, bytes_beq, bytes_beq_iff, nat_beq, nat_beq_iff, ◌≡◌, ◌↔◌,
  arith,
}
use catshadow.Payload.{Slice}
use catshadow.Disk.{Disk, Crypto, StateWriter}
use catshadow.Contact.Codec.{Codec}
use catshadow.Contact.{Contact, ContactExchange, Err, SpoolReadDescriptor, SpoolWriteDescriptor}
use catshadow.Conversation.{Conversations}

-- A key of the `sync.Map`: what an interface holds that was made of an array, or of a pointer to
-- one. Keys are equal if they hold the same type and the same array or address.
pub data SendKey : Type 0 where
  by_value : Bytes → SendKey
  by_pointer : ℕ → SendKey

abbrev pub send_key_beq : SendKey → SendKey → Bool
send_key_beq (by_value a) (by_value b) = bytes_beq a b
send_key_beq (by_value a) (by_pointer q) = false
send_key_beq (by_pointer p) (by_value b) = false
send_key_beq (by_pointer p) (by_pointer q) = nat_beq p q

pub send_key_beq_iff : (a b : SendKey) → (send_key_beq a b ≡ true) ↔ (a ≡ b)
send_key_beq_iff (by_value a) (by_value b) =
    (λ e. ground (arith, bytes_beq_iff a b), λ e. ground (arith, bytes_beq_iff a b))
send_key_beq_iff (by_value a) (by_pointer q) = (λ e. cc, λ e. cc)
send_key_beq_iff (by_pointer p) (by_value b) = (λ e. cc, λ e. cc)
send_key_beq_iff (by_pointer p) (by_pointer q) =
    (λ e. ground (arith, nat_beq_iff p q), λ e. ground (arith, nat_beq_iff p q))

instance abbrev pub send_key_comparable : Comparable SendKey
send_key_comparable = record { same = send_key_beq; same_iff = send_key_beq_iff }

-- A pointer to an array, with the array.
pub record Pointer : Type 0 where
  pub address : ℕ
  pub value : Bytes

-- message.go
pub record SentMessageDescriptor : Type 0 where
  pub nickname : String
  pub message_id : Bytes

-- The events of events.go, and the connection status that is passed on.
pub data Event : Type 0 where
  key_exchange_completed : String → Option Err → Event
  message_not_sent message_sent message_delivered : String → Bytes → Event
  message_received : String → Bytes → ℕ → Event
  connection_status : Bool → Event

-- The operations of operations.go, with a contact named by its address, and any other value that the
-- channel, which is one of `interface{}`, can carry.
pub data Op : Type 0 where
  add_contact : String → Bytes → Op
  remove_contact : String → Op
  send_message : Bytes → String → Bytes → Op
  get_contacts unknown_operation : Op
  retransmit : ℕ → Op

-- Why the process stops with a panic.
pub data Panic : Type 0 where
  nil_pointer nil_map out_of_range closed_twice random_failed save_failed no_panda_config
        bad_exchange contact_not_found contact_missing not_requested_yet :
      Panic

-- `blocked`: the goroutine waits for ever, on a channel that only it reads or that nobody reads.
pub data Outcome (A : Type 0) : Type 0 where
  done : A → Outcome A
  panicked : Panic → Outcome A
  blocked : Outcome A

-- What is written to `fatalErrCh`.
pub data Fatal : Type 0 where
  bad_spool_response : Err → Fatal
  no_read_command no_randomness nil_document bad_operation bad_event : Fatal

-- `State` of disk.go.
pub record State (R : Type 0) : Type 0 where
  pub spool_read_descriptor : Option SpoolReadDescriptor
  pub contacts : List (Contact R)
  pub user : String
  pub provider : String
  pub link_key : Bytes
  pub conversations : Conversations

pub record SpoolResponse : Type 0 where
  pub message_id : ℕ
  pub is_ok : Bool
  pub message : Bytes

-- A key exchange that runs in its own goroutine.
pub data Exchange : Type 0 where
  panda : ℕ → Exchange
  reunion : ℕ → Exchange

-- A message handed to the mixnet session.
pub record Transmission : Type 0 where
  pub message_id : Bytes
  pub receiver : String
  pub provider : String
  pub command : Bytes

-- `State` with each contact as `MarshalBinary` writes it, which is how the cbor library sees it.
pub record SerializedState : Type 0 where
  pub spool_read_descriptor : Option SpoolReadDescriptor
  pub contacts : List Bytes
  pub user : String
  pub provider : String
  pub link_key : Bytes
  pub conversations : Conversations

-- The cbor library at the types of the state and of a contact, and the ratchet's encoding. A contact
-- that was just allocated has the ratchet `nil_ratchet`; `init_ratchet` is what `InitRatchet` returns.
pub record StateCodec (R : Type 0) : Type 0 where
  pub contact_codec : Codec R
  pub marshal : SerializedState → Result Bytes Err
  pub unmarshal : Bytes → Option SerializedState
  pub nil_ratchet : R
  pub init_ratchet : Result R Err

-- What other repositories compute (the ratchet, the spool protocol, cbor, secretbox), and the
-- client's fields that never change: the session's configuration and the state writer.
pub record Env (R : Type 0) : Type 0 where
  pub encrypt : R → Bytes → Bytes × R
  pub decrypt : R → Bytes → Result Slice Err × R
  pub process_key_exchange : R → Option Bytes → Option Err × R
  pub payload_length : ℕ
  pub append_to_spool : Bytes → Bytes → Result Bytes Err
  pub read_from_spool : Bytes → ℕ → Bytes → Result Bytes Err
  pub spool_response_from_bytes : Bytes → Result SpoolResponse Err
  pub get_write_descriptor : SpoolReadDescriptor → SpoolWriteDescriptor
  pub increment_offset : SpoolReadDescriptor → SpoolReadDescriptor
  pub create_key_exchange : R → Result Bytes Err
  pub marshal_contact_exchange : ContactExchange → Result Bytes Err
  pub unmarshal_contact_exchange : Bytes → Result ContactExchange Err
  pub state_codec : StateCodec R
  pub crypto : Crypto (State R)
  pub state_worker : StateWriter
  pub user : String
  pub provider : String
  pub link_key : Bytes
  pub panda_configured : Bool
  pub reunion_enabled : Option Bool

-- `Client`, with the contacts that its maps and operations point to on a heap. `op_ch` is the
-- buffered channel, `event_ch` the infinite one; `fatal_err` is the error that the watcher has
-- received. `transmitted` and `running` record what was handed to the session and started.
pub record Client (R : Type 0) : Type 0 where
  pub heap : Map ℕ (Contact R)
  pub next_address : ℕ
  pub contacts : Map ℕ ℕ
  pub contact_nicknames : Map String ℕ
  pub conversations : Conversations
  pub send_map : Map SendKey SentMessageDescriptor
  pub spool_read_descriptor : Option SpoolReadDescriptor
  pub op_ch : List Op
  pub event_ch : List Event
  pub fatal_err : Option Fatal
  pub transmitted : List Transmission
  pub running : List Exchange
  pub disk : Disk
