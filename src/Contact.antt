-- ===== src/Contact.antt =====
-- contact.go and the types of client.go that a contact is made of. A Go pointer to a contact is an
-- address of the client's heap (Client.antt). The ratchet is another repository's: its type is the
-- parameter `R`.
pub mod Codec
use catshadow.Prelude.{ℕ, Bool, true, Bytes, String, Map, Option, none, some, Result, ok, err}
use catshadow.Queue.{Queue, new_queue}

-- The errors of other repositories, of which only the reply timeout is told apart, and those that
-- this program makes of them.
pub data Err : Type 0 where
  reply_timeout : Err
  foreign : ℕ → Err
  echoed_exchange : Err
  parse_failure ratchet_failure : Err → Err
  reunion_parse_failure reunion_ratchet_failure : ℕ → Err → Err
  already_exists : String → Err
  both_configured : Err
  no_document missing_endpoint no_transports : Err

pub record SpoolWriteDescriptor : Type 0 where
  pub id : Bytes
  pub receiver : String
  pub provider : String

pub record SpoolReadDescriptor : Type 0 where
  pub id : Bytes
  pub receiver : String
  pub provider : String
  pub read_offset : ℕ
  pub private_key : Bytes

-- `contactExchange`; both pointers may be nil.
pub record ContactExchange : Type 0 where
  pub spool_write_descriptor : Option SpoolWriteDescriptor
  pub signed_key_exchange : Option Bytes

-- `boundExchange`
pub record BoundExchange : Type 0 where
  pub serialized : Option Bytes
  pub recipient : String
  pub provider : String

-- A channel that is only ever closed.
pub data Signal : Type 0 where
  is_open is_closed : Signal

-- A `time.Timer` made by `AfterFunc`, with its duration while it runs.
pub data Timer : Type 0 where
  armed : ℕ → Timer
  stopped : Timer

-- `Contact`, less its mutex. A nil slice, map, channel or pointer is `none`. An error's text is
-- kept as the error, the empty text as `none`.
pub record Contact (R : Type 0) : Type 0 where
  pub id : ℕ
  pub nickname : String
  pub is_pending : Bool
  pub key_exchange : Option Bytes
  pub panda_key_exchange : Option Bytes
  pub panda_shutdown_chan : Option Signal
  pub panda_result : Option Err
  pub reunion_key_exchange : Option (Map ℕ BoundExchange)
  pub reunion_result : Option (Map ℕ Err)
  pub ratchet : R
  pub spool_write_descriptor : Option SpoolWriteDescriptor
  pub outbound : Queue
  pub rtx : Option Timer

-- `NewContactExchangeBytes` hands its two arguments to `cbor.Marshal` as a `contactExchange`.
abbrev pub new_contact_exchange : SpoolWriteDescriptor → Bytes → ContactExchange
new_contact_exchange d k = record { spool_write_descriptor = some d; signed_key_exchange = some k }

-- `NewContact`: the read descriptor's write descriptor is `none` where the pointer to the read
-- descriptor is nil, and taking it then panics, which is the result `none`. `CreateKeyExchange` and
-- `cbor.Marshal` are `create` and `marshal`, the fourth argument what `InitRatchet` returns.
unfoldable pub new_contact :
    {R : Type 0}
    → String
    → ℕ
    → Option SpoolWriteDescriptor
    → Result R Err
    → (R → Result Bytes Err)
    → (ContactExchange → Result Bytes Err)
    → Option (Result (Contact R) Err)
new_contact nickname id d (err e) create marshal = some (err e)
new_contact nickname id d (ok r) create marshal = elim (create r) [
  | err e ↦ some (err e)
  | ok signed ↦ elim d [
    | none ↦ none
    | some w ↦ elim (marshal (new_contact_exchange w signed)) [
      | err e ↦ some (err e)
      | ok exchange ↦ some (
          ok (record {
            id = id;
            nickname = nickname;
            is_pending = true;
            key_exchange = some exchange;
            panda_key_exchange = none;
            panda_shutdown_chan = some is_open;
            panda_result = none;
            reunion_key_exchange = none;
            reunion_result = none;
            ratchet = r;
            spool_write_descriptor = none;
            outbound = new_queue;
            rtx = none;
          }))
    ]
  ]
]

-- `Destroy`; what `DestroyRatchet` leaves of the ratchet is the first argument.
unfoldable pub destroy : {R : Type 0} → (R → R) → Contact R → Contact R
destroy destroy_ratchet contact = record contact { ratchet = destroy_ratchet contact.ratchet }
