-- ===== src/Client/Examples.antt =====
-- A client of two contacts, with libraries that do as little as they can: a ratchet counts its uses,
-- and decrypts unless it is at zero; an appended message is its spool's command.
mod Messaging
mod Inbox
mod Registry
mod Exchanges
mod Worker
mod Startup
mod Launch
mod EndToEnd
mod System
mod Drain
mod RemoteSpool
use catshadow.Prelude.{
  ℕ, zero, suc, ◌+◌, ◌%◌, ◌^◌, ◌≡◌, refl, true, false, Bytes, String, List, [], ◌∷◌, ◌++◌, Map,
  Option, none, some, Result, ok, err, arith, length, replicate,
}
use catshadow.Payload.{Slice}
use catshadow.Fifo.{QueuedSpoolCommand}
use catshadow.Disk.{Crypto, Disk, Faults, StateWriter}
use catshadow.Queue.{Queue, new_queue}
use catshadow.Queue.Invariant.{IsValid}
use catshadow.Queue.Refine.{Holds}
use catshadow.Contact.{
  Contact, ContactExchange, Err, foreign, SpoolReadDescriptor, SpoolWriteDescriptor, is_open,
}
use catshadow.Client.Exchanges.{bytes_of}
use catshadow.Client.{Client, Env, SpoolResponse, SentMessageDescriptor, SendKey, by_value, Pointer}

abbrev pub toy_decrypt : ℕ → Bytes → Result Slice Err × ℕ
toy_decrypt zero b = (err (foreign 1), 0)
toy_decrypt (suc n) b = (ok (record { bytes = b; spare = [] }), suc (suc n))

abbrev pub toy_process : ℕ → Option Bytes → Option Err × ℕ
toy_process n none = (some (foreign 2), n)
toy_process n (some []) = (some (foreign 2), n)
toy_process n (some (x ∷ b)) = (none, 10 + n)

abbrev pub toy_response : Bytes → Result SpoolResponse Err
toy_response [] = err (foreign 3)
toy_response (n ∷ b) = ok (record { message_id = n; is_ok = true; message = b })

abbrev pub bobs_spool : SpoolWriteDescriptor
bobs_spool = record { id = 66 ∷ []; receiver = "+spool"; provider = "p2" }

abbrev pub toy_exchange : Bytes → Result ContactExchange Err
toy_exchange [] = err (foreign 4)
toy_exchange (x ∷ b) =
    ok (record { spool_write_descriptor = some bobs_spool; signed_key_exchange = some b })

abbrev pub toy_crypto : {S : Type 0} → Crypto S
toy_crypto = record {
  seal = λ plain nonce key. plain;
  open_box = λ sealed nonce key. some sealed;
  argon2_key = λ passphrase. passphrase;
  unmarshal_state = λ b. none;
  opens_sealed = λ plain nonce key. refl;
}

abbrev pub env : Env ℕ
env = record {
  encrypt = λ n b. (b, suc n);
  decrypt = toy_decrypt;
  process_key_exchange = toy_process;
  payload_length = 8;
  append_to_spool = λ id b. ok (id ++ b);
  read_from_spool = λ id offset key. ok (offset ∷ id);
  spool_response_from_bytes = toy_response;
  get_write_descriptor = λ d. record { id = d.id; receiver = d.receiver; provider = d.provider };
  increment_offset = λ d. record d { read_offset = (d.read_offset + 1) % 2 ^ 32 };
  create_key_exchange = λ n. ok (n ∷ []);
  marshal_contact_exchange = λ x. ok (bytes_of x.signed_key_exchange);
  unmarshal_contact_exchange = toy_exchange;
  state_codec = record {
    contact_codec = record {
      marshal = λ s. ok (s.id ∷ s.ratchet);
      unmarshal = λ b. err (foreign 1);
      marshal_ratchet = λ n. ok (n ∷ []);
      unmarshal_ratchet = λ n b. err (foreign 1);
    };
    marshal = λ t. ok (length t.contacts ∷ []);
    unmarshal = λ b. none;
    nil_ratchet = 0;
    init_ratchet = ok 0;
  };
  crypto = toy_crypto;
  state_worker = record { state_file = "state"; key = [] };
  user = "alice";
  provider = "p1";
  link_key = [];
  panda_configured = true;
  reunion_enabled = none;
}

abbrev pub reader : SpoolReadDescriptor
reader = record {
  id = 65 ∷ [];
  receiver = "+spool";
  provider = "p1";
  read_offset = 4;
  private_key = [];
}

abbrev pub first : QueuedSpoolCommand
first = record {
  provider = "p2";
  receiver = "+spool";
  command = 66 ∷ 1 ∷ [];
  id = 0 ∷ 0 ∷ 0 ∷ 1 ∷ [];
}

abbrev pub second : QueuedSpoolCommand
second = record {
  provider = "p2";
  receiver = "+spool";
  command = 66 ∷ 2 ∷ [];
  id = 0 ∷ 0 ∷ 0 ∷ 2 ∷ [];
}

abbrev pub bob : Queue → Contact ℕ
bob queue = record {
  id = 42;
  nickname = "bob";
  is_pending = false;
  key_exchange = none;
  panda_key_exchange = none;
  panda_shutdown_chan = some is_open;
  panda_result = none;
  reunion_key_exchange = none;
  reunion_result = none;
  ratchet = 3;
  spool_write_descriptor = some bobs_spool;
  outbound = queue;
  rtx = none;
}

-- A contact whose key exchange goes on.
abbrev pub carol : Contact ℕ
carol = record (bob new_queue) {
  id = 43;
  nickname = "carol";
  is_pending = true;
  panda_key_exchange = some (5 ∷ []);
  reunion_key_exchange = some [];
  reunion_result = some [];
  ratchet = 0;
  spool_write_descriptor = none;
}

abbrev pub no_faults : Faults
no_faults = record {
  nonce = ok [];
  opening = none;
  half_written = 0;
  writing = none;
  renaming_out = none;
  renaming_tmp = none;
}

abbrev pub descriptor : SentMessageDescriptor
descriptor = record { nickname = "bob"; message_id = 0 ∷ 0 ∷ 0 ∷ 1 ∷ [] }

-- The client, with the queue of its contact and the messages that are on their way.
abbrev pub client : Queue → Map SendKey SentMessageDescriptor → Client ℕ
client queue sends = record {
  heap = (8, carol) ∷ (7, bob queue) ∷ [];
  next_address = 9;
  contacts = (43, 8) ∷ (42, 7) ∷ [];
  contact_nicknames = ("carol", 8) ∷ ("bob", 7) ∷ [];
  conversations = [];
  send_map = sends;
  spool_read_descriptor = some reader;
  op_ch = [];
  event_ch = [];
  fatal_err = none;
  transmitted = [];
  running = [];
  disk = record { files = []; past = [] };
}

-- The message with this ID of the session is the first command for the contact.
abbrev pub on_its_way : Map SendKey SentMessageDescriptor
on_its_way = (by_value (1 ∷ []), descriptor) ∷ []

abbrev pub one_waiting : Queue
one_waiting = record new_queue { content = some first ∷ replicate 19 none; write_head = 1; len = 1 }

abbrev pub two_waiting : Queue
two_waiting = record new_queue {
  content = some first ∷ some second ∷ replicate 18 none;
  write_head = 2;
  len = 2;
}

pub one_waiting-Holds : Holds one_waiting (first ∷ [])
one_waiting-Holds = record { valid = omega arith; held = refl }

pub two_waiting-Holds : Holds two_waiting (first ∷ second ∷ [])
two_waiting-Holds = record { valid = omega arith; held = refl }
