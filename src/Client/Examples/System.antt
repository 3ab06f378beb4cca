-- ===== src/Client/Examples/System.antt =====
-- The toy client runs: it is loaded and started, and the message that waits is sent again.
use catshadow.Prelude.{
  ◌≡◌, refl, ◌∷◌, [], Bytes, some, ok, true, false, arith, lookup, insert, ◌*◌, ◌^◌, ℕ, replicate,
  ==_iff, ◌==◌, nat_comparable, string_comparable, Result, err, List, ◌++◌, if◌then◌else◌,
}
use catshadow.Disk.{Faults}
use catshadow.Queue.{peek}
use catshadow.Client.{
  Client, Env, retransmit, done, ◌>>=◌, pure, gets, modify, load, connection_status,
}
use catshadow.Client.Registry.{add}
use catshadow.Client.Startup.{new_client, restore}
use catshadow.Client.Launch.{launch_contacts, resume, requests}
use catshadow.Client.Worker.{
  Loop, Yields, start_worker, get_read_inbox_interval, reconnect, next_operation,
}
use catshadow.Contact.{Err, foreign}
use catshadow.Contact.Codec.{SerializedContact, to_serialized_contact}
use catshadow.Client.Data.{StateCodec}
use catshadow.Client.Encoding.{serialized_state, unmarshal_state}
use catshadow.Client.Interface.{System, receives, sends_on, returned, halt_ch, enters}
use catshadow.Client.Sound.Startup.{IsRestorable}
use catshadow.Client.System.{Reachable, starts, steps, comes_in}
use catshadow.Client.Interface.{event_sink_worker}
use catshadow.Client.System.Safety.{IsSafe, Reachable-IsSafe, retransmission_returns}
use catshadow.Client.Examples.{
  env, toy_crypto, bob, carol, one_waiting, one_waiting-Holds, no_faults, first,
}
use catshadow.Client.Examples.Registry.{creation}
use catshadow.Client.Examples.Startup.{saved, empty_disk}
use catshadow.Client.Examples.Launch.{launch}
use catshadow.Queue.Refine.{new_queue-HoldsCommands}

-- A cbor library that knows the two contacts, by their IDs and ratchets, and a writer with the key of an
-- empty passphrase.
abbrev known_contact : Bytes → Result SerializedContact Err
known_contact [] = err (foreign 1)
known_contact (i ∷ r) =
    if i == 42
    then ok (to_serialized_contact env.state_codec.contact_codec (bob one_waiting) r)
    else ok (to_serialized_contact env.state_codec.contact_codec carol r)

abbrev read_ratchet : ℕ → Bytes → Result ℕ Err
read_ratchet fresh [] = err (foreign 1)
read_ratchet fresh (n ∷ b) = ok n

abbrev joined : List Bytes → Bytes
joined [] = []
joined (b ∷ bs) = b ++ joined bs

abbrev in_pairs : Bytes → List Bytes
in_pairs [] = []
in_pairs (i ∷ []) = []
in_pairs (i ∷ r ∷ b) = (i ∷ r ∷ []) ∷ in_pairs b

abbrev saving_codec : StateCodec ℕ
saving_codec = record {
  contact_codec = record {
    marshal = λ s. ok (s.id ∷ s.ratchet);
    unmarshal = known_contact;
    marshal_ratchet = λ n. ok (n ∷ []);
    unmarshal_ratchet = read_ratchet;
  };
  marshal = λ t. ok (joined t.contacts);
  unmarshal = λ b. some (serialized_state saved (in_pairs b));
  nil_ratchet = 0;
  init_ratchet = ok 0;
}

abbrev saving_env : Env ℕ
saving_env = record env {
  state_codec = saving_codec;
  crypto = record toy_crypto { unmarshal_state = unmarshal_state saving_codec };
  state_worker = record { state_file = "state"; key = replicate 32 0 };
}

saved-IsRestorable : IsRestorable saving_env saved
saved-IsRestorable = record {
  ids = (((λ e. omega (arith, e)), tt), (tt, tt));
  nicknames =
      (((λ e. ground (arith, e, ==_iff (bob one_waiting).nickname carol.nickname)), tt), (tt, tt));
  queues =
      (new_queue-HoldsCommands, (record { commands = first ∷ []; holds = one_waiting-Holds }, tt));
}

abbrev loop : Loop
loop = record {
  is_connected = true;
  doc = record { lambda_p_max_delay = 5 };
  read_inbox_timer = some (7 * 10 ^ 6);
}

abbrev loaded : Client ℕ
loaded = (resume saving_env launch (new_client saving_env saved empty_disk)).1

abbrev started : System ℕ
started = record {
  client = loaded;
  loop = some loop;
  waiting = retransmit 1 ∷ [];
  sink = receives;
  delivered = [];
  halted = false;
}

started-Reachable : Reachable saving_env saved started
unfolding ◌>>=◌ resume requests launch_contacts new_client restore add start_worker
    get_read_inbox_interval lookup insert load modify gets pure peek
started-Reachable =
    starts empty_disk launch (1 ∷ []) loaded loaded 7 (some (record { lambda_p_max_delay = 5 }))
      (some loop) refl refl

-- The request that `Start` makes comes into the channel.
abbrev prodded : System ℕ
prodded = record started { client = record loaded { op_ch = retransmit 1 ∷ [] }; waiting = [] }

prodded-Reachable : Reachable saving_env saved prodded
unfolding enters add restore new_client resume launch_contacts lookup ◌>>=◌ load modify gets pure
    peek insert
prodded-Reachable = steps started prodded started-Reachable (comes_in [] (retransmit 1) [] refl)

Reachable-IsSafe_example : IsSafe prodded
Reachable-IsSafe_example =
    Reachable-IsSafe saving_env saved prodded saved-IsRestorable prodded-Reachable

abbrev yields : Yields ℕ
yields = record { now = 0; sent = ok (9 ∷ []); faults = no_faults; creation = creation }

retransmission_returns_example : (next_operation saving_env yields prodded.client).0 ≡ done tt
unfolding add restore new_client resume launch_contacts lookup ◌>>=◌ load modify gets pure peek
    insert
retransmission_returns_example =
    (retransmission_returns saving_env saved prodded 1 [] yields saved-IsRestorable
      prodded-Reachable refl).0

-- The connection is lost, and the application is told.
abbrev lost : System ℕ
lost = record prodded {
  client = record prodded.client { event_ch = connection_status false ∷ [] };
  loop = some (reconnect 3 false loop);
}

abbrev takes : System ℕ
takes = record lost {
  client = record lost.client { event_ch = [] };
  sink = sends_on (connection_status false);
}

abbrev told : System ℕ
told = record takes { sink = receives; delivered = connection_status false ∷ [] }

-- On a halt the event in hand is lost.
halt_loses :
    (event_sink_worker halt_ch (record takes { halted = true })).sink
    ≡ returned (some (connection_status false))
unfolding event_sink_worker
halt_loses = refl

abbrev nonce_faults : Faults
nonce_faults = record no_faults { nonce = ok (replicate 24 7) }
