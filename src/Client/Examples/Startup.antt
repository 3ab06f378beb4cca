-- ===== src/Client/Examples/Startup.antt =====
-- The toy client saved and restored, and one of its contacts encoded and decoded.
use catshadow.Prelude.{
  ℕ, ◌≡◌, refl, true, Bytes, Map, Option, [], ◌∷◌, some, none, Result, ok, err, arith,
}
use catshadow.Queue.{new_queue}
use catshadow.Disk.{Disk}
use catshadow.Contact.{BoundExchange, Contact, Err, foreign, is_open}
use catshadow.Contact.Codec.{
  Codec, SerializedContact, to_serialized_contact, marshal_contact, unmarshal_contact,
  unmarshal_contact-marshal_contact,
}
use catshadow.Client.{State}
use catshadow.Client.Examples.{bob, carol, one_waiting, reader}

abbrev pub saved : State ℕ
saved = record {
  spool_read_descriptor = some reader;
  contacts = carol ∷ bob one_waiting ∷ [];
  user = "alice";
  provider = "p1";
  link_key = [];
  conversations = [];
}

abbrev pub empty_disk : Disk
empty_disk = record { files = []; past = [] }

-- The pending contact with a Reunion exchange that has a snapshot.
abbrev meeting : Contact ℕ
meeting = record carol {
  reunion_key_exchange =
      some ((5, record { serialized = some (1 ∷ []); recipient = "+r"; provider = "p3" }) ∷ []);
}

abbrev forgotten : Option (Map ℕ BoundExchange)
forgotten = some ((5, record { serialized = none; recipient = ""; provider = "" }) ∷ [])

-- Libraries that know this contact only.
abbrev to_serialized_contact_of : Bytes → SerializedContact
to_serialized_contact_of b = record {
  id = 43;
  nickname = "carol";
  is_pending = true;
  key_exchange = none;
  panda_key_exchange = some (5 ∷ []);
  panda_result = none;
  reunion_key_exchange = none;
  reunion_result = some [];
  ratchet = b;
  spool_write_descriptor = none;
  outbound = new_queue;
}

abbrev read_ratchet : ℕ → Bytes → Result ℕ Err
read_ratchet fresh [] = err (foreign 1)
read_ratchet fresh (n ∷ b) = ok n

abbrev codec : Codec ℕ
codec = record {
  marshal = λ s. ok s.ratchet;
  unmarshal = λ b. ok (record (to_serialized_contact_of b) { reunion_key_exchange = forgotten });
  marshal_ratchet = λ n. ok (n ∷ []);
  unmarshal_ratchet = read_ratchet;
}

unmarshal_contact-marshal_contact_example :
    unmarshal_contact codec (ok 0) (0 ∷ []) (bob one_waiting) ≡ (
      none,
      record meeting {
        reunion_key_exchange = forgotten;
        panda_shutdown_chan = some is_open;
        rtx = none;
      },
    )
unfolding marshal_contact to_serialized_contact
unmarshal_contact-marshal_contact_example =
    unmarshal_contact-marshal_contact codec meeting (bob one_waiting) 0 (0 ∷ [])
      (λ blob b e. ground (arith, e)) (λ fresh b e. ground (arith, e)) refl
