-- ===== src/Client/Examples/Launch.antt =====
-- The toy client starts: with PANDA, and with Reunion where a transport exists or none does.
use catshadow.Prelude.{
  ℕ, ◌≡◌, refl, true, Map, [], ◌∷◌, some, none, lookup, inl, nat_comparable, string_comparable,
}
use catshadow.Contact.{BoundExchange, Contact}
use catshadow.Contact.Codec.{emptied}
use catshadow.Client.{Client, Env, retransmit}
use catshadow.Client.Registry.Meeting.{Transport}
use catshadow.Client.Launch.{Launch, requests, resume_exchanges, start}
use catshadow.Client.Launch.Waiting.{start-requests, waiting}
use catshadow.Client.Launch.Forgotten.{resume_exchanges-forgets}
use catshadow.Client.Examples.{env, bob, carol, client, two_waiting}

abbrev pub launch : Launch
launch = record {
  now = λ n id. 0;
  document = none;
  from_snapshot = λ s tr. none;
  from_state = λ s. none;
}

abbrev before : Client ℕ
before = client two_waiting []

start-requests_example :
    (start env launch before).1.op_ch ≡ requests (waiting before.heap before.contacts)
unfolding lookup
start-requests_example =
    (start-requests env launch before (inl refl)
      ((carol, refl, λ h e. refl), ((bob two_waiting, refl, λ h e. refl), tt))).1

bob_is_prodded : requests (waiting before.heap before.contacts) ≡ retransmit 7 ∷ []
unfolding lookup requests waiting
bob_is_prodded = refl

abbrev reunion_env : Env ℕ
reunion_env = record env { reunion_enabled = some true }

abbrev exchanges : Map ℕ BoundExchange
exchanges = (5, record { serialized = some (1 ∷ []); recipient = "+r"; provider = "p3" }) ∷ []

abbrev loaded : Contact ℕ
loaded = record carol { reunion_key_exchange = some (emptied exchanges) }

abbrev transport : Transport
transport = record { recipient = "+r"; provider = "p3" }

abbrev reloaded : Client ℕ
reloaded = record before { heap = (8, loaded) ∷ [] }

resume_exchanges-forgets_example :
    (resume_exchanges launch 8 (transport ∷ []) (emptied exchanges) reloaded).1.running ≡ []
unfolding lookup
resume_exchanges-forgets_example =
    (resume_exchanges-forgets launch 8 exchanges (transport ∷ []) loaded reloaded ((λ e. cc), tt)
      refl refl).1
