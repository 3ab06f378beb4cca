-- ===== src/Client/Examples/Exchanges.antt =====
-- Updates of the key exchanges with a pending contact.
use catshadow.Prelude.{
  ℕ, ◌≡◌, ap, refl, Bytes, [], ◌∷◌, none, some, ok, lookup, inr, nat_comparable,
}
use catshadow.Queue.{new_queue}
use catshadow.Contact.{foreign}
use catshadow.Client.{Client, done, panicked, nil_pointer}
use catshadow.Client.Messaging.{do_send_message}
use catshadow.Client.Exchanges.{
  PandaUpdate, ReunionUpdate, process_panda_update, process_reunion_update,
}
use catshadow.Client.Exchanges.Panda.{process_panda_update-then_sending_panics, IsKnown, IsFinal}
use catshadow.Client.Exchanges.Reunion.{process_reunion_update-pairs_once, IsFor}
use catshadow.Client.Examples.{env, carol, client, no_faults, bobs_spool}

abbrev c : Client ℕ
c = client new_queue []

abbrev panda_result : Bytes → PandaUpdate
panda_result b = record { id = 43; error = none; serialised = none; result = some b }

carol-IsKnown : IsKnown env 43 8 carol c
unfolding lookup
carol-IsKnown = record { by_id = refl; by_nickname = refl; at = refl }

result-IsFinal : (b : Bytes) → IsFinal env 43 b (panda_result b)
result-IsFinal b = record { to = refl; fine = refl; no_snapshot = refl; yields = refl }

process_panda_update-then_sending_panics_example :
    (do_send_message env 5
      (ok [])
      no_faults
      (0 ∷ 0 ∷ 0 ∷ 9 ∷ [])
      "carol"
      (104 ∷ [])
      (process_panda_update env none no_faults (panda_result (1 ∷ [])) c).1).0
    ≡ panicked nil_pointer
process_panda_update-then_sending_panics_example =
    (process_panda_update-then_sending_panics env none no_faults no_faults (panda_result (1 ∷ []))
      (1 ∷ []) 43 8 carol 5 (ok []) (0 ∷ 0 ∷ 0 ∷ 9 ∷ []) (104 ∷ []) c carol-IsKnown
      (result-IsFinal (1 ∷ []))
      (inr (
        record { spool_write_descriptor = some bobs_spool; signed_key_exchange = some [] },
        foreign 2,
        0,
        refl,
        refl,
      ))
      refl).1

abbrev panda_snapshot : PandaUpdate
panda_snapshot = record { id = 43; error = none; serialised = some (6 ∷ []); result = none }

abbrev reunion_result : ReunionUpdate
reunion_result = record {
  contact_id = 43;
  exchange_id = 5;
  error = none;
  serialized = none;
  result = some (1 ∷ 2 ∷ []);
}

reunion-IsFor : IsFor env reunion_result 8 carol c
unfolding lookup
reunion-IsFor = record { by_id = refl; at = refl }

process_reunion_update-pairs_once_example :
    (process_reunion_update env no_faults reunion_result
      (process_reunion_update env no_faults reunion_result c).1).0
    ≡ done tt
process_reunion_update-pairs_once_example =
    ap (λ r. r.0)
      (process_reunion_update-pairs_once env no_faults no_faults reunion_result reunion_result
        (1 ∷ 2 ∷ []) 8 carol
        (record { spool_write_descriptor = some bobs_spool; signed_key_exchange = some (2 ∷ []) })
        10 c reunion-IsFor refl refl refl refl refl refl refl).1

abbrev reunion_failure : ReunionUpdate
reunion_failure = record reunion_result { error = some (foreign 7); result = none }
