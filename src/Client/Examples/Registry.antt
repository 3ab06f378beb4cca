-- ===== src/Client/Examples/Registry.antt =====
-- Contacts that come and go.
use catshadow.Prelude.{
  Bytes, ◌<◌, ◌^◌, arith, string_comparable, ok, err, ℕ, ◌≡◌, ◌≢◌, ◌⊎◌, refl, Map, [], ◌∷◌, none,
  some, lookup, inl, inr, nat_comparable, arith,
}
use catshadow.Queue.{new_queue}
use catshadow.Client.{done, panicked, closed_twice, save_failed}
use catshadow.Client.Registry.{uint64, rand_id, do_contact_removal}
use catshadow.Client.Registry.{Creation, create_contact}
use catshadow.Client.Registry.Meeting.{MeetingPlaces}
use catshadow.Client.Registry.Addition.{Succeeds, create_contact-once}
use catshadow.Contact.{Contact, foreign, already_exists, new_contact}
use catshadow.Client.Registry.Ids.{rand_id_first, rand_id_bounds}
use catshadow.Client.Registry.Removal.{Removed, HasClosed, do_contact_removal-Removed}
use catshadow.Client.Examples.{env, carol, client, no_faults}

abbrev contacts : Map ℕ ℕ
contacts = (42, 7) ∷ []

-- Zero and the ID of a contact are drawn before a number that is free.
rand_id_first_example :
    rand_id contacts (some (0 ∷ 0 ∷ []) ∷ some (42 ∷ []) ∷ some (1 ∷ 1 ∷ []) ∷ []) ≡ done 257
unfolding uint64 lookup
rand_id_first_example =
    rand_id_first contacts ((0 ∷ 0 ∷ []) ∷ (42 ∷ []) ∷ []) (1 ∷ 1 ∷ []) []
      (inl refl, (inr (7, refl), tt)) (λ e. omega (arith, e)) refl

abbrev eight : Bytes
eight = 1 ∷ 1 ∷ 0 ∷ 0 ∷ 0 ∷ 0 ∷ 0 ∷ 0 ∷ []

rand_id_bounds_example : (257 < 2 ^ 64) × (◌≢◌ {A = ℕ} 257 0) × (lookup 257 contacts ≡ none)
unfolding uint64 lookup rand_id
rand_id_bounds_example = rand_id_bounds contacts (some eight ∷ []) 257 (refl, omega arith, tt) refl

do_contact_removal-Removed_example :
    let r = do_contact_removal env no_faults "carol" (client new_queue []) in
    (HasClosed env carol × (r ≡ (panicked closed_twice, client new_queue [])))
    ⊎ (Removed env "carol" 8 carol (client new_queue []) r.1
        × ((r.0 ≡ done tt) ⊎ (r.0 ≡ panicked save_failed)))
unfolding lookup
do_contact_removal-Removed_example =
    do_contact_removal-Removed env no_faults "carol" 8 carol (client new_queue []) refl refl

abbrev nowhere : MeetingPlaces
nowhere = record {
  document = none;
  current_epochs = λ tr. err (foreign 1);
  current_shared_randoms = λ tr. err (foreign 1);
  new_exchange = λ tr srv epoch. err (foreign 1);
}

abbrev pub creation : Creation ℕ
creation = record {
  draws = some (0 ∷ []) ∷ some (44 ∷ []) ∷ [];
  ratchet = ok 1;
  panda_exchange = ok (9 ∷ []);
  places = nowhere;
  faults = no_faults;
}

abbrev dave : Contact ℕ
dave = record carol {
  id = 44;
  nickname = "dave";
  key_exchange = some (1 ∷ []);
  panda_key_exchange = none;
  reunion_key_exchange = none;
  reunion_result = none;
  ratchet = 1;
}

dave-Succeeds : Succeeds env creation "dave" 44 dave (9 ∷ []) (client new_queue [])
unfolding lookup uint64 rand_id new_contact
dave-Succeeds = record {
  free = refl;
  drawn = refl;
  made = refl;
  configured = refl;
  no_reunion = inl refl;
  started = refl;
}

create_contact-once_example :
    let c' = (create_contact env creation "dave" (client new_queue [])).1 in
    create_contact env creation "dave" c' ≡ (done (some (already_exists "dave")), c')
create_contact-once_example =
    (create_contact-once env creation creation "dave" 44 dave (9 ∷ []) (client new_queue [])
      dave-Succeeds).6
