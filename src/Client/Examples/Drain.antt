-- ===== src/Client/Examples/Drain.antt =====
-- Both messages of the toy client reach the spool.
use catshadow.Prelude.{◌≡◌, refl, true, [], ◌∷◌, none, some, lookup, ap, arith}
use catshadow.Client.{message_delivered}
use catshadow.Client.Inbox.Draining.{Round, IsSending, drain, drain-delivers}
use catshadow.Client.Examples.{
  env, bob, client, on_its_way, two_waiting, first, second, two_waiting-Holds,
}

abbrev round : Round
round = record {
  event = record { message_id = record { address = 1; value = 1 ∷ [] }; payload = 4 ∷ 1 ∷ [] };
  response = record { message_id = 4; is_ok = true; message = 1 ∷ [] };
  now = 5;
  random = none;
  next_id = 2 ∷ [];
}

abbrev last_round : Round
last_round = record round {
  event = record { message_id = record { address = 2; value = 2 ∷ [] }; payload = 4 ∷ 1 ∷ [] };
  next_id = 3 ∷ [];
}

bob-IsSending : IsSending env "bob" 7 (1 ∷ []) (first ∷ second ∷ []) (client two_waiting on_its_way)
unfolding lookup
bob-IsSending = record {
  contact = bob two_waiting;
  at = refl;
  queue = two_waiting-Holds;
  same = refl;
  named = refl;
  entry = λ cmd rest e.
      let same : first ≡ cmd = ground (arith, e) in
      ap (λ x. some (record { nickname = "bob"; message_id = x.id })) same;
}

drain-delivers_example :
    (drain env (round ∷ last_round ∷ []) (client two_waiting on_its_way)).1.event_ch
    ≡ message_delivered "bob" first.id ∷ message_delivered "bob" second.id ∷ []
drain-delivers_example =
    (drain-delivers env "bob" 7 (1 ∷ []) (first ∷ second ∷ []) (round ∷ last_round ∷ [])
      (client two_waiting on_its_way) (λ e. cc) bob-IsSending
      (refl, refl, refl, (refl, refl, refl, tt)) refl).4
