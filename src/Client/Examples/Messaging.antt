-- ===== src/Client/Examples/Messaging.antt =====
-- Messages to the contact of the toy client, and the session's reports on them.
use catshadow.Prelude.{
  ℕ, ◌≡◌, refl, Bytes, [], ◌∷◌, none, some, ok, arith, lookup, string_comparable, nat_comparable,
}
use catshadow.Payload.{frame}
use catshadow.Contact.{foreign}
use catshadow.Client.{Client}
use catshadow.Client.Messaging.{SentEvent, do_send_message}
use catshadow.Client.Messaging.Egress.{IsReady, command_for, do_send_message-ready}
use catshadow.Client.Messaging.Handing.{handed_if_first}
use catshadow.Client.Examples.{
  env, bob, bobs_spool, client, no_faults, on_its_way, one_waiting, two_waiting, first,
  one_waiting-Holds,
}

abbrev hello : Bytes
hello = 104 ∷ 105 ∷ []

abbrev new_id : Bytes
new_id = 0 ∷ 0 ∷ 0 ∷ 9 ∷ []

bob-IsReady :
    IsReady env "bob" hello 7
      (bob one_waiting)
      bobs_spool
      4
      (66 ∷ frame 8 hello)
      (client one_waiting [])
unfolding lookup
bob-IsReady = record {
  named = refl;
  at = refl;
  paired = refl;
  spool = refl;
  advanced = refl;
  appended = refl;
}

do_send_message-ready_example :
    (do_send_message env 5
      (ok (1 ∷ []))
      no_faults
      new_id
      "bob"
      hello
      (client one_waiting [])).1.transmitted
    ≡ handed_if_first
        (ok (1 ∷ []))
        (first ∷ [])
        (command_for env new_id bobs_spool (66 ∷ frame 8 hello))
unfolding lookup
do_send_message-ready_example =
    (do_send_message-ready env 5 (ok (1 ∷ [])) no_faults new_id "bob" hello 7 (bob one_waiting)
      bobs_spool 4 (66 ∷ frame 8 hello) (first ∷ []) (client one_waiting []) bob-IsReady
      one_waiting-Holds (omega arith)).5

abbrev sent_event : SentEvent
sent_event = record {
  message_id = record { address = 1; value = 1 ∷ [] };
  error = none;
  reply_eta = 6;
}

abbrev failed_event : SentEvent
failed_event = record sent_event { error = some (foreign 1) }

abbrev waiting : Client ℕ
waiting = client two_waiting on_its_way
