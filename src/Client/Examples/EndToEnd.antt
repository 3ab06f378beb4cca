-- ===== src/Client/Examples/EndToEnd.antt =====
-- A message from one toy client to another, each with a contact that stands for the other.
use catshadow.Prelude.{
  ◌≡◌, refl, Bytes, [], ◌∷◌, some, ok, inl, arith, lookup, nat_comparable, string_comparable,
}
use catshadow.Payload.{frame}
use catshadow.Conversation.{message_at}
use catshadow.Client.Inbox.{decrypt_message}
use catshadow.Client.Inbox.Decryption.{incoming}
use catshadow.Client.Messaging.Egress.{IsReady}
use catshadow.Client.EndToEnd.{Listens, do_send_message-decrypt_message}
use catshadow.Client.Examples.{
  env, bob, carol, bobs_spool, client, no_faults, one_waiting, two_waiting, first,
  one_waiting-Holds,
}

abbrev hello : Bytes
hello = 104 ∷ 105 ∷ []

abbrev new_id : Bytes
new_id = 0 ∷ 0 ∷ 0 ∷ 9 ∷ []

sender-IsReady :
    IsReady env "bob" hello 7
      (bob one_waiting)
      bobs_spool
      4
      (66 ∷ frame 8 hello)
      (client one_waiting [])
unfolding lookup
sender-IsReady = record {
  named = refl;
  at = refl;
  paired = refl;
  spool = refl;
  advanced = refl;
  appended = refl;
}

receiver-Listens :
    Listens env env (frame 8 hello) 42 7 (bob two_waiting) ((43, 8) ∷ []) [] (client two_waiting [])
unfolding lookup
receiver-Listens = record {
  order = refl;
  at = refl;
  paired = refl;
  others = ((carol, refl, inl refl), tt, tt);
  distinct = ((λ e. omega (arith, e)), tt);
}

do_send_message-decrypt_message_example :
    message_at "bob"
      (1 ∷ [])
      (decrypt_message env 6
        (some (1 ∷ []))
        (frame 8 hello)
        (client two_waiting [])).1.conversations
    ≡ some (incoming env 6 hello)
do_send_message-decrypt_message_example =
    (do_send_message-decrypt_message env env 5 6 (ok (1 ∷ [])) no_faults new_id (1 ∷ []) "bob" hello
      7 (bob one_waiting) bobs_spool 4 (66 ∷ frame 8 hello) (first ∷ []) (client one_waiting []) 42
      7 (bob two_waiting) ((43, 8) ∷ []) [] (client two_waiting []) sender-IsReady one_waiting-Holds
      (omega arith) receiver-Listens (λ plain. ([], 4, refl)) refl (omega arith) (omega arith)).3
