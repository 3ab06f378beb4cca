-- ===== src/Client/Examples/Inbox.antt =====
-- Replies to the toy client: messages of its spool, and acknowledgements.
use catshadow.Prelude.{
  ℕ, ◌≡◌, ◌⊎◌, ◌<◌, refl, true, Bytes, [], ◌∷◌, none, some, ok, arith, lookup, insert, erase, inl,
  string_comparable, bytes_comparable, nat_comparable,
}
use catshadow.Payload.{frame}
use catshadow.Conversation.{message_at}
use catshadow.Contact.Codec.{marshal_contact}
use catshadow.Client.Encoding.{marshal_state, marshal_contacts}
use catshadow.Client.{
  snapshot, contacts_of, ◌>>=◌, load, save, Client, done, panicked, out_of_range, not_requested_yet,
  contact_not_found, SpoolResponse, message_delivered,
}
use catshadow.Client.Registry.{do_contact_removal, shut_exchange_down}
use catshadow.Disk.{
  write_state, encrypt_state_file, encrypt_state, open_tmp, write_tmp, install, rename,
}
use catshadow.Client.Messaging.{SentEvent, handle_sent}
use catshadow.Client.Inbox.{ReplyEvent, receive, handle_reply, decrypt_message}
use catshadow.Client.Inbox.Acknowledged.{Acknowledges}
use catshadow.Client.Inbox.Acknowledge.{handle_reply-acknowledged, handle_reply-duplicate}
use catshadow.Client.Inbox.Spool.{receive_order}
use catshadow.Client.Inbox.Decryption.{incoming, decrypt_message-delivers, decrypt_message-overlong}
use catshadow.Client.InFlight.{in_flight-panics}
use catshadow.Client.Examples.{
  env, bob, carol, client, no_faults, descriptor, reader, on_its_way, two_waiting, first, second,
  two_waiting-Holds,
}

abbrev reply : ReplyEvent
reply = record { message_id = record { address = 1; value = 1 ∷ [] }; payload = 4 ∷ 1 ∷ [] }

abbrev response : SpoolResponse
response = record { message_id = 4; is_ok = true; message = 1 ∷ [] }

abbrev waiting : Client ℕ
waiting = client two_waiting on_its_way

reply-Acknowledges : Acknowledges env reply response descriptor 7 waiting
unfolding lookup
reply-Acknowledges = record {
  entry = refl;
  parsed = refl;
  accepted = refl;
  not_own = λ e. cc;
  named = refl;
}

handle_reply-acknowledged_example :
    (handle_reply env (ok (2 ∷ [])) 5 none reply waiting).1.event_ch
    ≡ message_delivered "bob" (0 ∷ 0 ∷ 0 ∷ 1 ∷ []) ∷ []
unfolding lookup
handle_reply-acknowledged_example =
    (handle_reply-acknowledged env (ok (2 ∷ [])) 5 none reply response descriptor 7
      (bob two_waiting) first (second ∷ []) waiting reply-Acknowledges refl two_waiting-Holds).4

handle_reply-duplicate_example :
    (handle_reply env
      (ok (3 ∷ []))
      6
      none
      reply
      (handle_reply env (ok (2 ∷ [])) 5 none reply waiting).1).1.event_ch
    ≡ message_delivered "bob" (0 ∷ 0 ∷ 0 ∷ 1 ∷ [])
      ∷ message_delivered "bob" (0 ∷ 0 ∷ 0 ∷ 1 ∷ [])
      ∷ []
unfolding lookup
handle_reply-duplicate_example =
    (handle_reply-duplicate env (ok (2 ∷ [])) (ok (3 ∷ [])) 5 6 none none reply response descriptor
      7 (bob two_waiting) first second [] waiting reply-Acknowledges (λ e. cc) refl
      two_waiting-Holds).4

receive_order_example :
    let r = receive env 5 (some (9 ∷ [])) response waiting in
    ((4 < 4) × (r ≡ (done tt, waiting)))
    ⊎ (((◌≡◌ {A = ℕ} 4 4) × (r.1.spool_read_descriptor ≡ some (record reader { read_offset = 5 })))
        ⊎ ((4 < 4) × (r ≡ (panicked not_requested_yet, waiting))))
receive_order_example = receive_order env 5 (some (9 ∷ [])) response reader waiting (λ e. refl) refl

abbrev hello : Bytes
hello = 104 ∷ 105 ∷ []

decrypt_message-delivers_example :
    message_at "bob"
      (9 ∷ [])
      (decrypt_message env 5 (some (9 ∷ [])) (frame 8 hello) waiting).1.conversations
    ≡ some (incoming env 5 hello)
unfolding lookup
decrypt_message-delivers_example =
    (decrypt_message-delivers env 5 (9 ∷ []) (frame 8 hello) hello [] 4 42 7 (bob two_waiting)
      ((43, 8) ∷ []) [] waiting refl ((carol, refl, inl refl), tt, tt) ((λ e. omega (arith, e)), tt)
      (record { at = refl; paired = refl; plain = refl; advanced = refl }) (omega arith)
      (omega arith)).1

abbrev too_long : Bytes
too_long = 1 ∷ 2 ∷ 3 ∷ 4 ∷ 5 ∷ []

decrypt_message-overlong_example :
    (decrypt_message env 5 none (frame 8 too_long) waiting).0 ≡ panicked out_of_range
unfolding lookup
decrypt_message-overlong_example =
    decrypt_message-overlong env 5 none (frame 8 too_long) too_long [] 4 42 7 (bob two_waiting)
      ((43, 8) ∷ []) [] waiting refl ((carol, refl, inl refl), tt, tt) ((λ e. omega (arith, e)), tt)
      (record { at = refl; paired = refl; plain = refl; advanced = refl }) (omega arith)
      (omega arith) (omega arith)

abbrev sent_event : SentEvent
sent_event = record {
  message_id = record { address = 1; value = 1 ∷ [] };
  error = none;
  reply_eta = 6;
}

in_flight-panics_example :
    (handle_sent env sent_event (do_contact_removal env no_faults "bob" waiting).1).0
    ≡ panicked contact_not_found
unfolding ◌>>=◌ lookup insert erase do_contact_removal shut_exchange_down load save write_state
    encrypt_state_file encrypt_state open_tmp write_tmp install rename marshal_state
    marshal_contacts snapshot contacts_of marshal_contact
in_flight-panics_example =
    (in_flight-panics env no_faults "bob" (1 ∷ []) descriptor sent_event reply response
      (ok (2 ∷ [])) 5 none waiting refl refl (λ e. cc) removal_returns refl refl refl refl).0
  where
    removal_returns : (do_contact_removal env no_faults "bob" waiting).0 ≡ done tt
    removal_returns = refl
