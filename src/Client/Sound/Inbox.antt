-- ===== src/Client/Sound/Inbox.antt =====
-- Reading the spool and handling the replies keep the client's state sound.
use catshadow.Prelude.{
  ℕ, ◌≡◌, Bytes, String, Option, none, some, Result, ok, err, arith, lookup, string_comparable,
  ◌==◌, [], ◌∷◌, Map, not, nat_comparable, if◌then◌else◌, subst, Option-cases, Result-cases,
  Bool-cases, inl, inr,
}
use catshadow.Payload.{unframe}
use catshadow.Queue.{pop}
use catshadow.Queue.Refine.{pop-HoldsCommands}
use catshadow.Contact.{Err, SpoolReadDescriptor}
use catshadow.Client.{
  Client, Env, M, SentMessageDescriptor, SpoolResponse, ◌>>=◌, ◌>>◌, pure, panic, store, load,
  out_of_range,
}
use catshadow.Client.Inbox.{
  ReplyEvent, send_read_inbox, try_contacts, record_received, decrypt_message, acknowledge, advance,
  receive, dispatch_reply, handle_reply,
}
use catshadow.Client.Sound.{nothing}
use catshadow.Client.Sound.Keeps.{
  Keeps, Keeps-bind, Keeps-if, Keeps-option, Keeps-result, Keeps-forget, Goes, Goes-refl,
}
use catshadow.Client.Sound.Actions.{actions_rules, Keeps-load}
use catshadow.Client.Sound.Messaging.{send_message-Keeps}

module _ {R : Type 0} (env : Env R) where
  pub send_read_inbox-Keeps : (sent : Result Bytes Err) → Keeps nothing (send_read_inbox env sent)
  unfolding send_read_inbox
  send_read_inbox-Keeps sent = Keeps-bind _ _ (search actions_rules) (λ reader.
      Keeps-option reader _ _ (search actions_rules) (λ d.
        Keeps-result (env.read_from_spool d.id d.read_offset d.private_key) _ _
          (search actions_rules)
          (λ command. Keeps-result sent _ _ (search actions_rules) (search actions_rules))))

  record_received-Keeps :
      (now : ℕ) (random : Option Bytes) (nickname : String) (message : Bytes)
      → Keeps {R = R} nothing (record_received env now random nickname message)
  unfolding record_received
  record_received-Keeps now random nickname message =
      Keeps-bind _ _ (Keeps-option random _ _ (search actions_rules) (search actions_rules))
        (search actions_rules)

  acknowledge-Keeps :
      (sent : Result Bytes Err) (tp : SentMessageDescriptor) (p : ℕ)
      → Keeps nothing (acknowledge env sent tp p)
  unfolding acknowledge
  acknowledge-Keeps sent tp p = Keeps-load p _ (λ k valid.
      Keeps-bind _ _ (search (actions_rules, pop-HoldsCommands)) (λ _.
        Keeps-result (pop k.outbound).0 _ _ (search actions_rules)
          (λ _. Keeps-forget _ (search (actions_rules, send_message-Keeps)))))

  -- One contact's turn in the loop of `decryptMessage`, by the client's actions.
  abbrev attempt : Bytes → ℕ → M R (Option (String × Bytes)) → M R (Option (String × Bytes))
  attempt ciphertext p later = do
    contact ← load p
    if contact.is_pending then later else do
      store p (record contact { ratchet = (env.decrypt contact.ratchet ciphertext).1 })
      elim (env.decrypt contact.ratchet ciphertext).0 [
        | err _ ↦ later
        | ok slice ↦ elim (unframe slice) [
          | none ↦ panic out_of_range
          | some message ↦ pure (some (contact.nickname, message))
        ]
      ]

  try_contacts_as_attempt :
      (ciphertext : Bytes) (id p : ℕ) (rest : Map ℕ ℕ) (c : Client R)
      → attempt ciphertext p (try_contacts env ciphertext rest) c
        ≡ try_contacts env ciphertext ((id, p) ∷ rest) c
  unfolding try_contacts load store ◌>>=◌ pure panic
  try_contacts_as_attempt ciphertext id p rest c = elim (Option-cases (lookup p c.heap)) [
    | inl e ↦ ground (arith, e)
    | inr (k, e) ↦ elim (Bool-cases k.is_pending) [
      | inl b ↦ ground (arith, e, b)
      | inr b ↦ elim (Result-cases (env.decrypt k.ratchet ciphertext).0) [
        | inr (x, f) ↦ ground (arith, e, b, f)
        | inl (x, f) ↦ ground (arith, e, b, f, Option-cases (unframe x))
      ]
    ]
  ]

  try_contacts-Keeps :
      (ciphertext : Bytes) (ids : Map ℕ ℕ) → Keeps nothing (try_contacts env ciphertext ids)
  try_contacts-Keeps ciphertext [] = record { at = λ c v h. unfold try_contacts in Goes-refl c v }
  try_contacts-Keeps ciphertext ((id, p) ∷ rest) =
      let later = try_contacts-Keeps ciphertext rest in
      let by_attempt = Keeps-load p _ (λ k valid. Keeps-if k.is_pending _ _ (Keeps-forget _ later) (
        Keeps-bind _ _ (search actions_rules) (λ _.
          Keeps-result (env.decrypt k.ratchet ciphertext).0 _ _ (λ _. Keeps-forget _ later)
            (λ slice.
              Keeps-option (unframe slice) _ _ (search actions_rules) (search actions_rules))))) in
      record {
        at = λ c v h.
            subst (λ r. Goes c r.1) (try_contacts_as_attempt ciphertext id p rest c)
              (by_attempt.at c v h);
      }

  decrypt_message-Keeps :
      (now : ℕ) (random : Option Bytes) (ciphertext : Bytes)
      → Keeps nothing (decrypt_message env now random ciphertext)
  unfolding decrypt_message
  decrypt_message-Keeps now random ciphertext = Keeps-bind _ _ (search actions_rules) (λ ids.
      Keeps-bind _ _ (try_contacts-Keeps ciphertext ids) (λ found.
        Keeps-option found _ _ (search actions_rules)
          (λ x. search (actions_rules, record_received-Keeps))))

  advance-Keeps :
      (now : ℕ) (random : Option Bytes) (ciphertext : Bytes) (d : SpoolReadDescriptor)
      → Keeps nothing (advance env now random ciphertext d)
  unfolding advance
  advance-Keeps now random ciphertext d = search (actions_rules, decrypt_message-Keeps)

  receive-Keeps :
      (now : ℕ) (random : Option Bytes) (response : SpoolResponse)
      → Keeps nothing (receive env now random response)
  unfolding receive
  receive-Keeps now random response = Keeps-bind _ _ (search actions_rules) (λ reader.
      Keeps-option reader _ _ (search actions_rules) (search (actions_rules, advance-Keeps)))

  dispatch_reply-Keeps :
      (sent : Result Bytes Err) (now : ℕ) (random : Option Bytes) (payload : Bytes)
      (tp : SentMessageDescriptor)
      → Keeps nothing (dispatch_reply env sent now random payload tp)
  unfolding dispatch_reply
  dispatch_reply-Keeps sent now random payload tp =
      Keeps-result (env.spool_response_from_bytes payload) _ _ (search actions_rules) (λ response.
        Keeps-if (not response.is_ok) _ _ (search actions_rules) (
          Keeps-if (tp.nickname == env.user) _ _ (receive-Keeps now random response) (
            Keeps-bind _ _ (search actions_rules) (λ found.
              Keeps-option found _ _ (search actions_rules) (acknowledge-Keeps sent tp)))))

  pub handle_reply-Keeps :
      (sent : Result Bytes Err) (now : ℕ) (random : Option Bytes) (event : ReplyEvent)
      → Keeps nothing (handle_reply env sent now random event)
  unfolding handle_reply
  handle_reply-Keeps sent now random event = Keeps-bind _ _ (search actions_rules) (λ orig.
      Keeps-option orig _ _ (search actions_rules)
        (λ tp. search (actions_rules, dispatch_reply-Keeps)))
