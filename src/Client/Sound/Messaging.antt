-- ===== src/Client/Sound/Messaging.antt =====
-- Sending keeps the client's state sound.
use catshadow.Prelude.{ℕ, refl, Bytes, String, Result, ok, err, string_comparable, ◌==◌}
use catshadow.Disk.{Faults}
use catshadow.Fifo.{QueuedSpoolCommand}
use catshadow.Queue.{peek, push}
use catshadow.Queue.Refine.{HoldsCommands, push-HoldsCommands}
use catshadow.Contact.{Contact, Err}
use catshadow.Client.{Env, SendKey, SentMessageDescriptor}
use catshadow.Client.Messaging.{
  SentEvent, transmit, send_message, push_and_save, enqueue, encrypt_and_enqueue, do_send_message,
  handle_sent_to, handle_sent, garbage_collect_send_map,
}
use catshadow.Client.Sound.{Fact, nothing, stands}
use catshadow.Client.Sound.Keeps.{
  Keeps, Keeps-result, Keeps-option, Keeps-bind, Keeps-if, Keeps-forget, Goes-refl, Goes-quiet,
}
use catshadow.Client.Sound.Actions.{actions_rules, Keeps-load}

module _ {R : Type 0} {s : Fact} where
  pub transmit-Keeps :
      (nickname : String) (cmd : QueuedSpoolCommand) (sent : Result Bytes Err)
      → Keeps {R = R} s (transmit nickname cmd sent)
  unfolding transmit
  transmit-Keeps nickname cmd (err e) = record { at = λ c v h. Goes-refl c v }
  transmit-Keeps nickname cmd (ok id) = record { at = λ c v h. Goes-quiet v (λ p id n x. x) refl }

module _ {R : Type 0} where
  pub send_message-Keeps :
      (sent : Result Bytes Err) (p : ℕ) → Keeps {R = R} nothing (send_message sent p)
  unfolding send_message
  send_message-Keeps sent p = Keeps-load p _ (λ k valid.
      Keeps-result (peek k.outbound) _ _ (search actions_rules)
        (λ r. Keeps-option r _ _ (search actions_rules) (search transmit-Keeps)))

  pub push_and_save-Keeps :
      (env : Env R) (faults : Faults) (p : ℕ) (item : QueuedSpoolCommand)
      → Keeps nothing (push_and_save env faults p item)
  unfolding push_and_save
  push_and_save-Keeps env faults p item = Keeps-load p _ (λ k valid.
      Keeps-bind _ _ (search (actions_rules, push-HoldsCommands)) (λ _.
        Keeps-option (push k.outbound item).0 _ _ (search actions_rules) (search actions_rules)))

  enqueue-Keeps :
      (env : Env R) (sent : Result Bytes Err) (faults : Faults) (p : ℕ) (item : QueuedSpoolCommand)
      → Keeps nothing (enqueue env sent faults p item)
  unfolding enqueue
  enqueue-Keeps env sent faults p item = Keeps-load p _ (λ k valid. Keeps-forget _ (
      Keeps-result (peek k.outbound) _ _
        (λ _. search (actions_rules, send_message-Keeps, push_and_save-Keeps))
        (λ _. push_and_save-Keeps env faults p item)))

  encrypt_and_enqueue-Keeps :
      (env : Env R) (sent : Result Bytes Err) (faults : Faults) (id message : Bytes) (p : ℕ)
      (k : Contact R)
      → HoldsCommands k.outbound
      → Keeps (stands p k.id k.nickname) (encrypt_and_enqueue env sent faults id message p k)
  unfolding encrypt_and_enqueue
  encrypt_and_enqueue-Keeps env sent faults id message p k valid =
      Keeps-bind _ _ (search actions_rules) (λ _.
        Keeps-option k.spool_write_descriptor _ _ (search actions_rules) (λ d.
          Keeps-result (env.append_to_spool d.id _) _ _ (search actions_rules)
            (λ command. Keeps-forget _ (enqueue-Keeps env sent faults p _))))

  pub do_send_message-Keeps :
      (env : Env R) (now : ℕ) (sent : Result Bytes Err) (faults : Faults) (id : Bytes)
      (nickname : String) (message : Bytes)
      → Keeps nothing (do_send_message env now sent faults id nickname message)
  unfolding do_send_message
  do_send_message-Keeps env now sent faults id nickname message =
      Keeps-bind _ _ (search actions_rules) (λ _. Keeps-bind _ _ (search actions_rules) (λ found.
        Keeps-option found _ _ (search actions_rules)
          (λ p. search (actions_rules, encrypt_and_enqueue-Keeps))))

  handle_sent_to-Keeps :
      (env : Env R) (event : SentEvent) (tp : SentMessageDescriptor) (p : ℕ)
      → Keeps nothing (handle_sent_to env event tp p)
  unfolding handle_sent_to
  handle_sent_to-Keeps env event tp p =
      Keeps-load p _
        (λ k valid. Keeps-option event.error _ _ (search actions_rules) (search actions_rules))

  pub handle_sent-Keeps : (env : Env R) (event : SentEvent) → Keeps nothing (handle_sent env event)
  unfolding handle_sent
  handle_sent-Keeps env event = Keeps-bind _ _ (search actions_rules) (λ orig.
      Keeps-option orig _ _ (search actions_rules) (λ tp.
        Keeps-if (tp.nickname == env.user) _ _ (search actions_rules) (
          Keeps-bind _ _ (search actions_rules) (λ found.
            Keeps-option found _ _ (search actions_rules)
              (λ p. handle_sent_to-Keeps env event tp p)))))

  pub garbage_collect_send_map-Keeps :
      (env : Env R) (key : SendKey) → Keeps {R = R} nothing (garbage_collect_send_map key)
  unfolding garbage_collect_send_map
  garbage_collect_send_map-Keeps env key = search actions_rules
