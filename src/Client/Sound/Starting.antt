-- ===== src/Client/Sound/Starting.antt =====
-- Starting a contact's key exchange and shutting it down keep the client's state sound.
use catshadow.Prelude.{ℕ, refl, Bytes, Bool, true, false, List, [], ◌∷◌, Option, none, some, Result}
use catshadow.Disk.{Faults}
use catshadow.Queue.Refine.{HoldsCommands}
use catshadow.Contact.{Contact, Err, Signal, is_open, is_closed, both_configured}
use catshadow.Client.{Env, pure, panic, store, closed_twice}
use catshadow.Client.Registry.Meeting.{
  Transport, MeetingPlaces, get_reunion_transports, bind_exchange, start_epochs, start_at,
  first_random, start_all, do_reunion,
}
use catshadow.Client.Registry.{
  Creation, do_panda_exchange, start_reunion, start_exchange, shut_exchange_down,
}
use catshadow.Client.Sound.{nothing, stands}
use catshadow.Client.Sound.Keeps.{
  Keeps, Keeps-bind, Keeps-if, Keeps-option, Keeps-result, Keeps-pure, Keeps-panic, Keeps-forget,
}
use catshadow.Client.Sound.Actions.{actions_rules, Keeps-load, Keeps-store}

module _ {R : Type 0} (env : Env R) where
  do_panda_exchange-Keeps :
      (started : Result Bytes Err) (faults : Faults) (p : ℕ)
      → Keeps nothing (do_panda_exchange env started faults p)
  unfolding do_panda_exchange
  do_panda_exchange-Keeps started faults p =
      Keeps-result started _ _ (search actions_rules) (λ kx. search actions_rules depth 9)

  bind_exchange-Keeps :
      (places : MeetingPlaces) (p : ℕ) (tr : Transport) (exchange_id : ℕ)
      → Keeps {R = R} nothing (bind_exchange places p tr exchange_id)
  unfolding bind_exchange
  bind_exchange-Keeps places p tr exchange_id = Keeps-load p _ (λ k valid.
      Keeps-option k.reunion_key_exchange _ _ (search actions_rules)
        (λ exs. search actions_rules depth 9))

  start_epochs-Keeps :
      (places : MeetingPlaces) (p : ℕ) (tr : Transport) (srv : Bytes) (epochs : List ℕ)
      → Keeps {R = R} nothing (start_epochs places p tr srv epochs)
  unfolding start_epochs
  start_epochs-Keeps places p tr srv [] = Keeps-pure none
  start_epochs-Keeps places p tr srv (epoch ∷ epochs) =
      Keeps-result (places.new_exchange tr srv epoch) _ _ (search actions_rules) (λ id.
        Keeps-bind _ _ (bind_exchange-Keeps places p tr id)
          (λ _. start_epochs-Keeps places p tr srv epochs))

  start_at-Keeps :
      (places : MeetingPlaces) (p : ℕ) (tr : Transport)
      → Keeps {R = R} nothing (start_at places p tr)
  unfolding start_at
  start_at-Keeps places p tr =
      Keeps-result (places.current_epochs tr) _ _ (search actions_rules) (λ epochs.
        Keeps-result (places.current_shared_randoms tr) _ _ (search actions_rules) (λ srvs.
          Keeps-option (first_random srvs) _ _ (search actions_rules)
            (λ srv. start_epochs-Keeps places p tr srv epochs)))

  start_all-Keeps :
      (places : MeetingPlaces) (p : ℕ) (trs : List Transport)
      → Keeps {R = R} nothing (start_all places p trs)
  unfolding start_all
  start_all-Keeps places p [] = Keeps-pure none
  start_all-Keeps places p (tr ∷ trs) =
      Keeps-bind _ _ (start_at-Keeps places p tr)
        (λ e. Keeps-option e _ _ (start_all-Keeps places p trs) (search actions_rules))

  do_reunion-Keeps : (places : MeetingPlaces) (p : ℕ) → Keeps {R = R} nothing (do_reunion places p)
  unfolding do_reunion
  do_reunion-Keeps places p =
      Keeps-result (get_reunion_transports places.document) _ _ (search actions_rules)
        (λ trs. start_all-Keeps places p trs)

  start_reunion-Keeps :
      (places : MeetingPlaces) (p : ℕ) → Keeps {R = R} nothing (start_reunion env places p)
  unfolding start_reunion
  start_reunion-Keeps places p = Keeps-load p _ (λ k valid.
      Keeps-bind _ _ (search actions_rules) (λ _. Keeps-forget _ (do_reunion-Keeps places p)))

  pub start_exchange-Keeps : (new : Creation R) (p : ℕ) → Keeps nothing (start_exchange env new p)
  unfolding start_exchange
  start_exchange-Keeps new p = Keeps-if env.panda_configured _ _ (with_panda env.reunion_enabled) (
      Keeps-option env.reunion_enabled _ _ (search actions_rules)
        (λ _. start_reunion-Keeps new.places p))
    where
      with_panda :
          (enabled : Option Bool)
          → Keeps {R = R} {A = Option Err} nothing (elim enabled [
            | some true ↦ pure (some both_configured)
            | _ ↦ do_panda_exchange env new.panda_exchange new.faults p
          ])
      with_panda (some true) = Keeps-pure _
      with_panda (some false) = do_panda_exchange-Keeps new.panda_exchange new.faults p
      with_panda none = do_panda_exchange-Keeps new.panda_exchange new.faults p

  pub shut_exchange_down-Keeps : (p : ℕ) → Keeps nothing (shut_exchange_down env p)
  unfolding shut_exchange_down
  shut_exchange_down-Keeps p = Keeps-load p _ (λ k valid.
      Keeps-if k.is_pending _ _ (shut k k.panda_shutdown_chan valid) (search actions_rules))
    where
      shut :
          (k : Contact R) (ch : Option Signal)
          → HoldsCommands k.outbound
          → Keeps {R = R} {A = Unit {0}} (stands p k.id k.nickname) (elim ch [
            | none ↦ pure tt
            | some is_open ↦ store p (record k { panda_shutdown_chan = some is_closed })
            | some is_closed ↦ panic closed_twice
          ])
      shut k none valid = Keeps-pure tt
      shut k (some is_open) valid = Keeps-store p k.id k.nickname _ valid refl refl
      shut k (some is_closed) valid = Keeps-panic closed_twice
