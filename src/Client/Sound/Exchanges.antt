-- ===== src/Client/Sound/Exchanges.antt =====
-- Handling the updates of key exchanges keeps the client's state sound.
use catshadow.Prelude.{
  ℕ, ◌≡◌, refl, sym, subst, Bytes, Option, none, some, arith, Map, bytes_comparable, nat_comparable,
  insert, Option-cases, inl, inr,
}
use catshadow.Disk.{Faults}
use catshadow.Queue.Refine.{HoldsCommands}
use catshadow.Contact.{Contact, Err, reply_timeout}
use catshadow.Client.{Client, Env, M, ◌>>=◌, pure, panic, store, nil_map, done, panicked}
use catshadow.Client.Steps.{bind_done, bind_panicked}
use catshadow.Client.Exchanges.{
  PandaUpdate, ReunionUpdate, restart_panda, panda_failed, panda_unusable, panda_completed,
  panda_progressed, process_panda_update, reunion_late, put_reunion_result, reunion_failed,
  reunion_unusable, reunion_completed, process_reunion_update,
}
use catshadow.Client.Sound.{nothing, stands}
use catshadow.Client.Sound.Keeps.{
  Keeps, Keeps-bind, Keeps-if, Keeps-option, Keeps-result, Keeps-forget, Keeps-pure, Goes,
  Goes-refl, Goes-trans,
}
use catshadow.Client.Sound.Actions.{actions_rules, Keeps-load, Keeps-store}

module _ {R : Type 0} (env : Env R) where
  restart_panda-Keeps :
      (restart : Option Err) (id : ℕ) → Keeps nothing (restart_panda env restart id)
  unfolding restart_panda
  restart_panda-Keeps restart id =
      Keeps-if env.panda_configured _ _
        (Keeps-option restart _ _ (search actions_rules) (search actions_rules))
        (search actions_rules)

  panda_failed-Keeps :
      (restart : Option Err) (p : ℕ) (e : Err) → Keeps nothing (panda_failed env restart p e)
  unfolding panda_failed
  panda_failed-Keeps restart p e =
      Keeps-load p _
        (λ k valid. Keeps-bind _ _ (Keeps-forget _ (restarts e k.id)) (search actions_rules))
    where
      restarts :
          (e : Err) (id : ℕ)
          → Keeps nothing (elim e [ reply_timeout ↦ restart_panda env restart id | _ ↦ pure tt ])
      restarts reply_timeout id = restart_panda-Keeps restart id
      restarts _ id = Keeps-pure tt

  panda_unusable-Keeps :
      (faults : Faults) (p : ℕ) (k : Contact R) (e : Err)
      → HoldsCommands k.outbound
      → Keeps (stands p k.id k.nickname) (panda_unusable env faults p k e)
  unfolding panda_unusable
  panda_unusable-Keeps faults p k e valid = search (actions_rules) depth 9

  panda_completed-Keeps :
      (faults : Faults) (p : ℕ) (result : Bytes)
      → Keeps nothing (panda_completed env faults p result)
  unfolding panda_completed
  panda_completed-Keeps faults p result = Keeps-load p _ (λ k valid.
      Keeps-result (env.unmarshal_contact_exchange result) _ _
        (λ e. panda_unusable-Keeps faults p _ _ valid)
        (λ x.
          Keeps-option (env.process_key_exchange k.ratchet x.signed_key_exchange).0 _ _
            (search (actions_rules) depth 9) (λ e. panda_unusable-Keeps faults p _ _ valid)))

  panda_progressed-Keeps :
      (faults : Faults) (p : ℕ) (serialised : Bytes)
      → Keeps nothing (panda_progressed env faults p serialised)
  unfolding panda_progressed
  panda_progressed-Keeps faults p serialised = search (actions_rules) depth 9

  pub process_panda_update-Keeps :
      (restart : Option Err) (faults : Faults) (update : PandaUpdate)
      → Keeps nothing (process_panda_update env restart faults update)
  unfolding process_panda_update
  process_panda_update-Keeps restart faults update = Keeps-bind _ _ (search actions_rules) (λ found.
      Keeps-option found _ _ (search actions_rules) (λ p.
        Keeps-option update.error _ _
          (Keeps-option update.serialised _ _
            (Keeps-option update.result _ _ (search actions_rules) (panda_completed-Keeps faults p))
            (panda_progressed-Keeps faults p))
          (search (actions_rules, panda_failed-Keeps))))

  reunion_late-Keeps :
      (p exchange_id : ℕ) (k : Contact R)
      → HoldsCommands k.outbound
      → Keeps (stands p k.id k.nickname) (reunion_late env p exchange_id k)
  unfolding reunion_late
  reunion_late-Keeps p exchange_id k valid = search actions_rules

  put_reunion_result_fails :
      (p exchange_id : ℕ) (e : Err) (k : Contact R) (c : Client R)
      → k.reunion_result ≡ none
      → put_reunion_result env p exchange_id e k c ≡ (panicked nil_map, c)
  unfolding put_reunion_result panic
  put_reunion_result_fails p exchange_id e k c n = ground (arith, n)

  put_reunion_result_stores :
      (p exchange_id : ℕ) (e : Err) (m : Map ℕ Err) (k : Contact R) (c : Client R)
      → k.reunion_result ≡ some m
      → let k' = record k { reunion_result = some (insert exchange_id e m) } in
        put_reunion_result env p exchange_id e k c ≡ (done k', (store p k' c).1)
  unfolding put_reunion_result store pure ◌>>=◌
  put_reunion_result_stores p exchange_id e m k c n = ground (arith, n)

  -- A result is put into the contact that is handed on.
  put_reunion_result-Keeps :
      {A : Type 0} (p exchange_id : ℕ) (e : Err) (k : Contact R) (f : Contact R → M R A)
      → HoldsCommands k.outbound
      → ((m : Option (Map ℕ Err))
          → Keeps (stands p k.id k.nickname) (f (record k { reunion_result = m })))
      → Keeps (stands p k.id k.nickname) (put_reunion_result env p exchange_id e k >>= f)
  put_reunion_result-Keeps p exchange_id e k f valid kf = record {
    at = λ c v h. elim (Option-cases k.reunion_result) [
      | inl n ↦
          subst (λ r. Goes c r.1)
            (sym (bind_panicked _ f c c _ (put_reunion_result_fails p exchange_id e k c n)))
            (Goes-refl c v)
      | inr (m, n) ↦
          let k' = record k { reunion_result = some (insert exchange_id e m) } in
          let g = (Keeps-store p k.id k.nickname k' valid refl refl).at c v h in
          subst (λ r. Goes c r.1)
            (sym (bind_done _ f c _ k' (put_reunion_result_stores p exchange_id e m k c n)))
            (Goes-trans g (
              (kf (some (insert exchange_id e m))).at (store p k' c).1 g.sound
                (g.extends p k.id k.nickname h)))
    ];
  }

  reunion_failed-Keeps :
      (p exchange_id : ℕ) (e : Err) (k : Contact R)
      → HoldsCommands k.outbound
      → Keeps (stands p k.id k.nickname) (reunion_failed env p exchange_id e k)
  unfolding reunion_failed
  reunion_failed-Keeps p exchange_id e k valid =
      put_reunion_result-Keeps p exchange_id e k _ valid (search (actions_rules) depth 9)

  reunion_unusable-Keeps :
      (faults : Faults) (p exchange_id : ℕ) (k : Contact R) (e : Err)
      → HoldsCommands k.outbound
      → Keeps (stands p k.id k.nickname) (reunion_unusable env faults p exchange_id k e)
  unfolding reunion_unusable
  reunion_unusable-Keeps faults p exchange_id k e valid =
      put_reunion_result-Keeps p exchange_id e k _ valid (search (actions_rules) depth 9)

  reunion_completed-Keeps :
      (faults : Faults) (p exchange_id : ℕ) (result : Bytes) (k : Contact R)
      → HoldsCommands k.outbound
      → Keeps (stands p k.id k.nickname) (reunion_completed env faults p exchange_id result k)
  unfolding reunion_completed
  reunion_completed-Keeps faults p exchange_id result k valid =
      Keeps-bind _ _ (search actions_rules) (λ _.
        Keeps-result (env.unmarshal_contact_exchange result) _ _
          (λ e. reunion_unusable-Keeps faults p exchange_id _ _ valid)
          (λ x.
            Keeps-option (env.process_key_exchange k.ratchet x.signed_key_exchange).0 _ _
              (search (actions_rules) depth 9)
              (λ e.
                Keeps-bind _ _ (search actions_rules)
                  (λ _. reunion_unusable-Keeps faults p exchange_id _ _ valid))))

  pub process_reunion_update-Keeps :
      (faults : Faults) (update : ReunionUpdate)
      → Keeps nothing (process_reunion_update env faults update)
  unfolding process_reunion_update
  process_reunion_update-Keeps faults update = Keeps-bind _ _ (search actions_rules) (λ found.
      Keeps-option found _ _ (search actions_rules) (λ p. Keeps-load p _ (λ k valid.
        Keeps-if k.is_pending _ _
          (Keeps-option update.error _ _
            (Keeps-option update.serialized _ _
              (Keeps-option update.result _ _ (search actions_rules)
                (λ r. reunion_completed-Keeps faults p _ r k valid))
              (search actions_rules))
            (λ e. reunion_failed-Keeps p _ e k valid))
          (reunion_late-Keeps p _ k valid))))
