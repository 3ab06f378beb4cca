-- ===== src/Client/Sound/Launch.antt =====
-- A client that is made from a sound state and started is sound, and what is sent to the worker then
-- points to contacts that exist.
use catshadow.Prelude.{
  ℕ, ◌≡◌, ap, subst, Bool, true, false, List, [], ◌∷◌, Map, Option, none, some, Result, ok, err,
  arith, lookup, nat_comparable, string_comparable, ◌==◌, ◌&&◌, Option-cases, Bool-cases,
  Result-cases, inl, inr, if◌then◌else◌,
}
use catshadow.Queue.{peek}
use catshadow.Contact.{Contact, Err, BoundExchange}
use catshadow.Conversation.{garbage_collect_conversations}
use catshadow.Client.{
  Client, Env, M, retransmit, done, ◌>>=◌, ◌>>◌, pure, panic, modify, gets, load, bad_exchange,
  panda,
}
use catshadow.Client.Steps.{bind_inv}
use catshadow.Client.Registry.Meeting.{Transport, get_reunion_transports}
use catshadow.Client.Launch.{
  Launch, try_transports, resume_exchanges, launch_contacts, requests, resume, entries,
}
use catshadow.Client.Sound.{IsSound, AllPointInto, nothing, Extends-PointsInto, append-AllPointInto}
use catshadow.Client.Sound.Keeps.{
  Keeps, Keeps-bind, Keeps-if, Keeps-option, Keeps-result, Keeps-pure, Keeps-forget,
}
use catshadow.Client.Sound.Actions.{actions_rules, Keeps-load}

module _ {R : Type 0} (launch : Launch) where
  try_transports-Keeps :
      (eid : ℕ) (ex : BoundExchange) (trs : List Transport)
      → Keeps {R = R} nothing (try_transports launch eid ex trs)
  unfolding try_transports
  try_transports-Keeps eid ex [] = Keeps-pure false
  try_transports-Keeps eid ex (tr ∷ trs) =
      let later = try_transports-Keeps eid ex trs in
      Keeps-if ((tr.recipient == ex.recipient) && (tr.provider == ex.provider)) _ _
        (Keeps-option (launch.from_snapshot ex.serialized tr) _ _ (search actions_rules)
          (λ _. Keeps-bind _ _ later (search actions_rules)))
        later

  resume_exchanges-Keeps :
      (p : ℕ) (trs : List Transport) (exs : Map ℕ BoundExchange)
      → Keeps {R = R} nothing (resume_exchanges launch p trs exs)
  unfolding resume_exchanges
  resume_exchanges-Keeps p trs [] = Keeps-pure tt
  resume_exchanges-Keeps p trs ((eid, ex) ∷ exs) =
      let later = resume_exchanges-Keeps p trs exs in
      Keeps-bind _ _ (try_transports-Keeps eid ex trs) (λ m. Keeps-if m _ _ later (
        Keeps-load p _
          (λ k valid. Keeps-bind _ _ (search actions_rules) (λ _. Keeps-forget _ later))))

module _ {R : Type 0} (env : Env R) (launch : Launch) where
  -- What becomes of a contact whose exchange is pending, in front of the contacts that follow.
  abbrev resume_panda : Contact R → M R (List ℕ) → M R (List ℕ)
  resume_panda k later =
      if env.panda_configured
      then elim (launch.from_state k.panda_key_exchange) [
        | some _ ↦ panic bad_exchange
        | none ↦ (do modify λ c. record c { running = panda k.id ∷ c.running }; later)
      ]
      else later

  abbrev resume_pending : ℕ → Contact R → Option Bool → M R (List ℕ) → M R (List ℕ)
  resume_pending p k enabled later = elim enabled [
    | some true ↦ elim (get_reunion_transports launch.document) [
      | err _ ↦ pure []
      | ok trs ↦ resume_exchanges launch p trs (entries k.reunion_key_exchange) >> later
    ]
    | _ ↦ resume_panda k later
  ]

  module _ (p : ℕ) (k : Contact R) (later : M R (List ℕ)) (kl : Keeps nothing later) where
    resume_panda-Keeps : Keeps nothing (resume_panda k later)
    resume_panda-Keeps =
        Keeps-if env.panda_configured _ _
          (Keeps-option (launch.from_state k.panda_key_exchange) _ _
            (Keeps-bind _ _ (search actions_rules) (λ _. kl)) (search actions_rules))
          kl

    resume_pending-Keeps :
        (enabled : Option Bool) → Keeps nothing (resume_pending p k enabled later)
    resume_pending-Keeps (some true) =
        Keeps-result (get_reunion_transports launch.document) _ _ (search actions_rules)
          (λ trs. Keeps-bind _ _ (resume_exchanges-Keeps launch p trs _) (λ _. kl))
    resume_pending-Keeps (some false) = resume_panda-Keeps
    resume_pending-Keeps none = resume_panda-Keeps

  launch_contacts-Keeps : (ids : Map ℕ ℕ) → Keeps nothing (launch_contacts env launch ids)
  unfolding launch_contacts
  launch_contacts-Keeps [] = Keeps-pure []
  launch_contacts-Keeps ((_, p) ∷ ids) =
      let later = launch_contacts-Keeps ids in
      Keeps-load p _ (λ k valid. Keeps-forget _ (
        Keeps-if k.is_pending _ _ (resume_pending-Keeps p k _ later env.reunion_enabled) (
          Keeps-result (peek k.outbound) _ _ (λ _. later)
            (λ _. Keeps-bind _ _ later (search actions_rules)))))

  -- A call that returns contacts that exist.
  abbrev Finds : M R (List ℕ) → Type 0
  Finds m =
      (ps : List ℕ) (c c' : Client R)
      → IsSound c
      → m c ≡ (done ps, c')
      → AllPointInto c'.heap (requests ps)

  nothing_found :
      (ps : List ℕ) (c c' : Client R)
      → pure [] c ≡ (done ps, c')
      → AllPointInto c'.heap (requests ps)
  unfolding pure requests
  nothing_found ps c c' e =
      let list : [] ≡ ps = ground (arith, e) in
      subst (λ (l : List ℕ). AllPointInto c'.heap (requests l)) list tt

  module _ (p : ℕ) (k : Contact R) (later : M R (List ℕ)) (found : Finds later) where
    resume_panda-Finds : Finds (resume_panda k later)
    unfolding ◌>>=◌ modify panic
    resume_panda-Finds ps c c' v e = elim (Bool-cases env.panda_configured) [
      | inr b ↦ found ps c c' v (ground (arith, e, b))
      | inl b ↦ elim (Option-cases (launch.from_state k.panda_key_exchange)) [
        | inr (x, f) ↦ absurd (ground (arith, e, b, f))
        | inl f ↦
            found ps (record c { running = panda k.id ∷ c.running }) c' v (ground (arith, e, b, f))
      ]
    ]

    resume_reunion-Finds :
        (r : Result (List Transport) Err)
        → Finds (elim r [
          | err _ ↦ pure []
          | ok trs ↦ resume_exchanges launch p trs (entries k.reunion_key_exchange) >> later
        ])
    resume_reunion-Finds (err _) ps c c' v e = nothing_found ps c c' e
    resume_reunion-Finds (ok trs) ps c c' v e =
        let resumed = resume_exchanges launch p trs (entries k.reunion_key_exchange) in
        let (_, h, h') = bind_inv resumed (λ _. later) ps c c' e in
        found ps (resumed c).1 c' ((resume_exchanges-Keeps launch p trs _).at c v tt).sound h'

    resume_pending-Finds : (enabled : Option Bool) → Finds (resume_pending p k enabled later)
    resume_pending-Finds none = resume_panda-Finds
    resume_pending-Finds (some false) = resume_panda-Finds
    resume_pending-Finds (some true) = resume_reunion-Finds (get_reunion_transports launch.document)

  -- A contact with messages that wait stands before those that follow.
  prods-Finds :
      (p : ℕ) (k : Contact R) (ids : Map ℕ ℕ) (ps : List ℕ) (c c' : Client R)
      → IsSound c
      → lookup p c.heap ≡ some k
      → Finds (launch_contacts env launch ids)
      → (launch_contacts env launch ids >>= λ qs. pure (p ∷ qs)) c ≡ (done ps, c')
      → AllPointInto c'.heap (requests ps)
  unfolding pure requests
  prods-Finds p k ids ps c c' v at found e =
      let (qs, h, h') = bind_inv (launch_contacts env launch ids) (λ qs. pure (p ∷ qs)) ps c c' e in
      let c₁ = (launch_contacts env launch ids c).1 in
      let same : c₁ ≡ c' = ap (λ r. r.1) h' in
      let list : p ∷ qs ≡ ps = ground (arith, h') in
      let g = (launch_contacts-Keeps ids).at c v tt in
      subst (λ (x : Client R). AllPointInto x.heap (requests ps)) same
        (subst (λ (l : List ℕ). AllPointInto c₁.heap (requests l)) list
          (append-AllPointInto c₁.heap (requests qs) (retransmit p) (found qs c c₁ v h)
            (Extends-PointsInto (retransmit p) c.heap c₁.heap g.extends (k, at))))

  launch_contacts-Finds : (ids : Map ℕ ℕ) → Finds (launch_contacts env launch ids)
  unfolding launch_contacts pure ◌>>=◌ load
  launch_contacts-Finds [] ps c c' v e = nothing_found ps c c' e
  launch_contacts-Finds ((id, p) ∷ ids) ps c c' v e =
      let found = launch_contacts-Finds ids in
      elim (Option-cases (lookup p c.heap)) [
        | inl n ↦ absurd (ground (arith, e, n))
        | inr (k, n) ↦ elim (Bool-cases k.is_pending) [
          | inl b ↦
              resume_pending-Finds p k (launch_contacts env launch ids) found env.reunion_enabled ps
                c c' v (ground (arith, e, n, b))
          | inr b ↦ elim (Result-cases (peek k.outbound)) [
            | inr (x, f) ↦ found ps c c' v (ground (arith, e, n, b, f))
            | inl (x, f) ↦ prods-Finds p k ids ps c c' v n found (ground (arith, e, n, b, f))
          ]
        ]
      ]

  -- `Start` leaves a sound client sound, and the contacts that it prods exist.
  pub resume-Keeps : Keeps nothing (resume env launch)
  unfolding resume
  resume-Keeps = search (actions_rules, launch_contacts-Keeps)

  pub resume-Finds :
      (ps : List ℕ) (c c' : Client R)
      → IsSound c
      → resume env launch c ≡ (done ps, c')
      → AllPointInto c'.heap (requests ps)
  unfolding resume modify ◌>>=◌ gets
  resume-Finds ps c c' v e =
      launch_contacts-Finds c.contacts ps
        (record c { conversations = garbage_collect_conversations launch.now c.conversations }) c' v
        e
