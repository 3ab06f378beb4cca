-- ===== src/Client/System/Safety.antt =====
-- What is true of the program in every state that it can come to.
use catshadow.Prelude.{
  ℕ, ◌≡◌, refl, sym, ap, ◌∙◌, subst, Bytes, String, true, false, List, [], ◌∷◌, ◌++◌, Option, none,
  some, Result, ok, arith, lookup, nat_comparable, ◌⊎◌, inl, inr, length, leb, replicate,
  Bool-cases, Result-cases, Option-cases,
}
use catshadow.Queue.{peek}
use catshadow.Queue.Refine.{HoldsCommands, peek-ne-nil}
use catshadow.Contact.{Contact, Err}
use catshadow.Client.{
  Client, Env, Op, retransmit, State, done, save, fatal, no_randomness, op_ch_capacity, load, ◌>>=◌,
  pure, panic, push_op, gets, modify,
}
use catshadow.Client.Steps.{ends}
use catshadow.Client.Worker.{Yields, work_on, next_operation}
use catshadow.Client.Messaging as Messaging
use catshadow.Client.Messaging.{transmit}
use catshadow.Client.Startup.{new_client}
use catshadow.Client as Parts
use catshadow.Client.Interface.{
  System, SinkCase, sends, enters, new_contact, remove_contact, get_contacts, send_message,
  event_sink_worker,
}
use catshadow.Client.Sound.{
  nothing, IsSound, AllPointInto, PointsInto, Extends-AllPointInto, append-AllPointInto,
}
use catshadow.Client.Sound.Keeps.{Goes}
use catshadow.Client.Sound.Actions.{Keeps-save, Keeps-fatal, push_op-Goes}
use catshadow.Client.Sound.Worker.{turn-Keeps, start_worker-Keeps, taken}
use catshadow.Client.Sound.Launch.{resume-Keeps, resume-Finds}
use catshadow.Client.Sound.Startup.{IsRestorable, new_client-IsSound}
use catshadow.Client.System.{
  Step, turns, adds, removes, asks, sends_message, fires, comes_in, hands_on, shuts_down, Reachable,
  starts, steps,
}
use catshadow.Client.Interface.Halting.{shutdown_lem}
use catshadow.Client.Interface.Sink.{event_sink_worker-Moves}

module _ {R : Type 0} where
  -- The client is sound, and so is what waits for room in its channel.
  pub record IsSafe (s : System R) : Type 0 where
    pub sound : IsSound s.client
    pub points : AllPointInto s.client.heap s.waiting

  -- Where the random source fails, the error is written, and the message is sent or the caller waits.
  send_message_fails :
      (nickname : String) (message : Bytes) (s : System R)
      → let failed = record s { client = (fatal no_randomness s.client).1 } in
        let sent = (send_message none nickname message s).1 in
        (sent ≡ failed)
        ⊎ (sent ≡ sends (Parts.send_message (replicate 4 0) nickname message) failed)
  unfolding send_message
  send_message_fails nickname message s = ground (arith, ends (fatal no_randomness s.client))

  sends-IsSafe :
      (op : Op) (s : System R) → IsSafe s → PointsInto s.client.heap op → IsSafe (sends op s)
  unfolding sends
  sends-IsSafe op s v x = record {
    sound = v.sound;
    points = append-AllPointInto s.client.heap s.waiting op v.points x;
  }

  -- The client goes on, and what waits points to contacts that were there before.
  Goes-IsSafe :
      (c c' : Client R) (s : System R)
      → Goes c c'
      → s.client ≡ c'
      → AllPointInto c.heap s.waiting
      → IsSafe s
  Goes-IsSafe c c' s g e x = record {
    sound = rw e g.sound;
    points = rw e (Extends-AllPointInto s.waiting c.heap c'.heap g.extends x);
  }

  -- One that waits, and the others.
  parted :
      (heap : List (ℕ × Contact R)) (before : List Op) (op : Op) (after : List Op)
      → AllPointInto heap (before ++ op ∷ after)
      → PointsInto heap op × AllPointInto heap (before ++ after)
  parted heap [] op after (x, h) = (x, h)
  parted heap (o ∷ before) op after (y, h) =
      let (x, h') = parted heap before op after h in (x, (y, h'))

  enters_full :
      (before : List Op) (op : Op) (after : List Op) (s : System R)
      → leb op_ch_capacity (length s.client.op_ch) ≡ true
      → enters before op after s ≡ s
  unfolding enters
  enters_full before op after s full = ground (arith, full)

  enters_room :
      (before : List Op) (op : Op) (after : List Op) (s : System R)
      → leb op_ch_capacity (length s.client.op_ch) ≡ false
      → enters before op after s
        ≡ record s { client = (push_op op s.client).1; waiting = before ++ after }
  unfolding enters push_op
  enters_room before op after s room = ground (arith, room)

  enters-IsSafe :
      (before : List Op) (op : Op) (after : List Op) (s : System R)
      → s.waiting ≡ before ++ op ∷ after
      → IsSafe s
      → IsSafe (enters before op after s)
  enters-IsSafe before op after s e v =
      elim (Bool-cases (leb op_ch_capacity (length s.client.op_ch))) [
        | inl full ↦ subst IsSafe (sym (enters_full before op after s full)) v
        | inr room ↦
            let (x, others) =
              parted s.client.heap before op after
                (subst (AllPointInto s.client.heap) e v.points) in
            subst IsSafe (sym (enters_room before op after s room)) (
              Goes-IsSafe s.client (push_op op s.client).1 _ (push_op-Goes op s.client v.sound x)
                refl others)
      ]

  event_sink_worker-IsSafe :
      (x : SinkCase) (s : System R) → IsSafe s → IsSafe (event_sink_worker x s)
  event_sink_worker-IsSafe x s v =
      subst IsSafe (sym (event_sink_worker-Moves x s).state)
        (record { sound = v.sound; points = v.points })

  send_message-IsSafe :
      (random : Option Bytes) (nickname : String) (message : Bytes) (s : System R)
      → IsSafe s
      → IsSafe (send_message random nickname message s).1
  send_message-IsSafe (some id) nickname message s v = unfold send_message in sends-IsSafe _ s v tt
  send_message-IsSafe none nickname message s v =
      let c = (fatal no_randomness s.client).1 in
      let failed =
        Goes-IsSafe s.client c (record s { client = c })
          ((Keeps-fatal {s = nothing} no_randomness).at s.client v.sound tt) refl v.points in
      elim (send_message_fails nickname message s) [
        | inl e ↦ subst IsSafe (sym e) failed
        | inr e ↦ subst IsSafe (sym e) (sends-IsSafe _ _ failed tt)
      ]

  -- `sendMessage` for a contact that exists returns, and changes no contact.
  send_message_returns :
      (sent : Result Bytes Err) (p : ℕ) (k : Contact R) (c : Client R)
      → lookup p c.heap ≡ some k
      → HoldsCommands k.outbound
      → let r = Messaging.send_message sent p c in
        (r.0 ≡ done tt) × (r.1.op_ch ≡ c.op_ch) × (r.1.heap ≡ c.heap)
  unfolding Messaging.send_message load ◌>>=◌ pure panic
  send_message_returns sent p k c at holds = elim (Result-cases (peek k.outbound)) [
    | inr (x, e) ↦ ground (arith, at, e)
    | inl (cmd?, e) ↦ elim (Option-cases cmd?) [
      | inl n ↦ absurd (peek-ne-nil k.outbound holds (e ∙ ap ok n))
      | inr (cmd, n) ↦ unfold transmit in ground (arith, at, e, n, Result-cases sent)
    ]
  ]

module _ {R : Type 0} (env : Env R) where
  pub Step-IsSafe : (s s' : System R) → Step env s s' → IsSafe s → IsSafe s'
  unfolding new_contact remove_contact get_contacts
  Step-IsSafe s _ (turns l t next c running e) v =
      Goes-IsSafe s.client c _
        (subst (Goes s.client) (ap (λ r. r.1) e) ((turn-Keeps env l t).at s.client v.sound tt)) refl
        v.points
  Step-IsSafe s _ (adds nickname secret) v = sends-IsSafe _ s v tt
  Step-IsSafe s _ (removes nickname) v = sends-IsSafe _ s v tt
  Step-IsSafe s _ asks v = sends-IsSafe _ s v tt
  Step-IsSafe s _ (sends_message random nickname message) v =
      send_message-IsSafe random nickname message s v
  Step-IsSafe s _ (fires p k at) v = sends-IsSafe (retransmit p) s v (k, at)
  Step-IsSafe s _ (comes_in before op after e) v = enters-IsSafe before op after s e v
  Step-IsSafe s _ (hands_on x) v = event_sink_worker-IsSafe x s v
  Step-IsSafe s _ (shuts_down faults) v =
      let (halted, e) = shutdown_lem env faults s in
      subst IsSafe (sym e) (
        Goes-IsSafe s.client (save env faults s.client).1 _
          ((Keeps-save {s = nothing} env faults).at s.client v.sound tt) refl v.points)

  -- In every state that the program comes to, from a state that `New` can have been given and by any
  -- interleaving of its goroutines, the client is sound: the two maps of contacts belong together,
  -- every contact's queue holds commands, `opCh` holds no more than it can, and whatever is to be sent
  -- again, in `opCh` or in front of it, is a contact that exists.
  pub Reachable-IsSafe :
      (state : State R) (s : System R) → IsRestorable env state → Reachable env state s → IsSafe s
  Reachable-IsSafe state s ok_state (starts disk launch ps c c' draw doc next resumed started) =
      let at_first = new_client-IsSound env state disk ok_state in
      let g = (resume-Keeps env launch).at (new_client env state disk) at_first tt in
      let v = subst IsSound (ap (λ r. r.1) resumed) g.sound in
      Goes-IsSafe c c' _
        (subst (Goes c) (ap (λ r. r.1) started) ((start_worker-Keeps env draw doc).at c v tt)) refl
        (resume-Finds env launch ps (new_client env state disk) c at_first resumed)
  Reachable-IsSafe state s ok_state (steps s₀ _ r step) =
      Step-IsSafe s₀ s step (Reachable-IsSafe state s₀ ok_state r)

  next_retransmission :
      (y : Yields R) (p : ℕ) (ops : List Op) (c : Client R)
      → c.op_ch ≡ retransmit p ∷ ops
      → next_operation env y c ≡ Messaging.send_message y.sent p (taken env ops c)
  unfolding next_operation work_on ◌>>=◌ gets modify
  next_retransmission y p ops c e = ground (arith, e)

  -- In a state that the program comes to, a request in `opCh` to send again, which may be older than
  -- the removal of its contact, never stops the worker: the request is taken, and no contact changes.
  pub retransmission_returns :
      (state : State R) (s : System R) (p : ℕ) (ops : List Op) (y : Yields R)
      → IsRestorable env state
      → Reachable env state s
      → s.client.op_ch ≡ retransmit p ∷ ops
      → let r = next_operation env y s.client in
        (r.0 ≡ done tt) × (r.1.op_ch ≡ ops) × (r.1.heap ≡ s.client.heap)
  retransmission_returns state s p ops y ok_state reached e =
      let v = (Reachable-IsSafe state s ok_state reached).sound in
      let (k, at) = (subst (AllPointInto s.client.heap) e v.requests).0 in
      rw (next_retransmission y p ops s.client e)
        (send_message_returns y.sent p k (taken env ops s.client) at (v.each p k at).queue)
