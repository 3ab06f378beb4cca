-- ===== src/Client/Launch/Waiting.antt =====
-- `Start`: the messages that wait for contacts which are paired.
use catshadow.Prelude.{
  ℕ, ◌≡◌, refl, ◌⊎◌, inl, inr, Bool, true, false, List, [], ◌∷◌, ◌++◌, append-nil, Map, none, some,
  err, arith, lookup, nat_comparable, Bool-cases, ltb, not, ◌&&◌, if◌then◌else◌,
}
use catshadow.Queue.{peek}
use catshadow.Contact.{Contact, Err}
use catshadow.Conversation.{garbage_collect_conversations}
use catshadow.Client.{Client, Env, Exchange, done, load, ◌>>=◌, panda, pure}
use catshadow.Client.Registry.Meeting.{get_reunion_transports}
use catshadow.Client.Launch.{Launch, launch_contacts, requests, resume, start}

module _ {R : Type 0} where
  -- The contact is paired, and commands wait in its queue.
  abbrev pub waits : Contact R → Bool
  waits k = not k.is_pending && ltb 0 k.outbound.len

  -- The addresses of the contacts for which commands wait.
  unfoldable pub waiting : Map ℕ (Contact R) → Map ℕ ℕ → List ℕ
  waiting heap [] = []
  waiting heap ((_, p) ∷ ids) =
      let rest = waiting heap ids in
      elim (lookup p heap) [ none ↦ rest | some k ↦ if waits k then p ∷ rest else rest ]

module _ {R : Type 0} (env : Env R) (launch : Launch) where
  abbrev pub NoReunion : Type 0
  NoReunion = (env.reunion_enabled ≡ none) ⊎ (env.reunion_enabled ≡ some false)

  -- If there is PANDA, what a pending contact has of its exchange is taken up without an error.
  abbrev pub TakesUp : Contact R → Type 0
  TakesUp k =
      k.is_pending ≡ true
      → env.panda_configured ≡ true
      → launch.from_state k.panda_key_exchange ≡ none

  -- Every ID leads to a contact, whose exchange is taken up if it is pending.
  abbrev pub AllThere : Map ℕ (Contact R) → Map ℕ ℕ → Type 0
  AllThere heap [] = Unit
  AllThere heap ((_, p) ∷ ids) =
      ((k : Contact R) × (lookup p heap ≡ some k) × TakesUp k) × AllThere heap ids

  -- The loop finds these contacts, and starts exchanges.
  Finds : Map ℕ ℕ → Client R → Type 0
  Finds ids c =
      (r : List Exchange) × (launch_contacts env launch ids c
        ≡ (done (waiting c.heap ids), record c { running = r }))

  -- What the first contact makes of the rest of the loop.
  launch_pending :
      (id p : ℕ) (ids : Map ℕ ℕ) (k : Contact R) (c : Client R)
      → NoReunion
      → TakesUp k
      → lookup p c.heap ≡ some k
      → k.is_pending ≡ true
      → launch_contacts env launch ((id, p) ∷ ids) c
        ≡ launch_contacts env launch ids
            (if env.panda_configured then record c { running = panda k.id ∷ c.running } else c)
  unfolding ◌>>=◌ launch_contacts load
  launch_pending id p ids k c u up at h = elim u [
    | inl off ↦ ground (arith, at, h, off, up h)
    | inr off ↦ ground (arith, at, h, off, up h)
  ]

  launch_paired :
      (id p : ℕ) (ids : Map ℕ ℕ) (k : Contact R) (c : Client R)
      → lookup p c.heap ≡ some k
      → k.is_pending ≡ false
      → launch_contacts env launch ((id, p) ∷ ids) c ≡ (
          if ltb 0 k.outbound.len
          then (launch_contacts env launch ids >>= λ ps. pure (p ∷ ps)) c
          else launch_contacts env launch ids c)
  unfolding ◌>>=◌ launch_contacts load peek
  launch_paired id p ids k c at h = ground (arith, at, h)

  launch_contacts-Finds :
      (ids : Map ℕ ℕ) (c : Client R) → NoReunion → AllThere c.heap ids → Finds ids c
  unfolding ◌>>=◌ Finds waiting
  launch_contacts-Finds [] c u t = unfold launch_contacts in (c.running, refl)
  launch_contacts-Finds ((id, p) ∷ ids) c u ((k, at, up), t) = elim (Bool-cases k.is_pending) [
    | inl h ↦
        let c₁ =
          if env.panda_configured then record c { running = panda k.id ∷ c.running } else c in
        let (r, e) = launch_contacts-Finds ids (record c { running = c₁.running }) u t in
        (r, ground (arith, launch_pending id p ids k c u up at h, e, at, h))
    | inr h ↦
        let (r, e) = launch_contacts-Finds ids c u t in
        (r, ground (arith, launch_paired id p ids k c at h, e, at, h))
  ]

  -- A client that does not use Reunion, and that either has no PANDA configured or takes up the PANDA
  -- exchange of every pending contact without an error, asks itself, when it starts, to send to every
  -- contact that is paired and has commands waiting, to each once and to no other, the last of the map
  -- first; the contacts are left as they were. Every ID in its map leads to a contact.
  pub start-requests :
      (c : Client R)
      → NoReunion
      → AllThere c.heap c.contacts
      → let r = start env launch c in
        (r.0 ≡ done tt)
        × (r.1.op_ch ≡ c.op_ch ++ requests (waiting c.heap c.contacts))
        × (r.1.heap ≡ c.heap)
  unfolding ◌>>=◌ start resume Finds
  start-requests c u t =
      let c₁ = record c {
        conversations = garbage_collect_conversations launch.now c.conversations;
      } in
      let (r, e) = launch_contacts-Finds c.contacts c₁ u t in
      (ground (arith, e), ground (arith, e), ground (arith, e))

  -- Where Reunion is on and has no transport, the start ends at the first pending contact: if the map
  -- yields one first, no message is sent to any contact, whatever waits for the others.
  pub start-stops_short :
      (id p : ℕ) (ids : Map ℕ ℕ) (k : Contact R) (e : Err) (c : Client R)
      → c.contacts ≡ (id, p) ∷ ids
      → lookup p c.heap ≡ some k
      → k.is_pending ≡ true
      → env.reunion_enabled ≡ some true
      → get_reunion_transports launch.document ≡ err e
      → let r = start env launch c in
        (r.0 ≡ done tt) × (r.1.op_ch ≡ c.op_ch) × (r.1.running ≡ c.running)
  unfolding ◌>>=◌ start resume launch_contacts load requests
  start-stops_short id p ids k e c order at h on none_there = (
    ground (arith, order, at, h, on, none_there),
    ground (arith, order, at, h, on, none_there, append-nil c.op_ch),
    ground (arith, order, at, h, on, none_there),
  )
