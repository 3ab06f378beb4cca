-- ===== src/Client/Sound.antt =====
-- What is true of the client's state as a whole, whatever the worker has done: the two maps of
-- contacts belong together, every contact's queue holds commands, what waits to be sent again is a
-- contact that exists, no ID is listed twice, and the channel of operations holds no more than it can.
pub mod Keeps
pub mod Actions
pub mod Messaging
pub mod Inbox
pub mod Exchanges
pub mod Starting
pub mod Adding
pub mod Removing
pub mod Worker
pub mod Launch
pub mod Startup
pub mod Saving
use catshadow.Prelude.{
  ℕ, ◌<◌, ◌≤◌, ◌≡◌, refl, sym, ap, ◌∙◌, subst, String, List, [], ◌∷◌, ◌++◌, Map, Option, none, some,
  arith, Distinct, lookup, insert, lookup-insert_self, lookup-insert_ne, lookup-insert,
  nat_comparable, string_comparable, Bool-cases, inl, inr, ◌==◌, ==_iff, length,
}
use catshadow.Queue.Refine.{HoldsCommands}
use catshadow.Contact.{Contact}
use catshadow.Client.{
  Client, Op, add_contact, remove_contact, send_message, get_contacts, unknown_operation,
  retransmit, op_ch_capacity,
}

-- What a method may know of the contacts while it runs: nothing, or that the contact at an address
-- has an ID and a nickname.
pub data Fact : Type 0 where
  nothing : Fact
  stands : ℕ → ℕ → String → Fact

module _ {R : Type 0} where
  -- The contact at this address has this ID and this nickname.
  pub record Stands (p id : ℕ) (nickname : String) (heap : Map ℕ (Contact R)) : Type 0 where
    pub contact : Contact R
    pub at : lookup p heap ≡ some contact
    pub same_id : contact.id ≡ id
    pub same_nickname : contact.nickname ≡ nickname

  -- A contact that an operation points to exists.
  abbrev pub PointsInto : Map ℕ (Contact R) → Op → Type 0
  PointsInto heap (retransmit p) = (k : Contact R) × (lookup p heap ≡ some k)
  PointsInto heap (add_contact _ _) = Unit
  PointsInto heap (remove_contact _) = Unit
  PointsInto heap (send_message _ _ _) = Unit
  PointsInto heap get_contacts = Unit
  PointsInto heap unknown_operation = Unit

  abbrev pub AllPointInto : Map ℕ (Contact R) → List Op → Type 0
  AllPointInto heap [] = Unit
  AllPointInto heap (op ∷ ops) = PointsInto heap op × AllPointInto heap ops

  -- A contact's queue is valid, and its address was allocated.
  pub record IsSoundContact (next p : ℕ) (k : Contact R) : Type 0 where
    pub queue : HoldsCommands k.outbound
    pub allocated : p < next

  -- The invariant, in the fields of the client that it is about.
  pub record IsSoundFor (heap : Map ℕ (Contact R)) (next : ℕ) (ids : Map ℕ ℕ) (names : Map String ℕ)
      (ops : List Op) : Type 0 where
    pub by_name :
        (nickname : String) (p : ℕ)
        → lookup nickname names ≡ some p
        → (id : ℕ) × Stands p id nickname heap × (lookup id ids ≡ some p)
    pub by_id :
        (id p : ℕ)
        → lookup id ids ≡ some p
        → (nickname : String) × Stands p id nickname heap × (lookup nickname names ≡ some p)
    pub each : (p : ℕ) (k : Contact R) → lookup p heap ≡ some k → IsSoundContact next p k
    pub requests : AllPointInto heap ops
    pub distinct : Distinct ids
    pub room : length ops ≤ op_ch_capacity

  abbrev pub IsSound : Client R → Type 0
  IsSound c = IsSoundFor c.heap c.next_address c.contacts c.contact_nicknames c.op_ch

  -- Every contact that stands in the first heap stands in the second.
  abbrev pub Extends : Map ℕ (Contact R) → Map ℕ (Contact R) → Type 0
  Extends heap heap' =
      (p id : ℕ) (nickname : String) → Stands p id nickname heap → Stands p id nickname heap'

  abbrev pub Holds : Fact → Map ℕ (Contact R) → Type 0
  Holds nothing heap = Unit
  Holds (stands p id nickname) heap = Stands p id nickname heap

  pub Extends-Holds :
      (s : Fact) (heap heap' : Map ℕ (Contact R))
      → Extends heap heap'
      → Holds s heap
      → Holds s heap'
  Extends-Holds nothing heap heap' e h = tt
  Extends-Holds (stands p id nickname) heap heap' e h = e p id nickname h

  -- An address that leads to a contact leads to one later.
  pub Extends-PointsInto :
      (op : Op) (heap heap' : Map ℕ (Contact R))
      → Extends heap heap'
      → PointsInto heap op
      → PointsInto heap' op
  Extends-PointsInto (retransmit p) heap heap' e (k, h) =
      let s =
        e p k.id k.nickname
          (record { contact = k; at = h; same_id = refl; same_nickname = refl }) in
      (s.contact, s.at)
  Extends-PointsInto (add_contact _ _) heap heap' e h = tt
  Extends-PointsInto (remove_contact _) heap heap' e h = tt
  Extends-PointsInto (send_message _ _ _) heap heap' e h = tt
  Extends-PointsInto get_contacts heap heap' e h = tt
  Extends-PointsInto unknown_operation heap heap' e h = tt

  pub Extends-AllPointInto :
      (ops : List Op) (heap heap' : Map ℕ (Contact R))
      → Extends heap heap'
      → AllPointInto heap ops
      → AllPointInto heap' ops
  Extends-AllPointInto [] heap heap' e h = tt
  Extends-AllPointInto (op ∷ ops) heap heap' e (h, hs) =
      (Extends-PointsInto op heap heap' e h, Extends-AllPointInto ops heap heap' e hs)

  pub append-AllPointInto :
      (heap : Map ℕ (Contact R)) (ops : List Op) (op : Op)
      → AllPointInto heap ops
      → PointsInto heap op
      → AllPointInto heap (ops ++ op ∷ [])
  append-AllPointInto heap [] op h x = (x, tt)
  append-AllPointInto heap (o ∷ ops) op (h, hs) x = (h, append-AllPointInto heap ops op hs x)

  -- A write through a pointer that keeps the contact's ID and nickname.
  pub insert-Extends :
      (p : ℕ) (k : Contact R) (heap : Map ℕ (Contact R))
      → Stands p k.id k.nickname heap
      → Extends heap (insert p k heap)
  insert-Extends p k heap s q id nickname s' = elim (Bool-cases (p == q)) [
    | inl e ↦
        let same : p ≡ q = (==_iff p q).0 e in
        let who : some s.contact ≡ some s'.contact =
          sym s.at ∙ ap (λ (x : ℕ). lookup x heap) same ∙ s'.at in
        let who' : s.contact ≡ s'.contact = ground (arith, who) in
        record {
          contact = k;
          at =
              subst (λ (x : ℕ). lookup x (insert p k heap) ≡ some k) same
                (lookup-insert_self p k heap);
          same_id = sym s.same_id ∙ ap (λ (x : Contact R). x.id) who' ∙ s'.same_id;
          same_nickname =
              sym s.same_nickname ∙ ap (λ (x : Contact R). x.nickname) who' ∙ s'.same_nickname;
        }
    | inr e ↦ record {
      contact = s'.contact;
      at = ground (arith, s'.at, e, lookup-insert p q k heap);
      same_id = s'.same_id;
      same_nickname = s'.same_nickname;
    }
  ]

  -- A larger heap, in which every contact is sound, keeps the invariant.
  pub IsSoundFor-Extends :
      {heap heap' : Map ℕ (Contact R)} {next : ℕ} {ids : Map ℕ ℕ} {names : Map String ℕ}
      {ops : List Op}
      → IsSoundFor heap next ids names ops
      → Extends heap heap'
      → ((p : ℕ) (k : Contact R) → lookup p heap' ≡ some k → IsSoundContact next p k)
      → IsSoundFor heap' next ids names ops
  IsSoundFor-Extends {heap} {heap'} {ops = ops} v e each' = record {
    by_name = λ n p h. let (id, s, i) = v.by_name n p h in (id, e p id n s, i);
    by_id = λ id p h. let (n, s, i) = v.by_id id p h in (n, e p id n s, i);
    each = each';
    requests = Extends-AllPointInto ops heap heap' e v.requests;
    room = v.room;
    distinct = v.distinct;
  }
