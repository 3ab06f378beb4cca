-- ===== src/Client/Sound/Startup.antt =====
-- `New` makes a sound client of a state whose contacts differ in their IDs and in their nicknames.
use catshadow.Prelude.{
  ℕ, ◌≡◌, ◌≢◌, refl, sym, ◌∙◌, String, List, [], ◌∷◌, Map, none, arith, lookup, insert,
  lookup-insert_ne, nat_comparable, string_comparable,
}
use catshadow.Disk.{Disk}
use catshadow.Queue.Refine.{HoldsCommands}
use catshadow.Contact.{Contact}
use catshadow.Client.{Client, Env, State}
use catshadow.Client.Registry.{add}
use catshadow.Client.Startup.{allocated, restore, new_client, HasNoId, HaveDistinctIds}
use catshadow.Client.Sound.{IsSound}
use catshadow.Client.Sound.Adding.{add-Goes}

module _ {R : Type 0} where
  abbrev pub HasNoNickname : String → List (Contact R) → Type 0
  HasNoNickname nickname [] = Unit
  HasNoNickname nickname (k ∷ ks) = (k.nickname ≢ nickname) × HasNoNickname nickname ks

  abbrev pub HaveDistinctNicknames : List (Contact R) → Type 0
  HaveDistinctNicknames [] = Unit
  HaveDistinctNicknames (k ∷ ks) = HasNoNickname k.nickname ks × HaveDistinctNicknames ks

  abbrev pub HaveValidQueues : List (Contact R) → Type 0
  HaveValidQueues [] = Unit
  HaveValidQueues (k ∷ ks) = HoldsCommands k.outbound × HaveValidQueues ks

module _ {R : Type 0} (env : Env R) where
  -- A state that the client can have saved.
  pub record IsRestorable (state : State R) : Type 0 where
    pub ids : HaveDistinctIds env state.contacts
    pub nicknames : HaveDistinctNicknames state.contacts
    pub queues : HaveValidQueues state.contacts

  -- None of the contacts is in the maps.
  abbrev AllNew : List (Contact R) → Map ℕ ℕ → Map String ℕ → Type 0
  AllNew [] ids names = Unit
  AllNew (k ∷ ks) ids names =
      (lookup k.id ids ≡ none) × (lookup k.nickname names ≡ none) × AllNew ks ids names

  insert-AllNew :
      (ks : List (Contact R)) (id n : ℕ) (nickname : String) (ids : Map ℕ ℕ) (names : Map String ℕ)
      → AllNew ks ids names
      → HasNoId env id ks
      → HasNoNickname nickname ks
      → AllNew ks (insert id n ids) (insert nickname n names)
  insert-AllNew [] id n nickname ids names f a b = tt
  insert-AllNew (k ∷ ks) id n nickname ids names (f, g, fs) (a, as_) (b, bs) = (
    lookup-insert_ne id k.id n ids (λ e. a (sym e)) ∙ f,
    lookup-insert_ne nickname k.nickname n names (λ e. b (sym e)) ∙ g,
    insert-AllNew ks id n nickname ids names fs as_ bs,
  )

  nothing-AllNew : (ks : List (Contact R)) → AllNew ks [] []
  unfolding lookup
  nothing-AllNew [] = tt
  nothing-AllNew (k ∷ ks) = (refl, refl, nothing-AllNew ks)

  restore-IsSound :
      (ks : List (Contact R)) (c : Client R)
      → HaveDistinctIds env ks
      → HaveDistinctNicknames ks
      → HaveValidQueues ks
      → AllNew ks c.contacts c.contact_nicknames
      → IsSound c
      → IsSound (restore env ks c)
  unfolding restore add
  restore-IsSound [] c d e q f v = v
  restore-IsSound (k ∷ ks) c (a, d) (b, e) (valid, q) (f, g, fs) v =
      restore-IsSound ks (add env k c).1 d e q
        (insert-AllNew ks k.id c.next_address k.nickname c.contacts c.contact_nicknames fs a b)
        (add-Goes env k c v valid f g).sound

  allocated-IsSound : (state : State R) (disk : Disk) → IsSound (allocated env state disk)
  unfolding lookup
  allocated-IsSound state disk = record {
    by_name = λ n p h. ground (arith, h);
    by_id = λ i p h. ground (arith, h);
    each = λ p k h. ground (arith, h);
    requests = tt;
    distinct = tt;
    room = omega arith;
  }

  pub new_client-IsSound :
      (state : State R) (disk : Disk) → IsRestorable state → IsSound (new_client env state disk)
  unfolding new_client
  new_client-IsSound state disk r =
      restore-IsSound state.contacts (allocated env state disk) r.ids r.nicknames r.queues
        (nothing-AllNew state.contacts) (allocated-IsSound state disk)
