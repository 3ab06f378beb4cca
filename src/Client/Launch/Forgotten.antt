-- ===== src/Client/Launch/Forgotten.antt =====
-- `Start`: the Reunion exchanges of a contact that was saved and loaded.
use catshadow.Prelude.{
  ℕ, ◌≡◌, ◌≢◌, refl, ap, ◌∙◌, false, List, [], ◌∷◌, Map, none, some, arith, lookup, insert, erase,
  lookup-erase, lookup-insert_self, nat_comparable, string_comparable, ==_iff, ◌==◌, Bool-cases,
  inl, inr,
}
use catshadow.Contact.{BoundExchange, Contact}
use catshadow.Contact.Codec.{emptied, zero_exchange}
use catshadow.Client.{◌>>=◌, Client, done, load, store}
use catshadow.Client.Registry.Meeting.{Transport}
use catshadow.Client.Launch.{Launch, try_transports, resume_exchanges}

-- Every transport says whom it is for.
abbrev pub AllNamed : List Transport → Type 0
AllNamed [] = Unit
AllNamed (tr ∷ trs) = (tr.recipient ≢ "") × AllNamed trs

-- The map without the keys of the other.
erase_all : Map ℕ BoundExchange → Map ℕ BoundExchange → Map ℕ BoundExchange
erase_all [] m = m
erase_all ((id, ex) ∷ exs) m = erase_all exs (erase id m)

lookup-erase_all :
    (exs m : Map ℕ BoundExchange) (id : ℕ)
    → (lookup id exs ≡ none → lookup id m ≡ none)
    → lookup id (erase_all exs m) ≡ none
unfolding erase_all
lookup-erase_all [] m id h = unfold lookup in h refl
lookup-erase_all ((j, ex) ∷ exs) m id h = lookup-erase_all exs (erase j m) id (λ gone.
    elim (Bool-cases (j == id)) [
      | inl e ↦ ground (arith, e, lookup-erase j id m)
      | inr e ↦
          let other : lookup id ((j, ex) ∷ exs) ≡ none = unfold lookup in ground (arith, e, gone) in
          ground (arith, e, lookup-erase j id m, h other)
    ])

lookup-emptied :
    (exs : Map ℕ BoundExchange) (id : ℕ) → lookup id exs ≡ none → lookup id (emptied exs) ≡ none
unfolding lookup
lookup-emptied [] id h = refl
lookup-emptied ((j, ex) ∷ exs) id h = elim (Bool-cases (j == id)) [
  | inl e ↦ ground (arith, e, h)
  | inr e ↦ ground (arith, e, h, lookup-emptied exs id (ground (arith, e, h)))
]

module _ {R : Type 0} (launch : Launch) where
  try_transports-zero :
      (eid : ℕ) (trs : List Transport) (c : Client R)
      → AllNamed trs
      → try_transports launch eid zero_exchange trs c ≡ (done false, c)
  unfolding ◌>>=◌ try_transports
  try_transports-zero eid [] c a = refl
  try_transports-zero eid (tr ∷ trs) c (a, rest) =
      ground (arith, a, ==_iff tr.recipient "", try_transports-zero eid trs c rest)

  -- What is left when the loop has found no transport for any of these exchanges.
  Forgets :
      ℕ → Map ℕ BoundExchange → List Transport → Map ℕ BoundExchange → Contact R → Client R → Type 0
  Forgets p exs trs m k c =
      let r = resume_exchanges launch p trs (emptied exs) c in
      (r.0 ≡ done tt)
      × (r.1.running ≡ c.running)
      × (lookup p r.1.heap ≡ some (record k { reunion_key_exchange = some (erase_all exs m) }))

  resume_exchanges-Forgets :
      (p : ℕ) (exs : Map ℕ BoundExchange) (trs : List Transport) (m : Map ℕ BoundExchange)
      (k : Contact R) (c : Client R)
      → AllNamed trs
      → lookup p c.heap ≡ some k
      → k.reunion_key_exchange ≡ some m
      → Forgets p exs trs m k c
  unfolding ◌>>=◌ Forgets resume_exchanges erase_all
  resume_exchanges-Forgets p [] trs m k c a at has = (refl, refl, ground (arith, at, has))
  resume_exchanges-Forgets p ((id, ex) ∷ exs) trs m k c a at has =
      let k₁ = record k { reunion_key_exchange = some (erase id m) } in
      let c₁ = record c { heap = insert p k₁ c.heap } in
      let (returns, same, left) =
        resume_exchanges-Forgets p exs trs (erase id m) k₁ c₁ a (lookup-insert_self p k₁ c.heap)
          refl in
      let step : resume_exchanges launch p trs (emptied ((id, ex) ∷ exs)) c
          ≡ resume_exchanges launch p trs (emptied exs) c₁ =
        unfold load store in ground (arith, try_transports-zero id trs c a, at, has) in
      (
        ap (λ r. r.0) step ∙ returns,
        ap (λ r. r.1.running) step ∙ same,
        ap (λ r. lookup p r.1.heap) step ∙ left,
      )

  -- A contact that was saved and loaded has lost what its Reunion exchanges hold, so no transport
  -- that has a recipient is theirs: none of them is taken up again, and all are dropped from the
  -- contact, which stays pending.
  pub resume_exchanges-forgets :
      (p : ℕ) (exs : Map ℕ BoundExchange) (trs : List Transport) (k : Contact R) (c : Client R)
      → AllNamed trs
      → lookup p c.heap ≡ some k
      → k.reunion_key_exchange ≡ some (emptied exs)
      → let r = resume_exchanges launch p trs (emptied exs) c in
        (r.0 ≡ done tt)
        × (r.1.running ≡ c.running)
        × (m : Map ℕ BoundExchange) × (lookup p r.1.heap
            ≡ some (record k { reunion_key_exchange = some m }))
        × ((id : ℕ) → lookup id m ≡ none)
  unfolding Forgets
  resume_exchanges-forgets p exs trs k c a at has =
      let (returns, same, left) = resume_exchanges-Forgets p exs trs (emptied exs) k c a at has in
      (
        returns,
        same,
        erase_all exs (emptied exs),
        left,
        λ id. lookup-erase_all exs (emptied exs) id (lookup-emptied exs id),
      )
