-- ===== src/Client/Registry/Meeting.antt =====
-- client.go: where a Reunion exchange can take place, and starting one there. The consensus
-- document is a list of providers; the endpoint in it is taken to be text, as the code asserts.
use catshadow.Prelude.{
  ℕ, Bytes, String, List, [], ◌∷◌, Option, none, some, Result, ok, err, insert, nat_comparable,
}
use catshadow.Contact.{Err, no_document, missing_endpoint, no_transports}
use catshadow.Client.{
  M, pure, panic, ◌>>=◌, ◌>>◌, modify, load, store, nil_map, out_of_range, reunion,
}

-- A provider: whether it offers Reunion, and then the endpoint if its descriptor has one.
pub record Provider : Type 0 where
  pub name : String
  pub reunion_service : Option (Option String)

pub record Transport : Type 0 where
  pub recipient : String
  pub provider : String

-- What the network says while exchanges are started: the document, a transport's epochs and shared
-- randoms, with what lies in the spare capacity of that slice, and what `NewExchange` returns there for a shared random and an epoch.
pub record MeetingPlaces : Type 0 where
  pub document : Option (List Provider)
  pub current_epochs : Transport → Result (List ℕ) Err
  pub current_shared_randoms : Transport → Result (List Bytes × List Bytes) Err
  pub new_exchange : Transport → Bytes → ℕ → Result ℕ Err

-- The element of `srvs[0:1]`, which reaches into the spare capacity if there is no shared random;
-- `none` where the slicing panics.
unfoldable pub first_random : List Bytes × List Bytes → Option Bytes
first_random (srv ∷ _, _) = some srv
first_random ([], srv ∷ _) = some srv
first_random ([], []) = none

unfoldable pub transports_of : List Provider → Result (List Transport) Err
transports_of [] = ok []
transports_of (p ∷ ps) =
    let rest = transports_of ps in
    elim p.reunion_service [
      | none ↦ rest
      | some none ↦ err missing_endpoint
      | some (some ep) ↦ elim rest [
        | err e ↦ err e
        | ok trs ↦ ok (record { recipient = ep; provider = p.name } ∷ trs)
      ]
    ]

-- `getReunionTransports`
unfoldable pub get_reunion_transports : Option (List Provider) → Result (List Transport) Err
get_reunion_transports none = err no_document
get_reunion_transports (some ps) = elim (transports_of ps) [
  | err e ↦ err e
  | ok [] ↦ err no_transports
  | ok (tr ∷ trs) ↦ ok (tr ∷ trs)
]

module _ {R : Type 0} (places : MeetingPlaces) where
  open places use {document, current_epochs, current_shared_randoms, new_exchange}

  -- `contact.reunionKeyExchange[ex.ExchangeID] = boundExchange{…}` and `go ex.Run()`.
  unfoldable pub bind_exchange : ℕ → Transport → ℕ → M R (Unit {0})
  bind_exchange p tr exchange_id = do
    contact ← load p
    elim contact.reunion_key_exchange [
      | none ↦ panic nil_map
      | some exs ↦ do
        store p (record contact {
          reunion_key_exchange = some (
              insert exchange_id
                (record { serialized = none; recipient = tr.recipient; provider = tr.provider })
                exs);
        })
        modify λ c. record c { running = reunion exchange_id ∷ c.running }
    ]

  unfoldable pub start_epochs : ℕ → Transport → Bytes → List ℕ → M R (Option Err)
  start_epochs p tr srv [] = pure none
  start_epochs p tr srv (epoch ∷ epochs) =
      let later = start_epochs p tr srv epochs in
      elim (new_exchange tr srv epoch) [
        | err e ↦ pure (some e)
        | ok exchange_id ↦ bind_exchange p tr exchange_id >> later
      ]

  -- One transport: the loop over `srvs[0:1]` goes round once.
  unfoldable pub start_at : ℕ → Transport → M R (Option Err)
  start_at p tr = elim (current_epochs tr) [
    | err e ↦ pure (some e)
    | ok epochs ↦ elim (current_shared_randoms tr) [
      | err e ↦ pure (some e)
      | ok srvs ↦ elim (first_random srvs) [
        | none ↦ panic out_of_range
        | some srv ↦ start_epochs p tr srv epochs
      ]
    ]
  ]

  unfoldable pub start_all : ℕ → List Transport → M R (Option Err)
  start_all p [] = pure none
  start_all p (tr ∷ trs) =
      let later = start_all p trs in
      start_at p tr >>= λ (e : Option Err). elim e [ some e' ↦ pure (some e') | none ↦ later ]

  -- `doReunion`
  unfoldable pub do_reunion : ℕ → M R (Option Err)
  do_reunion p = elim (get_reunion_transports document) [
    | err e ↦ pure (some e)
    | ok trs ↦ start_all p trs
  ]
