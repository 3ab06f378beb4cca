-- ===== src/Client/Registry.antt =====
-- client.go: the two maps of contacts, by ID and by nickname, and how contacts come and go.
pub mod Meeting
pub mod Ids
pub mod Removal
pub mod Addition
pub mod Consistency
use catshadow.Prelude.{
  ℕ, zero, suc, ◌+◌, ◌*◌, ◌^◌, Bool, true, false, Bytes, String, List, [], ◌∷◌, ◌++◌, Map, Option,
  none, some, Result, ok, err, ◌==◌, string_comparable, nat_comparable, lookup, insert, erase,
  if◌then◌else◌,
}
use catshadow.Disk.{Faults}
use catshadow.Contact.{
  Contact, Err, already_exists, both_configured, new_contact, is_open, is_closed,
}
use catshadow.Client.{
  Client, Env, M, Outcome, done, panicked, blocked, pure, panic, ◌>>=◌, ◌>>◌, gets, modify, load,
  store, save, random_failed, nil_pointer, closed_twice, panda,
}
use mathlib.Core.Option
use Meeting.{MeetingPlaces, do_reunion}

-- `binary.LittleEndian.Uint64`
unfoldable pub uint64 : Bytes → ℕ
uint64 [] = 0
uint64 (b ∷ bs) = b + 256 * uint64 bs

-- `randID`, over what the random source yields: eight bytes, or an error. A source that yields only
-- numbers that are refused keeps the loop going for ever.
unfoldable pub rand_id : Map ℕ ℕ → List (Option Bytes) → Outcome ℕ
rand_id contacts [] = blocked
rand_id contacts (none ∷ draws) = panicked random_failed
rand_id contacts (some b ∷ draws) =
    let again = rand_id contacts draws in
    if uint64 b == 0
    then again
    else elim (lookup (uint64 b) contacts) [ some _ ↦ again | none ↦ done (uint64 b) ]

-- What the environment yields while a contact is made.
pub record Creation (R : Type 0) : Type 0 where
  pub draws : List (Option Bytes)
  pub ratchet : Result R Err
  pub panda_exchange : Result Bytes Err
  pub places : MeetingPlaces
  pub faults : Faults

module _ {R : Type 0} (env : Env R) where
  -- `doPANDAExchange`; `started` is what `panda.NewKeyExchange` returns, marshalled.
  unfoldable pub do_panda_exchange : Result Bytes Err → Faults → ℕ → M R (Option Err)
  do_panda_exchange started faults p = elim started [
    | err e ↦ pure (some e)
    | ok kx ↦ do
      contact ← load p
      store p (record contact { panda_key_exchange = some kx; key_exchange = none })
      modify λ c. record c { running = panda contact.id ∷ c.running }
      save env faults
      pure none
  ]

  -- `c.contacts[contact.ID()] = contact` and `c.contactNicknames[contact.Nickname] = contact`, for a
  -- contact that was just allocated.
  unfoldable pub add : Contact R → M R ℕ
  add contact c = (
    done c.next_address,
    record c {
      heap = insert c.next_address contact c.heap;
      next_address = suc c.next_address;
      contacts = insert contact.id c.next_address c.contacts;
      contact_nicknames = insert contact.nickname c.next_address c.contact_nicknames;
    },
  )

  -- `contact.reunionKeyExchange` and `contact.reunionResult` made empty, then `doReunion`.
  unfoldable pub start_reunion : MeetingPlaces → ℕ → M R (Option Err)
  start_reunion places p = do
    contact ← load p
    store p (record contact { reunion_key_exchange = some []; reunion_result = some [] })
    do_reunion places p

  -- The switch of `createContact`.
  unfoldable pub start_exchange : Creation R → ℕ → M R (Option Err)
  start_exchange new p =
      if env.panda_configured
      then elim env.reunion_enabled [
        | some true ↦ pure (some both_configured)
        | _ ↦ do_panda_exchange new.panda_exchange new.faults p
      ]
      else elim env.reunion_enabled [ none ↦ pure none | some _ ↦ start_reunion new.places p ]

  -- `createContact`, with the error that it returns.
  unfoldable pub create_contact : Creation R → String → M R (Option Err)
  create_contact new nickname = do
    known ← gets (λ c. lookup nickname c.contact_nicknames)
    elim known [
      | some _ ↦ pure (some (already_exists nickname))
      | none ↦ do
        id ← λ c. (rand_id c.contacts new.draws, c)
        reader ← gets (λ c. c.spool_read_descriptor)
        let writer = Option.map env.get_write_descriptor reader
        elim (new_contact nickname id writer new.ratchet env.create_key_exchange
            env.marshal_contact_exchange) [
              | none ↦ panic nil_pointer
              | some (err e) ↦ pure (some e)
              | some (ok contact) ↦ do p ← add contact; start_exchange new p
            ]
    ]

  -- `close(contact.pandaShutdownChan)` for a contact that is pending and has the channel.
  unfoldable pub shut_exchange_down : ℕ → M R (Unit {0})
  shut_exchange_down p = do
    contact ← load p
    if contact.is_pending
        then elim contact.panda_shutdown_chan [
          | none ↦ pure tt
          | some is_open ↦ store p (record contact { panda_shutdown_chan = some is_closed })
          | some is_closed ↦ panic closed_twice
        ]
        else pure tt

  -- `doContactRemoval`
  unfoldable pub do_contact_removal : Faults → String → M R (Unit {0})
  do_contact_removal faults nickname = do
    found ← gets (λ c. lookup nickname c.contact_nicknames)
    elim found [
      | none ↦ pure tt
      | some p ↦ do
        contact ← load p
        shut_exchange_down p
        modify λ c. record c {
          contact_nicknames = erase nickname c.contact_nicknames;
          contacts = erase contact.id c.contacts;
        }
        save env faults
    ]
