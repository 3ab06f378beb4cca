-- ===== src/Client/Registry/Removal.antt =====
-- `doContactRemoval`: the state that it leaves.
use catshadow.Prelude.{
  ℕ, ◌≡◌, refl, ◌⊎◌, inl, inr, Bool, true, false, String, Option, none, some, arith, lookup, insert,
  erase, nat_comparable, string_comparable,
}
use catshadow.Disk.{Faults}
use catshadow.Contact.{Contact, Signal, is_open, is_closed}
use catshadow.Client.{
  ◌>>=◌, Client, Env, Outcome, done, panicked, closed_twice, save_failed, load, store, save,
}
use catshadow.Client.Steps.{save-Saves}
use catshadow.Client.Registry.{do_contact_removal, shut_exchange_down}

module _ {R : Type 0} (env : Env R) where
  abbrev pub closed : Contact R → Contact R
  closed k = record k { panda_shutdown_chan = some is_closed }

  -- Whether a key exchange listens on the contact's channel, and whether the channel is open.
  abbrev pub HasNone : Contact R → Type 0
  HasNone k = (k.is_pending ≡ false) ⊎ (k.panda_shutdown_chan ≡ none)

  abbrev pub HasOpen : Contact R → Type 0
  HasOpen k = (k.is_pending ≡ true) × (k.panda_shutdown_chan ≡ some is_open)

  abbrev pub HasClosed : Contact R → Type 0
  HasClosed k = (k.is_pending ≡ true) × (k.panda_shutdown_chan ≡ some is_closed)

  -- What shutting a key exchange down leaves: the same state, with the channel closed if it was open.
  abbrev ShutsDown : ℕ → Contact R → Client R → Outcome (Unit {0}) × Client R → Type 0
  ShutsDown p k c r =
      (HasNone k × (r ≡ (done tt, c)))
      ⊎ ((HasOpen k × (r ≡ (done tt, record c { heap = insert p (closed k) c.heap })))
          ⊎ (HasClosed k × (r ≡ (panicked closed_twice, c))))

  shut_exchange_down-ShutsDown :
      (p : ℕ) (k : Contact R) (c : Client R)
      → lookup p c.heap ≡ some k
      → ShutsDown p k c (shut_exchange_down env p c)
  unfolding ◌>>=◌ shut_exchange_down load store
  shut_exchange_down-ShutsDown p k c h = cases k.is_pending k.panda_shutdown_chan refl refl
    where
      cases :
          (b : Bool) (ch : Option Signal)
          → k.is_pending ≡ b
          → k.panda_shutdown_chan ≡ ch
          → ShutsDown p k c (shut_exchange_down env p c)
      cases false ch b e = inl (inl b, ground (arith, h, b))
      cases true none b e = inl (inr e, ground (arith, h, b, e))
      cases true (some is_open) b e = inr (inl ((b, e), ground (arith, h, b, e)))
      cases true (some is_closed) b e = inr (inr ((b, e), ground (arith, h, b, e)))

  abbrev without : String → Contact R → Client R → Client R
  without nickname k c = record c {
    contact_nicknames = erase nickname c.contact_nicknames;
    contacts = erase k.id c.contacts;
  }

  -- The state after a removal that found the contact: both maps have lost it, and the heap differs in
  -- that contact's channel, which is closed now, if it was open and the contact pending.
  pub record Removed (nickname : String) (p : ℕ) (k : Contact R) (c c' : Client R) : Type 0 where
    pub names : c'.contact_nicknames ≡ erase nickname c.contact_nicknames
    pub ids : c'.contacts ≡ erase k.id c.contacts
    pub sends : c'.send_map ≡ c.send_map
    pub address : c'.next_address ≡ c.next_address
    pub ops : c'.op_ch ≡ c.op_ch
    pub events : c'.event_ch ≡ c.event_ch
    pub heap :
        (HasNone k × (c'.heap ≡ c.heap)) ⊎ (HasOpen k × (c'.heap ≡ insert p (closed k) c.heap))

  saved-Removed :
      (faults : Faults) (nickname : String) (p : ℕ) (k : Contact R) (c c₁ : Client R)
      → Removed nickname p k c c₁
      → Removed nickname p k c (save env faults c₁).1
  saved-Removed faults nickname p k c c₁ r =
      let (_, d, e) = save-Saves env faults c₁ in
      rw e (record {
        names = r.names;
        ids = r.ids;
        sends = r.sends;
        ops = r.ops;
        events = r.events;
        address = r.address;
        heap = r.heap;
      })

  removal_goes_on :
      (faults : Faults) (nickname : String) (p : ℕ) (k : Contact R) (c c₁ : Client R)
      → lookup nickname c.contact_nicknames ≡ some p
      → lookup p c.heap ≡ some k
      → shut_exchange_down env p c ≡ (done tt, c₁)
      → do_contact_removal env faults nickname c ≡ save env faults (without nickname k c₁)
  unfolding ◌>>=◌ do_contact_removal load
  removal_goes_on faults nickname p k c c₁ n h e = ground (arith, n, h, e)

  removal_stops :
      (faults : Faults) (nickname : String) (p : ℕ) (k : Contact R) (c : Client R)
      → lookup nickname c.contact_nicknames ≡ some p
      → lookup p c.heap ≡ some k
      → shut_exchange_down env p c ≡ (panicked closed_twice, c)
      → do_contact_removal env faults nickname c ≡ (panicked closed_twice, c)
  unfolding ◌>>=◌ do_contact_removal load
  removal_stops faults nickname p k c n h e = ground (arith, n, h, e)

  -- The removal of a contact that the client has stops with a panic and changes nothing, where the
  -- contact is pending and its channel was closed before. Otherwise it takes the contact out of both
  -- maps; if the contact is pending and its channel open, it closes the channel, and else it changes no
  -- contact; messages that are on their way keep their entries in the send map. It returns, or ends
  -- with the panic of a failed save.
  pub do_contact_removal-Removed :
      (faults : Faults) (nickname : String) (p : ℕ) (k : Contact R) (c : Client R)
      → lookup nickname c.contact_nicknames ≡ some p
      → lookup p c.heap ≡ some k
      → let r = do_contact_removal env faults nickname c in
        (HasClosed k × (r ≡ (panicked closed_twice, c)))
        ⊎ (Removed nickname p k c r.1 × ((r.0 ≡ done tt) ⊎ (r.0 ≡ panicked save_failed)))
  do_contact_removal-Removed faults nickname p k c n h =
      elim (shut_exchange_down-ShutsDown p k c h) [
        | inl (none_there, e) ↦
            let gone = without nickname k c in
            inr (
              rw (removal_goes_on faults nickname p k c c n h e) (
                saved-Removed faults nickname p k c gone (record {
                  names = refl;
                  ids = refl;
                  sends = refl;
                  address = refl;
                  ops = refl;
                  events = refl;
                  heap = inl (none_there, refl);
                }),
                (save-Saves env faults gone).0,
              ))
        | inr (inl (open_there, e)) ↦
            let c₁ = record c { heap = insert p (closed k) c.heap } in
            let gone = without nickname k c₁ in
            inr (
              rw (removal_goes_on faults nickname p k c c₁ n h e) (
                saved-Removed faults nickname p k c gone (record {
                  names = refl;
                  ids = refl;
                  sends = refl;
                  address = refl;
                  ops = refl;
                  events = refl;
                  heap = inr (open_there, refl);
                }),
                (save-Saves env faults gone).0,
              ))
        | inr (inr (closed_there, e)) ↦
            inl (closed_there, removal_stops faults nickname p k c n h e)
      ]
