-- ===== src/Client/InFlight.antt =====
-- What the session reports on a message whose contact has been removed meanwhile.
use catshadow.Prelude.{
  ℕ, ◌≡◌, ◌≢◌, ap, ◌∙◌, Bytes, String, Option, none, some, Result, ok, true, arith, lookup,
  lookup-erase_self, nat_comparable, string_comparable, ==_iff, Option-cases, inl, inr,
}
use catshadow.Disk.{Faults}
use catshadow.Contact.{Err}
use catshadow.Client.{
  ◌>>=◌, Client, Env, done, panicked, contact_not_found, contact_missing, by_value,
  send_key_comparable, SentMessageDescriptor, SpoolResponse, load, deferred,
}
use catshadow.Client.Registry.Removal.{do_contact_removal-Removed}
use catshadow.Client.Registry.{do_contact_removal}
use catshadow.Client.Messaging.{SentEvent, handle_sent}
use catshadow.Client.Inbox.{ReplyEvent, handle_reply, dispatch_reply}

module _ {R : Type 0} (env : Env R) where
  -- A removal that returns has taken the nickname out of the map, whether or not it was there, and
  -- has left the send map alone.
  removed :
      (faults : Faults) (nickname : String) (c : Client R)
      → (do_contact_removal env faults nickname c).0 ≡ done tt
      → let c' = (do_contact_removal env faults nickname c).1 in
        (lookup nickname c'.contact_nicknames ≡ none) × (c'.send_map ≡ c.send_map)
  removed faults nickname c e = elim (Option-cases (lookup nickname c.contact_nicknames)) [
    | inl n ↦ unfold ◌>>=◌ do_contact_removal in ground (arith, n)
    | inr (p, n) ↦ elim (Option-cases (lookup p c.heap)) [
      | inl h ↦ unfold ◌>>=◌ do_contact_removal load in ground (arith, n, h)
      | inr (k, h) ↦ elim (do_contact_removal-Removed env faults nickname p k c n h) [
        | inl (_, stopped) ↦ ground (arith, stopped)
        | inr (r, _) ↦
            (ap (lookup nickname) r.names ∙ lookup-erase_self nickname c.contact_nicknames, r.sends)
      ]
    ]
  ]

  -- A contact is removed while a message to it is on its way, that is, while the send map has an
  -- entry for it. Then the session's next report on that message stops the client with a panic: the
  -- report that it was sent or not sent, and the reply in which the spool accepts it.
  pub in_flight-panics :
      (faults : Faults) (nickname : String) (id : Bytes) (tp : SentMessageDescriptor)
      (event : SentEvent) (reply : ReplyEvent) (response : SpoolResponse) (sent : Result Bytes Err)
      (now : ℕ) (random : Option Bytes) (c : Client R)
      → lookup (by_value id) c.send_map ≡ some tp
      → tp.nickname ≡ nickname
      → nickname ≢ env.user
      → (do_contact_removal env faults nickname c).0 ≡ done tt
      → event.message_id.value ≡ id
      → reply.message_id.value ≡ id
      → env.spool_response_from_bytes reply.payload ≡ ok response
      → response.is_ok ≡ true
      → let c' = (do_contact_removal env faults nickname c).1 in
        ((handle_sent env event c').0 ≡ panicked contact_not_found)
        × ((handle_reply env sent now random reply c').0 ≡ panicked contact_missing)
  unfolding ◌>>=◌ handle_sent handle_reply dispatch_reply deferred
  in_flight-panics faults nickname id tp event reply response sent now random c entry to other done_
        at at' parsed fine =
      let (gone, same) = removed faults nickname c done_ in
      let entry' : lookup (by_value id) (do_contact_removal env faults nickname c).1.send_map
          ≡ some tp =
        ap (lookup (by_value id)) same ∙ entry in
      let gone' : lookup tp.nickname (do_contact_removal env faults nickname c).1.contact_nicknames
          ≡ none =
        rw to gone in
      let other' : tp.nickname ≢ env.user = rw to other in
      (
        rw at (ground (arith, entry', gone', other', ==_iff tp.nickname env.user)),
        rw at' (ground (arith, entry', gone', other', parsed, fine, ==_iff tp.nickname env.user)),
      )
