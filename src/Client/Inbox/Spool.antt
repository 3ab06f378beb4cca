-- ===== src/Client/Inbox/Spool.antt =====
-- `handleReply` for the client's own spool: every message of the spool is taken up at most once, and
-- in order.
use catshadow.Prelude.{
  ℕ, ◌+◌, ◌%◌, ◌^◌, ◌<◌, ◌≡◌, refl, ◌⊎◌, inl, inr, Bytes, [], ◌∷◌, Map, Option, some, arith, lookup,
  insert, nat_comparable, Option-cases,
}
use catshadow.Contact.{SpoolReadDescriptor}
use catshadow.Client.{
  ◌>>=◌, Client, Env, done, panicked, not_requested_yet, SpoolResponse, put_message, emit, fatal,
}
use catshadow.Client.Inbox.{try_contacts, record_received, decrypt_message, advance, receive}

module _ {R : Type 0} (env : Env R) where
  try_contacts-reader :
      (ciphertext : Bytes) (ids : Map ℕ ℕ) (c : Client R)
      → (try_contacts env ciphertext ids c).1.spool_read_descriptor ≡ c.spool_read_descriptor
  unfolding ◌>>=◌ try_contacts
  try_contacts-reader ciphertext [] c = refl
  try_contacts-reader ciphertext ((i, p) ∷ ids) c = elim (Option-cases (lookup p c.heap)) [
    | inl h ↦ ground (arith, h)
    | inr (k, h) ↦ ground (
      arith,
      h,
      try_contacts-reader ciphertext ids c,
      try_contacts-reader ciphertext ids (record c {
        heap = insert p (record k { ratchet = (env.decrypt k.ratchet ciphertext).1 }) c.heap;
      }),
    )
  ]

  decrypt_message-reader :
      (now : ℕ) (random : Option Bytes) (ciphertext : Bytes) (c : Client R)
      → (decrypt_message env now random ciphertext c).1.spool_read_descriptor
        ≡ c.spool_read_descriptor
  unfolding ◌>>=◌ decrypt_message record_received put_message emit fatal
  decrypt_message-reader now random ciphertext c =
      ground (arith, try_contacts-reader ciphertext c.contacts c)

  advance-reader :
      (now : ℕ) (random : Option Bytes) (ciphertext : Bytes) (d : SpoolReadDescriptor)
      (c : Client R)
      → (advance env now random ciphertext d c).1.spool_read_descriptor
        ≡ some (env.increment_offset d)
  unfolding ◌>>=◌ advance
  advance-reader now random ciphertext d c = ground (
    arith,
    decrypt_message-reader now random ciphertext
        (record c { spool_read_descriptor = some (env.increment_offset d) }),
  )

  -- `IncrementOffset` adds one to the offset, a `uint32`, and changes nothing else.
  abbrev pub IncrementsOffset : Type 0
  IncrementsOffset =
      (e : SpoolReadDescriptor)
      → env.increment_offset e ≡ record e { read_offset = (e.read_offset + 1) % 2 ^ 32 }

  -- A response to the client's own spool either is older than the offset, and changes nothing; or is
  -- the one at the offset, and moves the offset on by one, as a `uint32`, and changes nothing else of
  -- the descriptor, whatever becomes of its message; or is ahead of the offset, and stops the client
  -- with a panic before anything is changed.
  pub receive_order :
      (now : ℕ) (random : Option Bytes) (response : SpoolResponse) (d : SpoolReadDescriptor)
      (c : Client R)
      → IncrementsOffset
      → c.spool_read_descriptor ≡ some d
      → let r = receive env now random response c in
        ((response.message_id < d.read_offset) × (r ≡ (done tt, c)))
        ⊎ (((response.message_id ≡ d.read_offset)
              × (r.1.spool_read_descriptor
                  ≡ some (record d { read_offset = (d.read_offset + 1) % 2 ^ 32 })))
            ⊎ ((d.read_offset < response.message_id) × (r ≡ (panicked not_requested_yet, c))))
  unfolding ◌>>=◌ receive
  receive_order now random response d c law h =
      ground (arith, h, law d, advance-reader now random response.message d c)

  -- Once the response at the offset has been taken up, the same response changes nothing any more:
  -- its message cannot arrive twice. (The offset is a `uint32` that has not reached its end, and
  -- `IncrementOffset` adds one to it.)
  pub receive_twice :
      (now now' : ℕ) (random random' : Option Bytes) (response : SpoolResponse)
      (d : SpoolReadDescriptor) (c : Client R)
      → IncrementsOffset
      → c.spool_read_descriptor ≡ some d
      → response.message_id ≡ d.read_offset
      → d.read_offset + 1 < 2 ^ 32
      → let c' = (receive env now random response c).1 in
        receive env now' random' response c' ≡ (done tt, c')
  receive_twice now now' random random' response d c law h e small =
      let c' = (receive env now random response c).1 in
      let d' = record d { read_offset = (d.read_offset + 1) % 2 ^ 32 } in
      let moved : c'.spool_read_descriptor ≡ some d' =
        ground (arith, receive_order now random response d c law h) in
      ground (arith, e, small, receive_order now' random' response d' c' law moved)
