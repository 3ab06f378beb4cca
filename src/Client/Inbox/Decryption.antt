-- ===== src/Client/Inbox/Decryption.antt =====
-- `decryptMessage`: which contact a ciphertext is for, and what becomes of the message in it.
use catshadow.Prelude.{
  ℕ, ◌+◌, ◌≤◌, ◌<◌, ◌^◌, ◌≡◌, refl, ap, ◌∙◌, true, false, Bytes, String, [], ◌∷◌, ◌++◌, Map, Option,
  some, arith, length, lookup, insert, lookup-insert_self, nat_comparable, string_comparable,
  bytes_comparable, ==_refl,
}
use catshadow.Payload.{Slice, frame, unframe}
use catshadow.Payload.Framing.{unframe-frame, unframe-frame_overlong}
use catshadow.Contact.{Contact}
use catshadow.Conversation.{Message, message_at, put}
use catshadow.Conversation.Expiry.{message_at-put}
use catshadow.Client.{
  ◌>>=◌, Client, Env, Outcome, done, panicked, out_of_range, put_message, emit, message_received,
}
use catshadow.Client.Inbox.Trial.{
  AllPassOver, Avoids, Decrypts, try_here, try_panics, try_contacts-Skips,
}
use catshadow.Client.Inbox.{try_contacts, record_received, decrypt_message}

module _ {R : Type 0} (env : Env R) where
  -- The result, and the heap at the contact that the ciphertext is for.
  abbrev Found :
      R → Bytes → ℕ → Contact R → Client R → Outcome (Option (String × Bytes)) × Client R → Type 0
  Found r message p k c res =
      (heap : Map ℕ (Contact R)) × (res
        ≡ (done (some (k.nickname, message)), record c { heap = heap }))
      × (lookup p heap ≡ some (record k { ratchet = r }))

  Decrypts-later :
      (ciphertext : Bytes) (slice : Slice) (r : R) (p : ℕ) (k : Contact R) (c : Client R)
      (heap : Map ℕ (Contact R))
      → Decrypts env ciphertext slice r p k c
      → lookup p heap ≡ lookup p c.heap
      → Decrypts env ciphertext slice r p k (record c { heap = heap })
  Decrypts-later ciphertext slice r p k c heap d same = record {
    at = same ∙ d.at;
    paired = d.paired;
    plain = d.plain;
    advanced = d.advanced;
  }

  try_contacts-Found :
      (ciphertext : Bytes) (slice : Slice) (r : R) (message : Bytes) (id p : ℕ) (k : Contact R)
      (pre post : Map ℕ ℕ) (c : Client R)
      → AllPassOver env ciphertext c pre
      → Avoids env p pre
      → Decrypts env ciphertext slice r p k c
      → unframe slice ≡ some message
      → Found r message p k c (try_contacts env ciphertext (pre ++ (id, p) ∷ post) c)
  try_contacts-Found ciphertext slice r message id p k pre post c over av d u =
      let (heap, e, same) = try_contacts-Skips env ciphertext p pre ((id, p) ∷ post) c over av in
      let here =
        try_here env ciphertext slice r message id p k post (record c { heap = heap })
          (Decrypts-later ciphertext slice r p k c heap d same) u in
      (
        insert p (record k { ratchet = r }) heap,
        e ∙ here,
        lookup-insert_self p (record k { ratchet = r }) heap,
      )

  abbrev pub incoming : ℕ → Bytes → Message
  incoming now message = record { plaintext = message; timestamp = now; outbound = false }

  decrypt_message_lem :
      (now : ℕ) (id : Bytes) (ciphertext message : Bytes) (nickname : String) (c c' : Client R)
      → try_contacts env ciphertext c.contacts c ≡ (done (some (nickname, message)), c')
      → decrypt_message env now (some id) ciphertext c ≡ (
        done true,
        record c' {
          conversations = put nickname id (incoming now message) c'.conversations;
          event_ch = c'.event_ch ++ message_received nickname message now ∷ [];
        },
      )
  unfolding ◌>>=◌ decrypt_message record_received put_message emit
  decrypt_message_lem now id ciphertext message nickname c c' e = ground (arith, e)

  -- A ciphertext whose plaintext frames a message that fits, and that the ratchet of a paired contact
  -- decrypts, while every contact that is tried before it is pending or does not decrypt it: the
  -- message arrives as it was framed. It is kept in that contact's conversation under the new ID, it
  -- is reported with the contact's nickname, and that contact's ratchet moves on.
  pub decrypt_message-delivers :
      (now : ℕ) (new_id ciphertext message spare : Bytes) (r : R) (id p : ℕ) (k : Contact R)
      (pre post : Map ℕ ℕ) (c : Client R)
      → c.contacts ≡ pre ++ (id, p) ∷ post
      → AllPassOver env ciphertext c pre
      → Avoids env p pre
      → Decrypts env ciphertext
          (record { bytes = frame env.payload_length message; spare = spare })
          r
          p
          k
          c
      → length message + 4 ≤ env.payload_length
      → env.payload_length < 2 ^ 32
      → let (o, c') = decrypt_message env now (some new_id) ciphertext c in
        (o ≡ done true)
        × (message_at k.nickname new_id c'.conversations ≡ some (incoming now message))
        × (c'.event_ch ≡ c.event_ch ++ message_received k.nickname message now ∷ [])
        × (lookup p c'.heap ≡ some (record k { ratchet = r }))
  decrypt_message-delivers now new_id ciphertext message spare r id p k pre post c order over av d
        fits small =
      let (heap, found, at) =
        try_contacts-Found ciphertext _ r message id p k pre post c over av d
          (unframe-frame env.payload_length message spare fits small) in
      rw
        (decrypt_message_lem now new_id ciphertext message k.nickname c (record c { heap = heap })
          (ap (λ (ids : Map ℕ ℕ). try_contacts env ciphertext ids c) order ∙ found))
        (
          refl,
          message_at-put k.nickname k.nickname new_id new_id (incoming now message) c.conversations
              ∙ rw (==_refl k.nickname, ==_refl new_id),
          refl,
          at,
        )

  -- A message that is too long for its frame stops its receiver: the sender cuts it off without an
  -- error, and the client of a paired contact that decrypts it panics where it cuts the message out,
  -- unless the plaintext's slice has enough spare capacity.
  pub decrypt_message-overlong :
      (now : ℕ) (random : Option Bytes) (ciphertext message spare : Bytes) (r : R) (id p : ℕ)
      (k : Contact R) (pre post : Map ℕ ℕ) (c : Client R)
      → c.contacts ≡ pre ++ (id, p) ∷ post
      → AllPassOver env ciphertext c pre
      → Avoids env p pre
      → Decrypts env ciphertext
          (record { bytes = frame env.payload_length message; spare = spare })
          r
          p
          k
          c
      → 4 ≤ env.payload_length
      → env.payload_length + length spare < length message + 4
      → length message + 4 < 2 ^ 32
      → (decrypt_message env now random ciphertext c).0 ≡ panicked out_of_range
  unfolding ◌>>=◌ decrypt_message
  decrypt_message-overlong now random ciphertext message spare r id p k pre post c order over av d
        array long small =
      let (heap, e, same) = try_contacts-Skips env ciphertext p pre ((id, p) ∷ post) c over av in
      let stops =
        try_panics env ciphertext _ r id p k post (record c { heap = heap })
          (Decrypts-later ciphertext _ r p k c heap d same)
          (unframe-frame_overlong env.payload_length message spare small array long) in
      ground (arith, ap (λ (ids : Map ℕ ℕ). try_contacts env ciphertext ids c) order, e, stops)
