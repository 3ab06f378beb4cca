-- ===== src/Client/Inbox/Trial.antt =====
-- The loop of `decryptMessage` over the contacts: whom it passes over, and where it stops.
use catshadow.Prelude.{
  ℕ, ◌≡◌, ◌≢◌, refl, sym, ◌∙◌, ◌⊎◌, inl, inr, true, false, Bytes, [], ◌∷◌, ◌++◌, Map, none, some,
  ok, err, arith, lookup, insert, lookup-insert_ne, nat_comparable, string_comparable,
  bytes_comparable, Bool-cases,
}
use catshadow.Payload.{Slice, unframe}
use catshadow.Contact.{Contact, Err}
use catshadow.Client.{◌>>=◌, Client, Env, done, panicked, out_of_range}
use catshadow.Client.Inbox.{try_contacts}

module _ {R : Type 0} (env : Env R) where
  -- The contact at this address is passed over: it is pending, or its ratchet does not decrypt the
  -- ciphertext.
  abbrev pub PassesOver : Bytes → Client R → ℕ → Type 0
  PassesOver ciphertext c p =
      (k : Contact R) × (lookup p c.heap ≡ some k)
      × ((k.is_pending ≡ true) ⊎ ((e : Err) × ((env.decrypt k.ratchet ciphertext).0 ≡ err e)))

  -- No ID of the map leads to this address.
  abbrev pub Avoids : ℕ → Map ℕ ℕ → Type 0
  Avoids q [] = Unit
  Avoids q ((_, p) ∷ ids) = (p ≢ q) × Avoids q ids

  -- All of these are passed over, and lead to contacts that differ from one another.
  abbrev pub AllPassOver : Bytes → Client R → Map ℕ ℕ → Type 0
  AllPassOver ciphertext c [] = Unit
  AllPassOver ciphertext c ((_, p) ∷ ids) =
      PassesOver ciphertext c p × Avoids p ids × AllPassOver ciphertext c ids

  -- The contact at this address is paired, and its ratchet decrypts the ciphertext to the slice.
  pub record Decrypts (ciphertext : Bytes) (slice : Slice) (r : R) (p : ℕ) (k : Contact R)
      (c : Client R) : Type 0 where
    pub at : lookup p c.heap ≡ some k
    pub paired : k.is_pending ≡ false
    pub plain : (env.decrypt k.ratchet ciphertext).0 ≡ ok slice
    pub advanced : (env.decrypt k.ratchet ciphertext).1 ≡ r

  pub try_here :
      (ciphertext : Bytes) (slice : Slice) (r : R) (message : Bytes) (id p : ℕ) (k : Contact R)
      (post : Map ℕ ℕ) (c : Client R)
      → Decrypts ciphertext slice r p k c
      → unframe slice ≡ some message
      → try_contacts env ciphertext ((id, p) ∷ post) c ≡ (
        done (some (k.nickname, message)),
        record c { heap = insert p (record k { ratchet = r }) c.heap },
      )
  unfolding try_contacts
  try_here ciphertext slice r message id p k post c d u =
      ground (arith, d.at, d.paired, d.plain, d.advanced, u)

  try_pending :
      (ciphertext : Bytes) (id p : ℕ) (k : Contact R) (rest : Map ℕ ℕ) (c : Client R)
      → lookup p c.heap ≡ some k
      → k.is_pending ≡ true
      → try_contacts env ciphertext ((id, p) ∷ rest) c ≡ try_contacts env ciphertext rest c
  unfolding try_contacts
  try_pending ciphertext id p k rest c h e = ground (arith, h, e)

  -- Cutting the message out of the plaintext panics.
  pub try_panics :
      (ciphertext : Bytes) (slice : Slice) (r : R) (id p : ℕ) (k : Contact R) (post : Map ℕ ℕ)
      (c : Client R)
      → Decrypts ciphertext slice r p k c
      → unframe slice ≡ none
      → (try_contacts env ciphertext ((id, p) ∷ post) c).0 ≡ panicked out_of_range
  unfolding ◌>>=◌ try_contacts
  try_panics ciphertext slice r id p k post c d u =
      ground (arith, d.at, d.paired, d.plain, d.advanced, u)

  try_failed :
      (ciphertext : Bytes) (id p : ℕ) (k : Contact R) (e : Err) (rest : Map ℕ ℕ) (c : Client R)
      → lookup p c.heap ≡ some k
      → k.is_pending ≡ false
      → (env.decrypt k.ratchet ciphertext).0 ≡ err e
      → try_contacts env ciphertext ((id, p) ∷ rest) c
        ≡ try_contacts env ciphertext rest (record c {
          heap = insert p (record k { ratchet = (env.decrypt k.ratchet ciphertext).1 }) c.heap;
        })
  unfolding try_contacts
  try_failed ciphertext id p k e rest c h b f = ground (arith, h, b, f)

  -- A change to a contact that is not among them does not matter.
  insert-AllPassOver :
      (ciphertext : Bytes) (p : ℕ) (k : Contact R) (c : Client R) (ids : Map ℕ ℕ)
      → Avoids p ids
      → AllPassOver ciphertext c ids
      → AllPassOver ciphertext (record c { heap = insert p k c.heap }) ids
  insert-AllPassOver ciphertext p k c [] a h = tt
  insert-AllPassOver ciphertext p k c ((_, q) ∷ ids) a ((j, at, why), av, rest) = (
    (j, lookup-insert_ne p q k c.heap (λ e. a.0 (sym e)) ∙ at, why),
    av,
    insert-AllPassOver ciphertext p k c ids a.1 rest,
  )

  -- Past all of these the loop goes on with a contact that is none of them as it was.
  abbrev Skips : Bytes → ℕ → Map ℕ ℕ → Map ℕ ℕ → Client R → Type 0
  Skips ciphertext p pre rest c =
      (heap : Map ℕ (Contact R)) × (try_contacts env ciphertext (pre ++ rest) c
        ≡ try_contacts env ciphertext rest (record c { heap = heap }))
      × (lookup p heap ≡ lookup p c.heap)

  pub try_contacts-Skips :
      (ciphertext : Bytes) (p : ℕ) (pre rest : Map ℕ ℕ) (c : Client R)
      → AllPassOver ciphertext c pre
      → Avoids p pre
      → Skips ciphertext p pre rest c
  try_contacts-Skips ciphertext p [] rest c over av = (c.heap, refl, refl)
  try_contacts-Skips ciphertext p ((i, q) ∷ pre) rest c ((j, at, inl pending), free, over) av =
      let (heap, e, same) = try_contacts-Skips ciphertext p pre rest c over av.1 in
      (heap, try_pending ciphertext i q j (pre ++ rest) c at pending ∙ e, same)
  try_contacts-Skips ciphertext p ((i, q) ∷ pre) rest c ((j, at, inr (e, fails)), free, over) av =
      elim (Bool-cases j.is_pending) [
        | inl pending ↦
            let (heap, eq, same) = try_contacts-Skips ciphertext p pre rest c over av.1 in
            (heap, try_pending ciphertext i q j (pre ++ rest) c at pending ∙ eq, same)
        | inr paired ↦
            let j' = record j { ratchet = (env.decrypt j.ratchet ciphertext).1 } in
            let c' = record c { heap = insert q j' c.heap } in
            let (heap, eq, same) =
              try_contacts-Skips ciphertext p pre rest c'
                (insert-AllPassOver ciphertext q j' c pre free over) av.1 in
            (
              heap,
              try_failed ciphertext i q j e (pre ++ rest) c at paired fails ∙ eq,
              same ∙ lookup-insert_ne q p j' c.heap av.0,
            )
      ]
