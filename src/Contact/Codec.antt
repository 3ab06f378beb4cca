-- ===== src/Contact/Codec.antt =====
-- `MarshalBinary` and `UnmarshalBinary` of contact.go, over the cbor library and the ratchet.
use catshadow.Prelude.{
  ℕ, ◌≡◌, Bool, Bytes, String, [], ◌∷◌, Map, Option, none, some, Result, ok, err, arith,
  Result-cases, nat_comparable, inl, inr,
}
use catshadow.Queue.{Queue}
use catshadow.Contact.{BoundExchange, Contact, Err, SpoolWriteDescriptor}

-- `serializedContact`
pub record SerializedContact : Type 0 where
  pub id : ℕ
  pub nickname : String
  pub is_pending : Bool
  pub key_exchange : Option Bytes
  pub panda_key_exchange : Option Bytes
  pub panda_result : Option Err
  pub reunion_key_exchange : Option (Map ℕ BoundExchange)
  pub reunion_result : Option (Map ℕ Err)
  pub ratchet : Bytes
  pub spool_write_descriptor : Option SpoolWriteDescriptor
  pub outbound : Queue

-- A value of `boundExchange` with no field set.
abbrev pub zero_exchange : BoundExchange
zero_exchange = record { serialized = none; recipient = ""; provider = "" }

-- The map with the same keys, and no field of any exchange set.
abbrev pub emptied : Map ℕ BoundExchange → Map ℕ BoundExchange
emptied [] = []
emptied ((id, ex) ∷ exs) = (id, zero_exchange) ∷ emptied exs

abbrev pub emptied? : Option (Map ℕ BoundExchange) → Option (Map ℕ BoundExchange)
emptied? none = none
emptied? (some exs) = some (emptied exs)

-- The libraries' functions at this type: cbor, and the ratchet's own encoding, which is read into a
-- ratchet.
pub record Codec (R : Type 0) : Type 0 where
  pub marshal : SerializedContact → Result Bytes Err
  pub unmarshal : Bytes → Result SerializedContact Err
  pub marshal_ratchet : R → Result Bytes Err
  pub unmarshal_ratchet : R → Bytes → Result R Err

module _ {R : Type 0} (codec : Codec R) where
  open codec use {marshal, unmarshal, marshal_ratchet, unmarshal_ratchet}

  -- What the cbor library does with a struct: it encodes the exported fields and no others, of which
  -- `boundExchange` has none, and reads back what it encodes.
  abbrev pub ReadsBack : SerializedContact → Type 0
  ReadsBack s =
      (b : Bytes)
      → marshal s ≡ ok b
      → unmarshal b ≡ ok (record s { reunion_key_exchange = emptied? s.reunion_key_exchange })

  -- What the ratchet encodes is read back into any ratchet.
  abbrev pub RatchetReadsBack : R → Type 0
  RatchetReadsBack r =
      (fresh : R) (b : Bytes) → marshal_ratchet r ≡ ok b → unmarshal_ratchet fresh b ≡ ok r

  unfoldable pub to_serialized_contact : Contact R → Bytes → SerializedContact
  to_serialized_contact c blob = record {
    id = c.id;
    nickname = c.nickname;
    is_pending = c.is_pending;
    key_exchange = c.key_exchange;
    panda_key_exchange = c.panda_key_exchange;
    panda_result = c.panda_result;
    reunion_key_exchange = c.reunion_key_exchange;
    reunion_result = c.reunion_result;
    ratchet = blob;
    spool_write_descriptor = c.spool_write_descriptor;
    outbound = c.outbound;
  }

  -- `MarshalBinary`
  unfoldable pub marshal_contact : Contact R → Result Bytes Err
  marshal_contact c = elim (marshal_ratchet c.ratchet) [
    | err e ↦ err e
    | ok blob ↦ marshal (to_serialized_contact c blob)
  ]

  -- `UnmarshalBinary` into the contact `c`, with the ratchet that `InitRatchet` returns: the error, and
  -- the contact after the call, of which only the named fields are set.
  unfoldable pub unmarshal_contact : Result R Err → Bytes → Contact R → Option Err × Contact R
  unmarshal_contact (err e) b c = (some e, c)
  unmarshal_contact (ok fresh) b c = elim (unmarshal b) [
    | err e ↦ (some e, c)
    | ok s ↦ elim (unmarshal_ratchet fresh s.ratchet) [
      | err e ↦ (some e, c)
      | ok r ↦ (
        none,
        record c {
          id = s.id;
          nickname = s.nickname;
          is_pending = s.is_pending;
          key_exchange = s.key_exchange;
          panda_key_exchange = s.panda_key_exchange;
          panda_result = s.panda_result;
          reunion_key_exchange = s.reunion_key_exchange;
          reunion_result = s.reunion_result;
          ratchet = r;
          spool_write_descriptor = s.spool_write_descriptor;
          outbound = s.outbound;
        },
      )
    ]
  ]

  -- What `MarshalBinary` writes, `UnmarshalBinary` reads back into any contact: every field but the
  -- shutdown channel and the timer, which the receiver keeps, and but for what the Reunion exchanges
  -- hold, of which only the IDs are left.
  pub unmarshal_contact-marshal_contact :
      (k into : Contact R) (fresh : R) (b : Bytes)
      → ((blob : Bytes) → ReadsBack (to_serialized_contact k blob))
      → RatchetReadsBack k.ratchet
      → marshal_contact k ≡ ok b
      → unmarshal_contact (ok fresh) b into ≡ (
        none,
        record k {
          reunion_key_exchange = emptied? k.reunion_key_exchange;
          panda_shutdown_chan = into.panda_shutdown_chan;
          rtx = into.rtx;
        },
      )
  unfolding marshal_contact unmarshal_contact to_serialized_contact
  unmarshal_contact-marshal_contact k into fresh b reads_back ratchet_reads_back e =
      elim (Result-cases (marshal_ratchet k.ratchet)) [
        | inr (x, h) ↦ ground (arith, e, h)
        | inl (blob, h) ↦
            let written : marshal (to_serialized_contact k blob) ≡ ok b = ground (arith, e, h) in
            ground (arith, reads_back blob b written, ratchet_reads_back fresh blob h)
      ]
