-- ===== src/Client/Encoding.antt =====
-- client.go, `marshal`, and disk.go: how the cbor library encodes the state, by `MarshalBinary` and
-- `UnmarshalBinary` for the contacts in it.
use catshadow.Prelude.{
  ◌≡◌, sym, false, Bytes, List, [], ◌∷◌, Option, none, some, Result, ok, err, arith, Result-cases,
  inl, inr,
}
use catshadow.Queue.{new_queue}
use catshadow.Contact.{Contact, Err}
use catshadow.Contact.Codec.{
  emptied?, ReadsBack, RatchetReadsBack, to_serialized_contact, marshal_contact, unmarshal_contact,
  unmarshal_contact-marshal_contact,
}
use catshadow.Client.Data.{State, SerializedState, StateCodec}

module _ {R : Type 0} where
  abbrev pub serialized_state : State R → List Bytes → SerializedState
  serialized_state s blobs = record {
    spool_read_descriptor = s.spool_read_descriptor;
    contacts = blobs;
    user = s.user;
    provider = s.provider;
    link_key = s.link_key;
    conversations = s.conversations;
  }

  -- What is left of a contact that was written and read: no channel, no timer, and of its Reunion
  -- exchanges the IDs.
  abbrev pub forgotten : Contact R → Contact R
  forgotten k = record k {
    reunion_key_exchange = emptied? k.reunion_key_exchange;
    panda_shutdown_chan = none;
    rtx = none;
  }

  abbrev pub all_forgotten : List (Contact R) → List (Contact R)
  all_forgotten [] = []
  all_forgotten (k ∷ ks) = forgotten k ∷ all_forgotten ks

  -- What is left of a state.
  abbrev pub as_read : State R → State R
  as_read s = record s { contacts = all_forgotten s.contacts }

module _ {R : Type 0} (codec : StateCodec R) where
  unfoldable pub marshal_contacts : List (Contact R) → Result (List Bytes) Err
  marshal_contacts [] = ok []
  marshal_contacts (k ∷ ks) =
      let rest = marshal_contacts ks in
      elim (marshal_contact codec.contact_codec k) [
        | err e ↦ err e
        | ok blob ↦ elim rest [ err e ↦ err e | ok blobs ↦ ok (blob ∷ blobs) ]
      ]

  -- `cbor.Marshal` of the state.
  unfoldable pub marshal_state : State R → Result Bytes Err
  marshal_state s = elim (marshal_contacts s.contacts) [
    | err e ↦ err e
    | ok blobs ↦ codec.marshal (serialized_state s blobs)
  ]

  -- A contact that was just allocated.
  abbrev zero_contact : Contact R
  zero_contact = record {
    id = 0;
    nickname = "";
    is_pending = false;
    key_exchange = none;
    panda_key_exchange = none;
    panda_shutdown_chan = none;
    panda_result = none;
    reunion_key_exchange = none;
    reunion_result = none;
    ratchet = codec.nil_ratchet;
    spool_write_descriptor = none;
    outbound = new_queue;
    rtx = none;
  }

  unfoldable pub unmarshal_contacts : List Bytes → Option (List (Contact R))
  unmarshal_contacts [] = some []
  unmarshal_contacts (blob ∷ blobs) =
      let rest = unmarshal_contacts blobs in
      let (e, k) = unmarshal_contact codec.contact_codec codec.init_ratchet blob zero_contact in
      elim e [ some _ ↦ none | none ↦ elim rest [ none ↦ none | some ks ↦ some (k ∷ ks) ] ]

  -- `cbor.Unmarshal` into a state; `none` where it returns an error.
  unfoldable pub unmarshal_state : Bytes → Option (State R)
  unmarshal_state b = elim (codec.unmarshal b) [
    | none ↦ none
    | some t ↦ elim (unmarshal_contacts t.contacts) [
      | none ↦ none
      | some ks ↦ some (record {
        spool_read_descriptor = t.spool_read_descriptor;
        contacts = ks;
        user = t.user;
        provider = t.provider;
        link_key = t.link_key;
        conversations = t.conversations;
      })
    ]
  ]

  -- The laws of the cbor library and of the ratchet, for these contacts and this state.
  abbrev pub AllReadBack : List (Contact R) → Type 0
  AllReadBack [] = Unit
  AllReadBack (k ∷ ks) =
      (((blob : Bytes)
          → ReadsBack codec.contact_codec (to_serialized_contact codec.contact_codec k blob))
        × RatchetReadsBack codec.contact_codec k.ratchet)
      × AllReadBack ks

  pub record CborReadsBack (s : State R) : Type 0 where
    pub fresh : R
    pub inits : codec.init_ratchet ≡ ok fresh
    pub contacts : AllReadBack s.contacts
    pub state :
        (blobs : List Bytes) (b : Bytes)
        → marshal_contacts s.contacts ≡ ok blobs
        → codec.marshal (serialized_state s blobs) ≡ ok b
        → codec.unmarshal b ≡ some (serialized_state s blobs)

  unmarshal_contacts-marshal_contacts :
      (ks : List (Contact R)) (blobs : List Bytes) (fresh : R)
      → codec.init_ratchet ≡ ok fresh
      → AllReadBack ks
      → marshal_contacts ks ≡ ok blobs
      → unmarshal_contacts blobs ≡ some (all_forgotten ks)
  unfolding marshal_contacts unmarshal_contacts
  unmarshal_contacts-marshal_contacts [] blobs fresh i a e = ground (arith, e)
  unmarshal_contacts-marshal_contacts (k ∷ ks) blobs fresh i ((reads, ratchet), a) e =
      elim (Result-cases (marshal_contact codec.contact_codec k)) [
        | inr (x, h) ↦ absurd (ground (arith, e, h))
        | inl (blob, h) ↦ elim (Result-cases (marshal_contacts ks)) [
          | inr (x, g) ↦ absurd (ground (arith, e, h, g))
          | inl (rest, g) ↦
              let same : blob ∷ rest ≡ blobs = ground (arith, e, h, g) in
              let one =
                unmarshal_contact-marshal_contact codec.contact_codec k zero_contact fresh blob
                  reads ratchet h in
              let others = unmarshal_contacts-marshal_contacts ks rest fresh i a g in
              rw (sym same) (ground (arith, i, one, others))
        ]
      ]

  -- A state that was encoded is decoded as what is left of it.
  pub unmarshal_state-marshal_state :
      (s : State R) (b : Bytes)
      → CborReadsBack s
      → marshal_state s ≡ ok b
      → unmarshal_state b ≡ some (as_read s)
  unfolding marshal_state unmarshal_state
  unmarshal_state-marshal_state s b l e = elim (Result-cases (marshal_contacts s.contacts)) [
    | inr (x, h) ↦ ground (arith, e, h)
    | inl (blobs, h) ↦
        let written : codec.marshal (serialized_state s blobs) ≡ ok b = ground (arith, e, h) in
        ground (
          arith,
          l.state blobs b h written,
          unmarshal_contacts-marshal_contacts s.contacts blobs l.fresh l.inits l.contacts h,
        )
  ]
