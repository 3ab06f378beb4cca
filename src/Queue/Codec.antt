-- ===== src/Queue/Codec.antt =====
-- `MarshalBinary` and `UnmarshalBinary` of queue.go, over the cbor library's two functions.
use catshadow.Prelude.{
  ℕ, zero, suc, ◌+◌, ◌≡◌, refl, ap, ◌∙◌, Bytes, List, [], ◌∷◌, ◌++◌, append_assoc, length-append,
  Option, none, some, arith, Result, ok, err, length, get_or, set, replicate,
}
use catshadow.Fifo.{QueuedSpoolCommand}
use catshadow.Queue.{Queue, max_queue_size}
use catshadow.Queue.Invariant.{IsValid}

pub record SerializedQ : Type 0 where
  pub content : List (Option QueuedSpoolCommand)
  pub read_head : ℕ
  pub write_head : ℕ
  pub len : ℕ

-- `&serializedQ{}`
abbrev pub zero_serialized : SerializedQ
zero_serialized = record {
  content = replicate max_queue_size none;
  read_head = 0;
  write_head = 0;
  len = 0;
}

-- `for i, _ := range src { dst[i] = src[i] }` from index `i` on, with `n` indices left.
unfoldable pub copy_from :
    ℕ
    → ℕ
    → List (Option QueuedSpoolCommand)
    → List (Option QueuedSpoolCommand)
    → List (Option QueuedSpoolCommand)
copy_from zero i src dst = dst
copy_from (suc n) i src dst = copy_from n (i + 1) src (set dst i (get_or src i none))

unfoldable pub to_serialized : Queue → SerializedQ
unfolding copy_from
to_serialized q = record {
  content = copy_from (length q.content) 0 q.content zero_serialized.content;
  read_head = q.read_head;
  write_head = q.write_head;
  len = q.len;
}

unfoldable pub from_serialized : SerializedQ → Queue → Queue
unfolding copy_from
from_serialized t q = record {
  content = copy_from (length t.content) 0 t.content q.content;
  read_head = t.read_head;
  write_head = t.write_head;
  len = t.len;
}

-- `cbor.Marshal` and `cbor.Unmarshal` at `serializedQ`. What `Marshal` writes, `Unmarshal` reads back
-- into any value.
pub record Cbor : Type 1 where
  pub CborError : Type 0
  pub marshal : SerializedQ → Result Bytes CborError
  pub unmarshal : Bytes → SerializedQ → Result SerializedQ CborError
  pub reads_back : (s t : SerializedQ) (b : Bytes) → marshal s ≡ ok b → unmarshal b t ≡ ok s

module _ (cbor : Cbor) where
  open cbor use {CborError, marshal, unmarshal, reads_back}

  unfoldable pub marshal_binary : Queue → Result Bytes CborError
  unfolding to_serialized
  marshal_binary q = marshal (to_serialized q)

  -- The receiver after the call, and the error.
  unfoldable pub unmarshal_binary : Bytes → Queue → Option CborError × Queue
  unfolding from_serialized
  unmarshal_binary d q = elim (unmarshal d zero_serialized) [
    | ok tmp ↦ (none, from_serialized tmp q)
    | err e ↦ (some e, q)
  ]

set-append :
    (pre dst : List (Option QueuedSpoolCommand)) (x y : Option QueuedSpoolCommand)
    → set (pre ++ y ∷ dst) (length pre) x ≡ (pre ++ x ∷ []) ++ dst
set-append [] dst x y = refl
set-append (p ∷ pre) dst x y = ap (◌∷◌ p) (set-append pre dst x y)

get_or-append :
    (pre src : List (Option QueuedSpoolCommand)) (x : Option QueuedSpoolCommand)
    → get_or (pre ++ x ∷ src) (length pre) none ≡ x
get_or-append [] src x = refl
get_or-append (p ∷ pre) src x = get_or-append pre src x

copy_from_step :
    (n i : ℕ) (src dst : List (Option QueuedSpoolCommand))
    → copy_from (suc n) i src dst ≡ copy_from n (i + 1) src (set dst i (get_or src i none))
unfolding copy_from
copy_from_step n i src dst = refl

copy_from_none : (i : ℕ) (src dst : List (Option QueuedSpoolCommand)) → copy_from 0 i src dst ≡ dst
unfolding copy_from
copy_from_none i src dst = refl

-- The loop replaces what it has not visited yet of an array of the same length.
copy_from_rest :
    (pre src dst : List (Option QueuedSpoolCommand)) (i : ℕ)
    → length dst ≡ length src
    → i ≡ length pre
    → copy_from (length src) i (pre ++ src) (pre ++ dst) ≡ pre ++ src
copy_from_rest pre [] [] i h e = copy_from_none i (pre ++ []) (pre ++ [])
copy_from_rest pre [] (y ∷ dst) i h e = absurd (omega arith)
copy_from_rest pre (x ∷ src) [] i h e = absurd (omega arith)
copy_from_rest pre (x ∷ src) (y ∷ dst) i h e =
    rw
      (
        copy_from_step,
        e,
        get_or-append pre src x,
        set-append pre dst x y,
        ← append_assoc pre (x ∷ []) src,
      )
      (copy_from_rest (pre ++ x ∷ []) src dst (length pre + 1) (omega arith)
        (omega (arith, length-append pre (x ∷ []))))

copy_all :
    (src dst : List (Option QueuedSpoolCommand))
    → length dst ≡ length src
    → copy_from (length src) 0 src dst ≡ src
copy_all src dst h = copy_from_rest [] src dst 0 h refl

from_serialized-to_serialized :
    (q r : Queue)
    → length q.content ≡ max_queue_size
    → length r.content ≡ max_queue_size
    → from_serialized (to_serialized q) r ≡ q
unfolding from_serialized to_serialized
from_serialized-to_serialized q r hq hr = λ i. record {
  content = array i;
  read_head = q.read_head;
  write_head = q.write_head;
  len = q.len;
}
  where
    array :
        let c = copy_from (length q.content) 0 q.content zero_serialized.content in
        copy_from (length c) 0 c r.content ≡ q.content
    array =
        ap (λ c. copy_from (length c) 0 c r.content)
          (copy_all q.content zero_serialized.content (omega arith))
        ∙ copy_all q.content r.content (omega arith)

-- What `MarshalBinary` wrote of a well-formed queue, `UnmarshalBinary` reads back into any queue
-- without an error, as the same queue: array, heads and length.
pub unmarshal_binary-marshal_binary :
    (cbor : Cbor) (q r : Queue) (b : Bytes)
    → IsValid q
    → length r.content ≡ max_queue_size
    → marshal_binary cbor q ≡ ok b
    → unmarshal_binary cbor b r ≡ (none, q)
unfolding marshal_binary unmarshal_binary
unmarshal_binary-marshal_binary cbor q r b v a e =
    rw (cbor.reads_back (to_serialized q) zero_serialized b e, unmarshal_binary)
      (ap (λ (p : Queue). (none, p)) (from_serialized-to_serialized q r v.array a))
