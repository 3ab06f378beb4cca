-- ===== src/Payload.antt =====
-- The plaintext that the ratchet encrypts: `doSendMessage` of client.go writes a message behind its
-- length into an array of `DoubleRatchetPayloadLength` bytes, and `decryptMessage` cuts it out.
-- The array's length stands on constants of other repositories, so it is an argument here.
pub mod Framing
mod Examples
use catshadow.Prelude.{
  ℕ, ◌+◌, ◌-◌, ◌*◌, ◌/◌, ◌%◌, ◌^◌, Bytes, List, [], ◌∷◌, ◌++◌, Option, none, some, ◌&&◌, leb,
  length, take, drop, get_or, replicate, if◌then◌else◌,
}

-- `binary.BigEndian.PutUint32`: the four bytes of a `uint32`.
unfoldable pub put_uint32 : ℕ → Bytes
put_uint32 v = v / 2 ^ 24 % 256 ∷ v / 2 ^ 16 % 256 ∷ v / 2 ^ 8 % 256 ∷ v % 256 ∷ []

-- `binary.BigEndian.Uint32`, of the first four bytes.
unfoldable pub uint32 : Bytes → ℕ
uint32 b = get_or b 0 0 * 2 ^ 24 + get_or b 1 0 * 2 ^ 16 + get_or b 2 0 * 2 ^ 8 + get_or b 3 0

-- `copy(dst, src)`, the destination afterwards.
unfoldable pub copy_bytes : Bytes → Bytes → Bytes
copy_bytes dst src = take (length dst) src ++ drop (length src) dst

-- A slice, with the bytes between its length and its capacity, which reslicing can reach.
pub record Slice : Type 0 where
  pub bytes : Bytes
  pub spare : Bytes

-- `s[lo:hi]`; `none` is the run-time panic of bounds out of range.
unfoldable pub reslice : Slice → ℕ → ℕ → Option Bytes
reslice s lo hi =
    if leb hi (length (s.bytes ++ s.spare)) && leb lo hi
    then some (take (hi - lo) (drop lo (s.bytes ++ s.spare)))
    else none

-- `payload` of `doSendMessage`, for `size` the `DoubleRatchetPayloadLength`.
unfoldable pub frame : ℕ → Bytes → Bytes
frame size message =
    put_uint32 (length message % 2 ^ 32) ++ copy_bytes (replicate (size - 4) 0) message

-- `message.Plaintext` of `decryptMessage`. `4+payloadLen` is a sum of `uint32`.
unfoldable pub unframe : Slice → Option Bytes
unframe plaintext = elim (reslice plaintext 0 4) [
  | none ↦ none
  | some header ↦ reslice plaintext 4 ((4 + uint32 header) % 2 ^ 32)
]
