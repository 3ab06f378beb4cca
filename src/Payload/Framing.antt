-- ===== src/Payload/Framing.antt =====
-- What `decryptMessage` reads of what `doSendMessage` wrote.
use native.Mathlib.Nat.{mod-eq_of_lt}
use catshadow.Prelude.{
  ℕ, zero, suc, ◌+◌, ◌-◌, ◌%◌, ◌^◌, ◌≤◌, ◌<◌, ◌≡◌, refl, ap, ◌∙◌, Bytes, [], ◌∷◌, ◌++◌, none, some,
  arith, length, take, drop, replicate, append_assoc, length-append, length-replicate, length-take,
  take-append, take_all, leb, if◌then◌else◌,
}
use catshadow.Payload.{put_uint32, uint32, copy_bytes, Slice, reslice, frame, unframe}

-- Four bytes carry a `uint32` both ways.
pub uint32-put_uint32 : (v : ℕ) (rest : Bytes) → v < 2 ^ 32 → uint32 (put_uint32 v ++ rest) ≡ v
unfolding uint32 put_uint32
uint32-put_uint32 v rest h = omega arith

length-drop_le : (n : ℕ) (xs : Bytes) → length (drop n xs) ≡ length xs - n
length-drop_le zero xs = omega arith
length-drop_le (suc n) [] = omega arith
length-drop_le (suc n) (x ∷ xs) = omega (arith, length-drop_le n xs)

pub length-copy_bytes : (dst src : Bytes) → length (copy_bytes dst src) ≡ length dst
unfolding copy_bytes
length-copy_bytes dst src = omega (
  arith,
  length-append (take (length dst) src) (drop (length src) dst),
  length-take (length dst) src,
  length-drop_le (length src) dst,
)

-- The array is filled exactly, whatever the message's length.
pub length-frame : (size : ℕ) (message : Bytes) → 4 ≤ size → length (frame size message) ≡ size
unfolding frame put_uint32
length-frame size message h = omega (
  arith,
  length-copy_bytes (replicate (size - 4) 0) message,
  length-replicate {0} {A = ℕ} (size - 4) 0,
)

take-append_of_le : (n : ℕ) (xs ys : Bytes) → n ≤ length xs → take n (xs ++ ys) ≡ take n xs
take-append_of_le zero xs ys h = refl
take-append_of_le (suc n) [] ys h = absurd (omega arith)
take-append_of_le (suc n) (x ∷ xs) ys h = ap (◌∷◌ x) (take-append_of_le n xs ys (omega arith))

reslice_header :
    (a b c d : ℕ) (xs : Bytes) (s : Slice)
    → s.bytes ++ s.spare ≡ a ∷ b ∷ c ∷ d ∷ xs
    → reslice s 0 4 ≡ some (a ∷ b ∷ c ∷ d ∷ [])
unfolding reslice
reslice_header a b c d xs s e = rw e (ground arith)

reslice_body :
    (a b c d n : ℕ) (xs : Bytes) (s : Slice)
    → s.bytes ++ s.spare ≡ a ∷ b ∷ c ∷ d ∷ xs
    → reslice s 4 (4 + n) ≡ (if leb n (length xs) then some (take n xs) else none)
unfolding reslice
reslice_body a b c d n xs s e = rw e (ground arith)

unframe_lem :
    (a b c d n : ℕ) (xs : Bytes) (s : Slice)
    → s.bytes ++ s.spare ≡ a ∷ b ∷ c ∷ d ∷ xs
    → uint32 (a ∷ b ∷ c ∷ d ∷ []) ≡ n
    → n + 4 < 2 ^ 32
    → unframe s ≡ (if leb n (length xs) then some (take n xs) else none)
unfolding unframe
unframe_lem a b c d n xs s e v h =
    rw
      (
        unframe,
        reslice_header a b c d xs s e,
        v,
        mod-eq_of_lt {n = 4 + n} {m = 2 ^ 32} (omega arith),
      )
      (reslice_body a b c d n xs s e)

-- What follows the header in the array and in the spare capacity behind it.
abbrev pub body : ℕ → Bytes → Bytes → Bytes
body size message spare = copy_bytes (replicate (size - 4) 0) message ++ spare

-- The receiver cuts out as many bytes as the header says, also where they lie past the array.
unframe-frame_lem :
    (size : ℕ) (message spare : Bytes)
    → length message + 4 < 2 ^ 32
    → unframe (record { bytes = frame size message; spare = spare }) ≡ (
        if leb (length message) (length (body size message spare))
        then some (take (length message) (body size message spare))
        else none)
unfolding frame put_uint32
unframe-frame_lem size message spare h =
    unframe_lem _ _ _ _ (length message) (body size message spare) _ refl
      (uint32-put_uint32 (length message % 2 ^ 32) [] (omega arith) ∙ mod-eq_of_lt (omega arith)) h

length-body :
    (size : ℕ) (message spare : Bytes)
    → length (body size message spare) ≡ (size - 4) + length spare
length-body size message spare = omega (
  arith,
  length-append (copy_bytes (replicate (size - 4) 0) message) spare,
  length-copy_bytes (replicate (size - 4) 0) message,
  length-replicate {0} {A = ℕ} (size - 4) 0,
)

copy_bytes_fits :
    (dst src : Bytes) → length src ≤ length dst → copy_bytes dst src ≡ src ++ drop (length src) dst
unfolding copy_bytes
copy_bytes_fits dst src h = rw (take_all (length dst) src h)

-- A message that fits behind its length comes out of the frame as it went in, whatever lies in the
-- spare capacity of the receiver's slice.
pub unframe-frame :
    (size : ℕ) (message spare : Bytes)
    → length message + 4 ≤ size
    → size < 2 ^ 32
    → unframe (record { bytes = frame size message; spare = spare }) ≡ some message
unframe-frame size message spare fits small =
    unframe-frame_lem size message spare (omega arith)
    ∙ ground (arith, length-body size message spare, ap some cut)
  where
    room : length message ≤ length (replicate {A = ℕ} (size - 4) 0)
    room = omega (arith, length-replicate {0} {A = ℕ} (size - 4) 0)

    cut : take (length message) (body size message spare) ≡ message
    cut =
        rw (copy_bytes_fits (replicate (size - 4) 0) message room, append_assoc)
          (take-append message _)

-- A message that does not fit is cut off without an error, under a header that still gives its
-- full length. If that length runs past the capacity of the receiver's slice, cutting the message
-- out panics.
pub unframe-frame_overlong :
    (size : ℕ) (message spare : Bytes)
    → length message + 4 < 2 ^ 32
    → 4 ≤ size
    → size + length spare < length message + 4
    → unframe (record { bytes = frame size message; spare = spare }) ≡ none
unframe-frame_overlong size message spare small array long =
    unframe-frame_lem size message spare small ∙ ground (arith, length-body size message spare)
