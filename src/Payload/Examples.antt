-- ===== src/Payload/Examples.antt =====
-- A frame of eight bytes, read back, and one whose message does not fit.
use catshadow.Prelude.{◌≡◌, ◌∷◌, [], some, arith}
use catshadow.Payload.{frame, unframe}
use catshadow.Payload.Framing.{unframe-frame}

unframe-frame_example :
    unframe (record { bytes = frame 8 (7 ∷ 8 ∷ 9 ∷ []); spare = [] }) ≡ some (7 ∷ 8 ∷ 9 ∷ [])
unframe-frame_example = unframe-frame 8 (7 ∷ 8 ∷ 9 ∷ []) [] (omega arith) (omega arith)
