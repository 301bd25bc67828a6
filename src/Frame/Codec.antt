-- ===== src/Frame/Codec.antt =====
-- frame.go: MakeFrame against the accessors Type, TpID, PayLen, Pay and Disassemble.
use dmsg.Prelude.{
  ℕ, ◌+◌, ◌*◌, ◌%◌, ◌<◌, ◌≤◌, ◌≡◌, refl, none, some, List, [], ◌∷◌, arith, length, drop, IsBytes,
  u16_mod,
}
use dmsg.Frame.{Frame, header_len, make_frame, pay_len, disassemble}

length-make_frame : (ft id : ℕ) (p : List ℕ) → length (make_frame ft id p) ≡ header_len + length p
unfolding make_frame
length-make_frame ft id p = omega arith

pay_len-make_frame :
    (ft id : ℕ) (p : List ℕ) → pay_len (make_frame ft id p) ≡ some (length p % u16_mod)
unfolding make_frame pay_len
pay_len-make_frame ft id p = ground arith

-- A frame made from a type, an id below 2 ^ 16 and a payload comes apart into just these, however
-- long the payload is.
pub disassemble-make_frame :
    (ft id : ℕ) (p : List ℕ) → id < u16_mod → disassemble (make_frame ft id p) ≡ some (ft, id, p)
unfolding make_frame disassemble
disassemble-make_frame ft id p h = ground arith

-- The accessors panic on the frames that are shorter than a header, and on no other.
pub disassemble_short : (f : Frame) → length f < header_len → disassemble f ≡ none
unfolding disassemble
disassemble_short [] h = refl
disassemble_short (a ∷ []) h = refl
disassemble_short (a ∷ b ∷ []) h = refl
disassemble_short (a ∷ b ∷ c ∷ r) h = ground arith

-- A frame of bytes whose length field is the length of its payload is the frame that MakeFrame
-- builds from its parts.
pub make_frame-disassemble :
    (f : Frame) (ft id : ℕ) (p : List ℕ)
    → IsBytes f
    → pay_len f ≡ some (length p)
    → disassemble f ≡ some (ft, id, p)
    → make_frame ft id p ≡ f
unfolding make_frame disassemble pay_len
make_frame-disassemble [] ft id p b h e = cc
make_frame-disassemble (t ∷ []) ft id p b h e = cc
make_frame-disassemble (t ∷ a ∷ []) ft id p b h e = cc
make_frame-disassemble (t ∷ a ∷ c ∷ []) ft id p b h e = cc
make_frame-disassemble (t ∷ a ∷ c ∷ d ∷ []) ft id p b h e = cc
make_frame-disassemble (t ∷ a ∷ c ∷ d ∷ g ∷ r) ft id p b h e = ground arith

pub disassemble_total :
    (f : Frame)
    → header_len ≤ length f
    → (ft : ℕ) × (id : ℕ) × (p : List ℕ) × (disassemble f ≡ some (ft, id, p))
unfolding disassemble
disassemble_total [] h = absurd (omega arith)
disassemble_total (t ∷ []) h = absurd (omega arith)
disassemble_total (t ∷ a ∷ []) h = absurd (omega arith)
disassemble_total (t ∷ a ∷ b ∷ r) h = (t, a * 256 + b, drop 2 r, ground arith)
