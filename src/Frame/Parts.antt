-- ===== src/Frame/Parts.antt =====
-- frame.go: frames and their parts, as types.
use native.Mathlib.Bridge.{le_prop}
use std.HLevel.{Σ_prop_path, ×_prop}
use mathlib.Core.Path.{subst}
use std.Equiv.{IsEquiv, iso_to_equiv}
use dmsg.Prelude.{
  ℕ, suc, ◌-◌, ◌<◌, ◌≤◌, ◌≡◌, Option, some, List, [], ◌∷◌, length, arith, IsBytes, u16_mod,
}
use dmsg.Frame.{Frame, header_len, make_frame, pay_len, disassemble}
use dmsg.Frame.Codec.{disassemble-make_frame, make_frame-disassemble, disassemble_total}

lt_prop : (m n : ℕ) → IsProp (m < n)
lt_prop m n = le_prop {n = suc m} {m = n}

IsBytes-prop : (b : List ℕ) → IsProp (IsBytes b)
IsBytes-prop [] = hlevel
IsBytes-prop (x ∷ b) = ×_prop le_prop (IsBytes-prop b)

-- A type that is a byte, an id of 16 bits, and a payload of bytes that the length field can count.
abbrev pub IsParts : ℕ × ℕ × List ℕ → Type 0
IsParts (ft, id, p) = (ft < 256) × ((id < u16_mod) × ((length p < u16_mod) × IsBytes p))

abbrev pub Parts : Type 0
Parts = (x : ℕ × ℕ × List ℕ) × IsParts x

-- Bytes that readFrame can have read: a header, and as many bytes behind it as the header says.
abbrev pub IsFramed : Frame → Type 0
IsFramed f = (header_len ≤ length f) × ((pay_len f ≡ some (length f - header_len)) × IsBytes f)

abbrev pub Framed : Type 0
Framed = (f : Frame) × IsFramed f

IsParts-prop : (x : ℕ × ℕ × List ℕ) → IsProp (IsParts x)
IsParts-prop (ft, id, p) =
    ×_prop (lt_prop ft 256)
      (×_prop (lt_prop id u16_mod) (×_prop (lt_prop (length p) u16_mod) (IsBytes-prop p)))

pay_prop : (m n : Option ℕ) → IsProp (m ≡ n)
pay_prop m n = hlevel

IsFramed-prop : (f : Frame) → IsProp (IsFramed f)
IsFramed-prop f =
    ×_prop (le_prop {n = header_len} {m = length f})
      (×_prop (pay_prop (pay_len f) (some (length f - header_len))) (IsBytes-prop f))

make_frame-IsFramed : (ft id : ℕ) (p : List ℕ) → IsParts (ft, id, p) → IsFramed (make_frame ft id p)
unfolding make_frame pay_len
make_frame-IsFramed ft id p (a, (b, (c, d))) = (
  omega arith,
  (ground arith, (a, (omega arith, (omega arith, (omega arith, (omega arith, d)))))),
)

disassemble-IsParts :
    (f : Frame)
    → IsFramed f
    → (ft id : ℕ) (p : List ℕ) → disassemble f ≡ some (ft, id, p)
    → IsParts (ft, id, p) × (make_frame ft id p ≡ f)
unfolding disassemble pay_len
disassemble-IsParts [] (a, (b, c)) ft id p e = absurd (omega arith)
disassemble-IsParts (t ∷ []) (a, (b, c)) ft id p e = absurd (omega arith)
disassemble-IsParts (t ∷ x ∷ []) (a, (b, c)) ft id p e = absurd (omega arith)
disassemble-IsParts (t ∷ x ∷ y ∷ []) (a, (b, c)) ft id p e = absurd (omega arith)
disassemble-IsParts (t ∷ x ∷ y ∷ z ∷ []) (a, (b, c)) ft id p e = absurd (omega arith)
disassemble-IsParts (t ∷ x ∷ y ∷ z ∷ w ∷ r) (a, (b, c)) ft id p e =
    let (c0, (c1, (c2, (c3, (c4, bytes))))) = c in
    let whole : r ≡ p = ground (arith, e) in
    (
      (ground (arith, e), (ground (arith, e), (ground (arith, e, b), subst IsBytes whole bytes))),
      make_frame-disassemble (t ∷ x ∷ y ∷ z ∷ w ∷ r) ft id p c (ground (arith, e, b)) e,
    )

framed : Parts → Framed
framed ((ft, id, p), h) = (make_frame ft id p, make_frame-IsFramed ft id p h)

parts : Framed → Parts
parts (f, h) =
    let (ft, id, p, e) = disassemble_total f h.0 in
    ((ft, id, p), (disassemble-IsParts f h ft id p e).0)

framed-parts : (f : Framed) → (framed (parts f)).0 ≡ f.0
unfolding framed parts
framed-parts (f, h) =
    let (ft, id, p, e) = disassemble_total f h.0 in (disassemble-IsParts f h ft id p e).1

parts-framed : (x : Parts) → (parts (framed x)).0 ≡ x.0
unfolding framed parts
parts-framed ((ft, id, p), h) =
    let (ft', id', p', e) =
      disassemble_total (make_frame ft id p) (make_frame-IsFramed ft id p h).0 in
    ground (arith, e, disassemble-make_frame ft id p (h.1).0)

-- MakeFrame is an equivalence from the types, 16-bit ids and payloads of bytes that the length field
-- can count to the byte sequences that are framed, of a header that counts the bytes behind it: each
-- such sequence is the frame of one triple of parts, and of only one.
make_frame-IsEquiv : IsEquiv framed
make_frame-IsEquiv =
    (iso_to_equiv (record {
      fun = framed;
      inv = parts;
      rinv = λ f. Σ_prop_path IsFramed-prop (framed-parts f);
      linv = λ x. Σ_prop_path IsParts-prop (parts-framed x);
    })).1
