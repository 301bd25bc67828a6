-- ===== src/Ioutil/Seq.antt =====
-- ioutil/ack_waiter.go: Uint16Seq and its two bytes.
use dmsg.Prelude.{
  ℕ, ◌<◌, ◌≡◌, List, [], ◌∷◌, ◌++◌, arith, put_uint16, get_uint16, u16_mod, Option, some, none,
  length, ltb, if◌then◌else◌, take, IsBytes,
}

word : Option ℕ → ℕ
word none = 0
word (some v) = v

-- Slices shorter than two bytes decode to 0, longer ones by their first two bytes.
unfoldable pub decode_seq : List ℕ → ℕ
unfolding get_uint16 word
decode_seq b = if ltb (length b) 2 then 0 else word (get_uint16 (take 2 b))

unfoldable pub encode_seq : ℕ → List ℕ
unfolding put_uint16
encode_seq s = put_uint16 s

-- A sequence number comes back from its encoding, whatever follows the encoding.
decode-encode_seq : (s : ℕ) (r : List ℕ) → s < u16_mod → decode_seq (encode_seq s ++ r) ≡ s
unfolding decode_seq encode_seq
decode-encode_seq s r h = ground arith

-- Two bytes come back from the number that they decode to.
pub encode-decode_seq :
    (a b : ℕ) → a < 256 → b < 256 → encode_seq (decode_seq (a ∷ b ∷ [])) ≡ a ∷ b ∷ []
unfolding decode_seq encode_seq
encode-decode_seq a b h k = ground arith

pub decode_seq-lt : (b : List ℕ) → IsBytes b → decode_seq b < u16_mod
unfolding decode_seq
decode_seq-lt [] h = omega arith
decode_seq-lt (a ∷ []) h = omega arith
decode_seq-lt (a ∷ c ∷ r) h = ground arith
