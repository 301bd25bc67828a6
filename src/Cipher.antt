-- ===== src/Cipher.antt =====
-- cipher/cipher.go: the texts of public keys. The hex strings are another package's: a parameter. A
-- text is its bytes.
use dmsg.Prelude.{
  ℕ, suc, ◌≡◌, ◌⊎◌, refl, ap, ◌∙◌, arith, Bool, true, false, ◌||◌, Option, none, some, List, [],
  ◌∷◌, ◌++◌, if◌then◌else◌, length, ◌==◌, Result, ok, err, decode_failed,
}
use dmsg.Frame.{PubKey}

-- Hex and PubKeyFromHex; none is an error.
pub record Hex : Type 0 where
  pub hex : PubKey → List ℕ
  pub pub_key_from_hex : List ℕ → Option PubKey

-- bytes.Count(data, []byte("0"))
unfoldable pub count_zeros : List ℕ → ℕ
count_zeros [] = 0
count_zeros (b ∷ bs) = let rest = count_zeros bs in if b == 48 then suc rest else rest

-- strings.Split(list, ","), of which there is always a first part.
unfoldable pub split_with : ℕ → List ℕ × List (List ℕ) → List ℕ × List (List ℕ)
split_with b (part, parts) = if b == 44 then ([], part ∷ parts) else (b ∷ part, parts)

unfoldable pub split : List ℕ → List ℕ × List (List ℕ)
split [] = ([], [])
split (b ∷ bs) = split_with b (split bs)

-- The ASCII characters that strings.TrimSpace takes away: tab, newline, vertical tab, form feed,
-- carriage return and space.
unfoldable pub is_space : ℕ → Bool
is_space b = b == 32 || (b == 9 || (b == 10 || (b == 11 || (b == 12 || b == 13))))

unfoldable pub trim_left : List ℕ → List ℕ
trim_left [] = []
trim_left (b ∷ bs) = let rest = trim_left bs in if is_space b then rest else b ∷ bs

unfoldable pub trim_right : List ℕ → List ℕ
trim_right [] = []
trim_right (b ∷ bs) = elim (trim_right bs) [
  | [] ↦ if is_space b then [] else b ∷ []
  | c ∷ cs ↦ b ∷ c ∷ cs
]

unfoldable pub trim_space : List ℕ → List ℕ
trim_space bs = trim_right (trim_left bs)

module _ (h : Hex) where
  -- Set of a key; an error leaves it.
  unfoldable pub set : List ℕ → PubKey → Result (Unit {0}) × PubKey
  set s pk = elim (h.pub_key_from_hex s) [ none ↦ (err decode_failed, pk) | some c ↦ (ok tt, c) ]

  -- MarshalText, and UnmarshalText: a text of zeros alone leaves the key.
  unfoldable pub marshal_text : PubKey → List ℕ
  marshal_text pk = h.hex pk

  unfoldable pub unmarshal_text : List ℕ → PubKey → Result (Unit {0}) × PubKey
  unmarshal_text text pk = if count_zeros text == length text then (ok tt, pk) else set text pk

  -- Set of a list of keys, part by part: what it has up to an error stays.
  unfoldable pub set_parts : List (List ℕ) → Result (Unit {0}) × List PubKey
  set_parts [] = (ok tt, [])
  set_parts (s ∷ ss) =
      let (r, pks) = set_parts ss in
      elim (h.pub_key_from_hex (trim_space s)) [
        | none ↦ (err decode_failed, [])
        | some pk ↦ (r, pk ∷ pks)
      ]

  unfoldable pub set_all : List ℕ → Result (Unit {0}) × List PubKey
  set_all list = let (s, ss) = split list in set_parts (s ∷ ss)

  -- The keys in hex, with commas between them.
  unfoldable pub joined : PubKey → List PubKey → List ℕ
  joined pk [] = h.hex pk
  joined pk (q ∷ qs) = h.hex pk ++ 44 ∷ joined q qs

-- A text without commas and spaces.
abbrev pub IsPlain : List ℕ → Type 0
IsPlain [] = Unit {0}
IsPlain (b ∷ bs) = ((b == 44) ≡ false) × (is_space b ≡ false) × IsPlain bs

split_plain : (s t : List ℕ) → IsPlain s → split (s ++ 44 ∷ t) ≡ (s, (split t).0 ∷ (split t).1)
unfolding split split_with
split_plain [] t p = refl
split_plain (b ∷ s) t p = ground (arith, p.0, split_plain s t p.2)

split_last : (s : List ℕ) → IsPlain s → split s ≡ (s, [])
unfolding split split_with
split_last [] p = refl
split_last (b ∷ s) p = ground (arith, p.0, split_last s p.2)

trim_left_plain : (s : List ℕ) → IsPlain s → trim_left s ≡ s
unfolding trim_left
trim_left_plain [] p = refl
trim_left_plain (b ∷ s) p = ground (arith, p.1)

trim_right_plain : (s : List ℕ) → IsPlain s → trim_right s ≡ s
unfolding trim_right
trim_right_plain [] p = refl
trim_right_plain (b ∷ []) p = ground (arith, p.1)
trim_right_plain (b ∷ c ∷ s) p = ground (arith, p.1, trim_right_plain (c ∷ s) p.2)

trim_space_plain : (s : List ℕ) → IsPlain s → trim_space s ≡ s
unfolding trim_space
trim_space_plain s p = ap trim_right (trim_left_plain s p) ∙ trim_right_plain s p

abbrev pub AllValid : (PubKey → Bool) → List PubKey → Type 0
AllValid valid [] = Unit {0}
AllValid valid (pk ∷ pks) = (valid pk ≡ true) × AllValid valid pks

module _ (h : Hex) (valid : PubKey → Bool) (plain : (pk : PubKey) → IsPlain (h.hex pk))
    (back : (pk : PubKey) → valid pk ≡ true → h.pub_key_from_hex (h.hex pk) ≡ some pk) where
  -- Let hex strings have no commas and spaces, and let that of each valid key be read back as the key.
  -- Then Set gives back valid keys of which it is given the hex strings with commas between them. And
  -- UnmarshalText of what MarshalText gives for a key `q`, valid or with a text of zeros alone, gives
  -- the key; but of a text of zeros it reports no error, and leaves whatever key there was.
  pub set_all-joined :
      (old q pk : PubKey) (pks : List PubKey)
      → AllValid valid (pk ∷ pks)
      → ((count_zeros (h.hex q) == length (h.hex q)) ≡ true) ⊎ (valid q ≡ true)
      → (set_all h (joined h pk pks) ≡ (ok tt, pk ∷ pks))
        × (unmarshal_text h (marshal_text h q) old
            ≡ (ok tt, if count_zeros (h.hex q) == length (h.hex q) then old else q))
  unfolding set_all joined set_parts unmarshal_text marshal_text set
  set_all-joined old q pk [] v w = (
    ground (
      arith,
      split_last (h.hex pk) (plain pk),
      trim_space_plain (h.hex pk) (plain pk),
      back pk v.0,
    ),
    ground (arith, w, back q),
  )
  set_all-joined old q pk (k ∷ ks) v w = (
    ground (
      arith,
      split_plain (h.hex pk) (joined h k ks) (plain pk),
      trim_space_plain (h.hex pk) (plain pk),
      back pk v.0,
      (set_all-joined old q k ks v.1 w).0,
    ),
    ground (arith, w, back q),
  )
