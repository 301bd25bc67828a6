-- ===== src/Tests/Keys.antt =====
-- Concrete texts of public keys.
use dmsg.Prelude.{
  ℕ, ◌+◌, ◌-◌, ◌≡◌, refl, ap, inr, arith, true, some, List, [], ◌∷◌, if◌then◌else◌, length, ◌==◌,
  ok, replicate,
}
use dmsg.Frame.{PubKey}
use dmsg.Cipher.{
  Hex, count_zeros, is_space, IsPlain, joined, marshal_text, set_all, set_all-joined,
  unmarshal_text,
}

abbrev alice : PubKey
alice = replicate 33 1

abbrev bob : PubKey
bob = replicate 33 2

abbrev hub : PubKey
hub = replicate 33 3

-- A text for a key, one letter for each byte, zeros for the null key.
abbrev shifted : PubKey → List ℕ
shifted [] = []
shifted (b ∷ bs) = (b + 48) ∷ shifted bs

abbrev shifted_back : List ℕ → PubKey
shifted_back [] = []
shifted_back (b ∷ bs) = (b - 48) ∷ shifted_back bs

abbrev letters : Hex
letters = record { hex = shifted; pub_key_from_hex = λ s. some (shifted_back s) }

letters-IsPlain : (pk : PubKey) → IsPlain (shifted pk)
unfolding is_space
letters-IsPlain [] = tt
letters-IsPlain (b ∷ bs) = (ground arith, ground arith, letters-IsPlain bs)

shifted_back-shifted : (pk : PubKey) → shifted_back (shifted pk) ≡ pk
shifted_back-shifted [] = refl
shifted_back-shifted (b ∷ bs) = ground (arith, shifted_back-shifted bs)

set_all-joined_example :
    (set_all letters (joined letters alice (bob ∷ [])) ≡ (ok tt, alice ∷ bob ∷ []))
    × (unmarshal_text letters (marshal_text letters (0 ∷ 0 ∷ [])) hub ≡ (
      ok tt,
      if count_zeros (shifted (0 ∷ 0 ∷ [])) == length (shifted (0 ∷ 0 ∷ []))
          then hub
          else 0 ∷ 0 ∷ [],
    ))
set_all-joined_example =
    set_all-joined letters (λ pk. true) letters-IsPlain (λ pk v. ap some (shifted_back-shifted pk))
      hub (0 ∷ 0 ∷ []) alice (bob ∷ []) (refl, (refl, tt)) (inr refl)
