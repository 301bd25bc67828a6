-- ===== src/Server/Ids.antt =====
-- server.go: the ids that addNext gives out.
use dmsg.Prelude.{
  ℕ, zero, suc, ◌+◌, ◌*◌, ◌%◌, ◌<◌, ◌≡◌, Bool, false, none, some, List, arith, lookup, nat_eq,
  u16_mod, Option-cases, inl, inr, ◌∙◌, ap,
}
use dmsg.Server.{NextConn, probe}

-- The id that is found is free, odd if the search starts at an odd one, and a 16-bit word. The id
-- to go on with is the next odd one.
pub probe_sound :
    (ctx : ℕ → Bool) (fuel : ℕ) (m : List (ℕ × NextConn)) (start id next : ℕ)
    → start < u16_mod
    → probe ctx fuel m start ≡ some (some id, next)
    → (lookup id m ≡ none) × (id < u16_mod) × (id % 2 ≡ start % 2) × (next ≡ (id + 2) % u16_mod)
unfolding probe
probe_sound ctx zero m start id next h e = absurd (ground arith)
probe_sound ctx (suc fuel) m start id next h e =
    ground (arith, probe_sound ctx fuel m ((start + 2) % u16_mod) id next)

-- As long as the context lasts, the search ends with an id if one of the next `fuel` candidates is
-- free; there are 32768 of them.
pub probe_finds :
    (ctx : ℕ → Bool) (fuel j : ℕ) (m : List (ℕ × NextConn)) (start : ℕ)
    → ((i : ℕ) → ctx i ≡ false)
    → start < u16_mod
    → j < fuel
    → lookup ((start + 2 * j) % u16_mod) m ≡ none
    → (id : ℕ) × (probe ctx fuel m start ≡ some (some id, (id + 2) % u16_mod))
unfolding probe
probe_finds ctx zero j m start c h l free = absurd (omega arith)
probe_finds ctx (suc fuel) zero m start c h l free =
    (start, ground (arith, ap (λ k. lookup k m) (start_mod start h)))
  where
    start_mod : (start : ℕ) → start < u16_mod → (start + 2 * 0) % u16_mod ≡ start
    start_mod start h = omega arith
probe_finds ctx (suc fuel) (suc j) m start c h l free = elim (Option-cases (lookup start m)) [
  | inl e ↦ (start, ground arith)
  | inr (r, e) ↦
      let (id, found) =
        probe_finds ctx fuel j m ((start + 2) % u16_mod) c (omega arith) (omega arith)
          (ap (λ k. lookup k m) (next_mod start j) ∙ free) in
      (id, ground (arith, c fuel))
]
  where
    next_mod :
        (start j : ℕ) → ((start + 2) % u16_mod + 2 * j) % u16_mod ≡ (start + 2 * suc j) % u16_mod
    next_mod start j = omega arith
