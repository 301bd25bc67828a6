-- ===== src/ClientConn/Ids.antt =====
-- client_conn.go: the ids that getNextInitID gives out.
use dmsg.Prelude.{
  ℕ, zero, suc, ◌+◌, ◌*◌, ◌%◌, ◌<◌, ◌≡◌, refl, Bool, true, false, Option, none, some, if◌then◌else◌,
  arith, ◌==◌, lookup-insert, nat_eq, u16_mod, Option-cases, inl, inr, sym, ◌∙◌, ap, ok,
}
use dmsg.Frame.{is_initiator_id}
use dmsg.Transport.{Transport}
use dmsg.ClientConn.{ClientConn, set_tp, del_tp, get_tp, take_id, get_next_init_id}

abbrev no_tp : Option Transport
no_tp = none

pub get_tp-del_tp :
    (id j : ℕ) (c : ClientConn) → get_tp j (del_tp id c) ≡ (if id == j then none else get_tp j c)
unfolding get_tp del_tp
get_tp-del_tp id j c = ground (arith, lookup-insert id j no_tp c.tps)

pub get_tp-set_tp :
    (id j : ℕ) (tp : Transport) (c : ClientConn)
    → get_tp j (set_tp id tp c)
      ≡ (if id == j then (if tp.done then none else some tp) else get_tp j c)
unfolding get_tp set_tp
get_tp-set_tp id j tp c = ground (arith, lookup-insert id j (some tp) c.tps)

abbrev skipped : ClientConn → ClientConn
skipped c = record c { next_init_id = (c.next_init_id + 2) % u16_mod }

get_tp-skipped : (j : ℕ) (c : ClientConn) → get_tp j (skipped c) ≡ get_tp j c
unfolding get_tp
get_tp-skipped j c = refl

get_tp-take_id :
    (j : ℕ) (c : ClientConn) → get_tp c.next_init_id c ≡ none → get_tp j (take_id c).1 ≡ get_tp j c
unfolding take_id get_tp
get_tp-take_id j c free = ground (arith, get_tp-del_tp c.next_init_id j c, ap (λ i. get_tp i c))

found_free :
    (ctx : ℕ → Bool) (fuel : ℕ) (c c' : ClientConn) (id : ℕ)
    → c.next_init_id < u16_mod
    → c.next_init_id % 2 ≡ 0
    → get_next_init_id ctx fuel c ≡ some (ok id, c')
    → (get_tp id c ≡ none) × (id < u16_mod) × (id % 2 ≡ 0) × (c'.next_init_id ≡ (id + 2) % u16_mod)
unfolding get_next_init_id take_id del_tp
found_free ctx zero c c' id word init e = absurd (ground arith)
found_free ctx (suc fuel) c c' id word init e =
    ground (arith, found_free ctx fuel (skipped c) c' id, get_tp-skipped id c)

found_keeps :
    (ctx : ℕ → Bool) (fuel : ℕ) (c c' : ClientConn) (id j : ℕ)
    → get_next_init_id ctx fuel c ≡ some (ok id, c')
    → get_tp j c' ≡ get_tp j c
unfolding get_next_init_id
found_keeps ctx zero c c' id j e = absurd (ground arith)
found_keeps ctx (suc fuel) c c' id j e =
    ground (arith, found_keeps ctx fuel (skipped c) c' id j, get_tp-skipped j c, get_tp-take_id j c)

-- The id that getNextInitID gives has no live transport, is a 16-bit word, and is an initiator's if
-- the search starts at one. The next search starts at the next such id, and no live transport is
-- lost.
pub get_next_init_id_sound :
    (ctx : ℕ → Bool) (fuel : ℕ) (c c' : ClientConn) (id : ℕ)
    → c.next_init_id < u16_mod
    → is_initiator_id c.next_init_id ≡ true
    → get_next_init_id ctx fuel c ≡ some (ok id, c')
    → (get_tp id c ≡ none)
      × (id < u16_mod)
      × (is_initiator_id id ≡ true)
      × (c'.next_init_id ≡ (id + 2) % u16_mod)
      × ((j : ℕ) → get_tp j c' ≡ get_tp j c)
unfolding is_initiator_id
get_next_init_id_sound ctx fuel c c' id word init e =
    let (free, bound, even, next) = found_free ctx fuel c c' id word (ground arith) e in
    (free, bound, ground arith, next, (λ j. found_keeps ctx fuel c c' id j e))

-- While the connection is open and the context lasts, getNextInitID ends with an id if one of the
-- next `fuel` candidates has no live transport; there are 32768 of them.
pub get_next_init_id_finds :
    (ctx : ℕ → Bool) (fuel j : ℕ) (c : ClientConn)
    → ((i : ℕ) → ctx i ≡ false)
    → c.done ≡ false
    → c.next_init_id < u16_mod
    → j < fuel
    → get_tp ((c.next_init_id + 2 * j) % u16_mod) c ≡ none
    → (id : ℕ) × (c' : ClientConn) × (get_next_init_id ctx fuel c ≡ some (ok id, c'))
unfolding get_next_init_id take_id
get_next_init_id_finds ctx zero j c lasts opened word h free = absurd (omega arith)
get_next_init_id_finds ctx (suc fuel) j c lasts opened word h free =
    elim (Option-cases (get_tp c.next_init_id c)) [
      | inl e ↦ (c.next_init_id, (take_id c).1, ground (arith, lasts fuel))
      | inr (tp, e) ↦
          let (i, enough, ahead) =
            later fuel j c.next_init_id word h
              (λ z. some-none (sym e ∙ ap (λ k. get_tp k c) z ∙ free)) in
          let (id, c', found) =
            get_next_init_id_finds ctx fuel i (skipped c) lasts opened (omega arith) enough (
              get_tp-skipped ((((skipped c).next_init_id + 2 * i) % u16_mod)) c
              ∙ ap (λ k. get_tp k c) ahead
              ∙ free) in
          (id, c', ground (arith, lasts fuel))
    ]
  where
    some-none : {tp : Transport} → some tp ≡ none → ⊥
    some-none e = ground arith

    later :
        (fuel j n : ℕ)
        → n < u16_mod
        → j < suc fuel
        → (n ≡ (n + 2 * j) % u16_mod → ⊥)
        → (i : ℕ) × (i < fuel) × (((n + 2) % u16_mod + 2 * i) % u16_mod ≡ (n + 2 * j) % u16_mod)
    later fuel zero n word h ne = absurd (ne (omega arith))
    later fuel (suc j) n word h ne = (j, omega arith, omega arith)
