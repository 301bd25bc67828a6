-- ===== src/Ioutil/AckWaiter/Stop.antt =====
-- ioutil/ack_waiter.go: StopAll lets every pending Wait go.
use dmsg.Prelude.{
  ℕ, ◌≡◌, refl, Bool, true, false, ◌||◌, Option, none, some, List, [], ◌∷◌, arith, ◌==◌, ==_iff,
  if◌then◌else◌, lookup, nat_eq, Result, ok, err, err_closed_pipe, Option-cases, inl, inr,
}
use dmsg.Ioutil.AckWaiter.{
  Uint16AckWaiter, waiter_of, stop_waiter, stop_keys, keys, stop_all, receive,
}
use dmsg.Ioutil.AckWaiter.Safety.{
  Inv, waiter_of-insert, stop_waiter-none, stop_waiter-some, stopped-Inv,
}
use dmsg.Ioutil.AckWaiter.Delivery.{Holds, Holds-bind, answer}

-- The number s is not registered, and its channel ch is closed, full if b.
record Gone (s ch : ℕ) (b : Bool) (w : Uint16AckWaiter) : Type 0 where
  inv : Inv w
  off : waiter_of s w.waiters ≡ none
  closed : (w.chans ch).closed ≡ true
  full : (w.chans ch).full ≡ b

-- The number s is registered with the channel ch, full if b.
record Held (s ch : ℕ) (b : Bool) (w : Uint16AckWaiter) : Type 0 where
  inv : Inv w
  at : waiter_of s w.waiters ≡ some ch
  full : (w.chans ch).full ≡ b

unfoldable member : ℕ → List ℕ → Bool
member s [] = false
member s (t ∷ ts) = t == s || member s ts

module _ (s ch : ℕ) (b : Bool) where
  stop_waiter-Gone :
      (t : ℕ) (w : Uint16AckWaiter) → Gone s ch b w → Holds (Gone s ch b) (stop_waiter t w)
  stop_waiter-Gone t w g = elim (Option-cases (waiter_of t w.waiters)) [
    | inl e ↦ rw (stop_waiter-none t w e) g
    | inr (c, e) ↦ rw (stop_waiter-some t w g.inv c e) (record {
      inv = stopped-Inv t w g.inv c e;
      off = ground (arith, waiter_of-insert t s none w.waiters, g.off);
      closed = ground (arith, g.closed);
      full = ground (arith, g.full);
    })
  ]

  stop_keys-Gone :
      (ts : List ℕ) (w : Uint16AckWaiter) → Gone s ch b w → Holds (Gone s ch b) (stop_keys ts w)
  unfolding stop_keys
  stop_keys-Gone [] w g = g
  stop_keys-Gone (t ∷ ts) w g =
      Holds-bind (Gone s ch b) (Gone s ch b) (stop_waiter t w) (stop_keys ts)
        (stop_waiter-Gone t w g) (stop_keys-Gone ts)

  stop_waiter-Held : (w : Uint16AckWaiter) → Held s ch b w → Holds (Gone s ch b) (stop_waiter s w)
  stop_waiter-Held w h = rw (stop_waiter-some s w h.inv ch h.at) (record {
    inv = stopped-Inv s w h.inv ch h.at;
    off = ground (arith, waiter_of-insert s s none w.waiters);
    closed = ground arith;
    full = ground (arith, h.full);
  })

  stop_waiter-Held_ne :
      (t : ℕ) (w : Uint16AckWaiter)
      → t == s ≡ false
      → Held s ch b w
      → Holds (Held s ch b) (stop_waiter t w)
  stop_waiter-Held_ne t w ne h = elim (Option-cases (waiter_of t w.waiters)) [
    | inl e ↦ rw (stop_waiter-none t w e) h
    | inr (c, e) ↦ rw (stop_waiter-some t w h.inv c e) (record {
      inv = stopped-Inv t w h.inv c e;
      at = ground (arith, waiter_of-insert t s none w.waiters, h.at);
      full = ground (arith, h.full);
    })
  ]

  stop_keys-Held :
      (ts : List ℕ) (w : Uint16AckWaiter)
      → member s ts ≡ true
      → Held s ch b w
      → Holds (Gone s ch b) (stop_keys ts w)
  unfolding stop_keys member
  stop_keys-Held [] w m h = absurd (ground arith)
  stop_keys-Held (t ∷ ts) w m h = elim (dmsg.Prelude.Bool-cases (t == s)) [
    | inl e ↦
        Holds-bind (Gone s ch b) (Gone s ch b) (stop_waiter t w) (stop_keys ts)
          (rw ((==_iff t s).0 e) (stop_waiter-Held w h)) (stop_keys-Gone ts)
    | inr ne ↦
        Holds-bind (Held s ch b) (Gone s ch b) (stop_waiter t w) (stop_keys ts)
          (stop_waiter-Held_ne t w ne h) (λ w' h'. stop_keys-Held ts w' (ground arith) h')
  ]

member-keys :
    (s ch : ℕ) (m : List (ℕ × Option ℕ)) → waiter_of s m ≡ some ch → member s (keys m) ≡ true
unfolding waiter_of lookup member
member-keys s ch [] e = cc
member-keys s ch ((k, v) ∷ m) e = ground (arith, member-keys s ch m)

Gone-answer :
    (s ch : ℕ) (b : Bool) (m : Option Uint16AckWaiter)
    → Holds (Gone s ch b) m
    → Holds
        (λ w.
          (waiter_of s w.waiters ≡ none)
          × (answer (receive ch w) ≡ some (if b then ok tt else err err_closed_pipe)))
        m
unfolding receive
Gone-answer s ch b none g = g
Gone-answer s ch b (some w) g = (g.off, ground (arith, g.closed, g.full))

-- StopAll does not panic. After it no number that was waiting is registered, and the receive of
-- each such Wait ends: with success if its Done had come, and with ErrClosedPipe if not.
pub receive-stop_all :
    (w : Uint16AckWaiter) (seq ch : ℕ)
    → Inv w
    → waiter_of seq w.waiters ≡ some ch
    → Holds
        (λ w'.
          (waiter_of seq w'.waiters ≡ none)
          × (answer (receive ch w')
              ≡ some (if (w.chans ch).full then ok tt else err err_closed_pipe)))
        (stop_all w)
unfolding stop_all
receive-stop_all w seq ch v e = Gone-answer seq ch (w.chans ch).full (stop_all w) (
    stop_keys-Held seq ch (w.chans ch).full (keys w.waiters) w (member-keys seq ch w.waiters e)
      (record { inv = v; at = e; full = refl }))
