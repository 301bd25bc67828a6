-- ===== src/Ioutil/AckWaiter/Delivery.antt =====
-- ioutil/ack_waiter.go: what a Wait is answered. It goes on after the Done of its own number, or
-- after StopAll, and after nothing else.
use dmsg.Prelude.{
  ℕ, suc, ◌+◌, ◌%◌, ◌≡◌, ◌≢◌, ◌<◌, refl, Bool, false, ◌||◌, Option, none, some, List, [], ◌∷◌,
  arith, ◌==◌, if◌then◌else◌, u16_mod, nat_eq, Result, ok, Option-cases, inl, inr,
}
use dmsg.Ioutil.AckWaiter.{
  Uint16AckWaiter, ◌>>=◌, waiter_of, stop_waiter, begin_wait, done, receive,
}
use dmsg.Ioutil.AckWaiter.Safety.{
  Inv, waiter_of-insert, begin_wait-Inv, done_none, done_some, stop_waiter-none, stop_waiter-some,
  filled, filled-Inv, stopped-Inv, receive-Inv, after_receive, Call, begins, stops_all, dones,
  receives, stops, step, run,
}

-- What the select sees of a receive: `none` is to block.
abbrev pub answer : Option (Result (Unit {0}) × Uint16AckWaiter) → Option (Result (Unit {0}))
answer none = none
answer (some (r, w)) = some r

-- Whether Done was called with the number.
unfoldable pub acked : ℕ → List Call → Bool
acked seq [] = false
acked seq (dones s ∷ cs) = s == seq || acked seq cs
acked seq (_ ∷ cs) = acked seq cs

unfoldable pub begun : List Call → ℕ
begun [] = 0
begun (begins ∷ cs) = suc (begun cs)
begun (_ ∷ cs) = begun cs

-- Calls that neither stop the number seq nor take from the channel ch.
abbrev pub Quiet : ℕ → ℕ → Call → Type 0
Quiet seq ch begins = Unit {0}
Quiet seq ch stops_all = ⊥
Quiet seq ch (dones s) = Unit {0}
Quiet seq ch (receives c) = c ≢ ch
Quiet seq ch (stops s) = s ≢ seq

abbrev pub AllQuiet : ℕ → ℕ → List Call → Type 0
AllQuiet seq ch [] = Unit {0}
AllQuiet seq ch (c ∷ cs) = Quiet seq ch c × AllQuiet seq ch cs

-- The number seq waits on the channel ch, which is full if b; d numbers were given out after it.
record Waits (seq ch d : ℕ) (b : Bool) (w : Uint16AckWaiter) : Type 0 where
  inv : Inv w
  at : waiter_of seq w.waiters ≡ some ch
  full : (w.chans ch).full ≡ b
  next : w.next_seq ≡ (seq + 1 + d) % u16_mod

-- The call has not panicked, and the waiter that it leaves has the property.
abbrev pub Holds : (Uint16AckWaiter → Type 0) → Option Uint16AckWaiter → Type 0
Holds P none = ⊥
Holds P (some w) = P w

pub Holds-bind :
    (P Q : Uint16AckWaiter → Type 0) (m : Option Uint16AckWaiter)
    (f : Uint16AckWaiter → Option Uint16AckWaiter)
    → Holds P m
    → ((w : Uint16AckWaiter) → P w → Holds Q (f w))
    → Holds Q (m >>= f)
Holds-bind P Q none f h k = absurd h
Holds-bind P Q (some w) f h k = k w h

module _ (seq ch d : ℕ) (b : Bool) (w : Uint16AckWaiter) (h : Waits seq ch d b w) where
  begins-Waits : seq < u16_mod → suc d < u16_mod → Waits seq ch (suc d) b (begin_wait w).0
  unfolding begin_wait
  begins-Waits l k = record {
    inv = begin_wait-Inv w h.inv;
    at = ground (arith, waiter_of-insert w.next_seq seq (some w.made) w.waiters, h.at, h.next);
    full = ground (arith, h.full, h.inv.old seq ch h.at);
    next = ground (arith, h.next);
  }

  filled-Waits :
      (s c : ℕ) → waiter_of s w.waiters ≡ some c → Waits seq ch d (b || s == seq) (filled c w)
  filled-Waits s c e = record {
    inv = filled-Inv s w h.inv c e;
    at = h.at;
    full = ground (arith, h.full, h.at, h.inv.distinct s seq c);
    next = h.next;
  }

  dones-Waits : (s : ℕ) → Holds (Waits seq ch d (b || s == seq)) (done s w)
  dones-Waits s = elim (Option-cases (waiter_of s w.waiters)) [
    | inl e ↦
        rw (done_none s w e)
          (record { inv = h.inv; at = h.at; full = ground (arith, h.full, h.at); next = h.next })
    | inr (c, e) ↦ rw (done_some s w h.inv c e) (filled-Waits s c e)
  ]

  stops-Waits : (s : ℕ) → s ≢ seq → Holds (Waits seq ch d b) (stop_waiter s w)
  stops-Waits s ne = elim (Option-cases (waiter_of s w.waiters)) [
    | inl e ↦ rw (stop_waiter-none s w e) h
    | inr (c, e) ↦ rw (stop_waiter-some s w h.inv c e) (record {
      inv = stopped-Inv s w h.inv c e;
      at = ground (arith, waiter_of-insert s seq none w.waiters, h.at);
      full = ground (arith, h.full, h.at);
      next = h.next;
    })
  ]

  receives-Waits : (c : ℕ) → c ≢ ch → Waits seq ch d b (after_receive w (receive c w))
  unfolding receive after_receive
  receives-Waits c ne = record {
    inv = receive-Inv c w h.inv;
    at = ground (arith, h.at);
    full = ground (arith, h.full);
    next = ground (arith, h.next);
  }

-- The channel is open, and full if b.
abbrev Ready : ℕ → Bool → Uint16AckWaiter → Type 0
Ready ch b w = ((w.chans ch).full ≡ b) × ((w.chans ch).closed ≡ false)

run-Ready :
    (seq ch d : ℕ) (b r : Bool) (cs : List Call) (w : Uint16AckWaiter)
    → Waits seq ch d b w
    → seq < u16_mod
    → d + begun cs < 65535
    → AllQuiet seq ch cs
    → b || acked seq cs ≡ r
    → Holds (Ready ch r) (run cs w)
unfolding run step acked begun
run-Ready seq ch d b r [] w h l k q e = (ground (arith, h.full), h.inv.is_open seq ch h.at)
run-Ready seq ch d b r (begins ∷ cs) w h l k q e =
    run-Ready seq ch (suc d) b r cs (begin_wait w).0 (begins-Waits seq ch d b w h l (omega arith)) l
      (omega arith) q.1 e
run-Ready seq ch d b r (stops_all ∷ cs) w h l k q e = absurd q.0
run-Ready seq ch d b r (dones s ∷ cs) w h l k q e =
    Holds-bind (Waits seq ch d (b || s == seq)) (Ready ch r) (done s w) (run cs)
      (dones-Waits seq ch d b w h s)
      (λ w' h'. run-Ready seq ch d (b || s == seq) r cs w' h' l k q.1 (ground arith))
run-Ready seq ch d b r (receives c ∷ cs) w h l k q e =
    run-Ready seq ch d b r cs _ (receives-Waits seq ch d b w h c q.0) l k q.1 e
run-Ready seq ch d b r (stops s ∷ cs) w h l k q e =
    Holds-bind (Waits seq ch d b) (Ready ch r) (stop_waiter s w) (run cs)
      (stops-Waits seq ch d b w h s q.0) (λ w' h'. run-Ready seq ch d b r cs w' h' l k q.1 e)

begin_wait-Waits :
    (w : Uint16AckWaiter)
    → Inv w
    → w.next_seq < u16_mod
    → Waits w.next_seq w.made 0 false (begin_wait w).0
unfolding begin_wait
begin_wait-Waits w v l = record {
  inv = begin_wait-Inv w v;
  at = ground (arith, waiter_of-insert w.next_seq w.next_seq (some w.made) w.waiters);
  full = ground arith;
  next = ground arith;
}

Ready-answer :
    (m : Option Uint16AckWaiter) (ch : ℕ) (r : Bool)
    → Holds (Ready ch r) m
    → Holds (λ w. answer (receive ch w) ≡ (if r then some (ok tt) else none)) m
unfolding receive
Ready-answer none ch r h = h
Ready-answer (some w) ch r h = ground arith

-- After Wait has begun and any other calls that neither stop its number nor take from its channel,
-- fewer than 65535 of them new Waits, its receive succeeds if Done was called with its number and
-- blocks if it was not. The calls do not panic.
pub receive-run :
    (w : Uint16AckWaiter) (cs : List Call)
    → Inv w
    → w.next_seq < u16_mod
    → begun cs < 65535
    → AllQuiet w.next_seq w.made cs
    → Holds
        (λ w'. answer (receive w.made w') ≡ (if acked w.next_seq cs then some (ok tt) else none))
        (run cs (begin_wait w).0)
receive-run w cs v l k q = Ready-answer (run cs (begin_wait w).0) w.made (acked w.next_seq cs) (
    run-Ready w.next_seq w.made 0 false (acked w.next_seq cs) cs (begin_wait w).0
      (begin_wait-Waits w v l) l (omega arith) q refl)
