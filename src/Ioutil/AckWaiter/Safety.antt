-- ===== src/Ioutil/AckWaiter/Safety.antt =====
-- ioutil/ack_waiter.go: no call panics. Every channel that the map holds is open, and no two
-- sequence numbers hold the same channel.
use dmsg.Prelude.{
  ℕ, ◌≡◌, ◌<◌, true, false, Option, none, some, List, [], ◌∷◌, arith, ◌==◌, if◌then◌else◌, lookup,
  insert, nat_eq, Result, lookup-insert, Option-cases, ap, inl, inr,
}
use dmsg.Ioutil.AckWaiter.{
  Uint16AckWaiter, new_ack_waiter, rand_seq, update, ◌>>=◌, waiter_of, stop_waiter, stop_keys, keys,
  stop_all, begin_wait, done, receive, Chosen, select_wait, end_wait,
}

pub waiter_of-insert :
    (k j : ℕ) (v : Option ℕ) (m : List (ℕ × Option ℕ))
    → waiter_of j (insert k v m) ≡ (if k == j then v else waiter_of j m)
unfolding waiter_of
waiter_of-insert k j v m = simp lookup-insert (ground arith)

pub record Inv (w : Uint16AckWaiter) : Type 0 where
  pub old : (s ch : ℕ) → waiter_of s w.waiters ≡ some ch → ch < w.made
  pub is_open : (s ch : ℕ) → waiter_of s w.waiters ≡ some ch → (w.chans ch).closed ≡ false
  pub distinct :
      (s t ch : ℕ) → waiter_of s w.waiters ≡ some ch → waiter_of t w.waiters ≡ some ch → s ≡ t

-- A call that does not panic, and after which the invariant holds.
abbrev pub Safe : Option Uint16AckWaiter → Type 0
Safe none = ⊥
Safe (some w) = Inv w

pub new_ack_waiter-Inv : Inv new_ack_waiter
unfolding new_ack_waiter waiter_of lookup
new_ack_waiter-Inv = record {
  old = λ s ch e. cc;
  is_open = λ s ch e. cc;
  distinct = λ s t ch e f. cc;
}

pub rand_seq-Inv : (w : Uint16AckWaiter) (b : List ℕ) → Inv w → Inv (rand_seq w b)
unfolding rand_seq
rand_seq-Inv w b v = record { old = v.old; is_open = v.is_open; distinct = v.distinct }

pub begin_wait-Inv : (w : Uint16AckWaiter) → Inv w → Inv (begin_wait w).0
unfolding begin_wait
begin_wait-Inv w v = record {
  old = λ s ch e. ground (arith, waiter_of-insert w.next_seq s (some w.made) w.waiters, v.old s ch);
  is_open = λ s ch e.
      ground
        (arith, waiter_of-insert w.next_seq s (some w.made) w.waiters, v.old s ch, v.is_open s ch);
  distinct = λ s t ch e f. ground (
    arith,
    waiter_of-insert w.next_seq s (some w.made) w.waiters,
    waiter_of-insert w.next_seq t (some w.made) w.waiters,
    v.old s ch,
    v.old t ch,
    v.distinct s t ch,
  );
}

-- The waiter after its channel c got a value.
abbrev pub filled : ℕ → Uint16AckWaiter → Uint16AckWaiter
filled c w = record w { chans = update w.chans c (record { full = true; closed = false }) }

-- The waiter after the channel c of seq was closed.
abbrev pub stopped : ℕ → ℕ → Uint16AckWaiter → Uint16AckWaiter
stopped seq c w = record w {
  waiters = insert seq none w.waiters;
  chans = update w.chans c (record { full = (w.chans c).full; closed = true });
}

module _ (seq : ℕ) (w : Uint16AckWaiter) where
  pub done_none : waiter_of seq w.waiters ≡ none → done seq w ≡ some w
  unfolding done
  done_none e = ground arith

  pub stop_waiter-none : waiter_of seq w.waiters ≡ none → stop_waiter seq w ≡ some w
  unfolding stop_waiter
  stop_waiter-none e = ground arith

  module _ (v : Inv w) (c : ℕ) (e : waiter_of seq w.waiters ≡ some c) where
    pub done_some : done seq w ≡ some (filled c w)
    unfolding done
    done_some = ground (arith, v.is_open seq c e)

    pub stop_waiter-some : stop_waiter seq w ≡ some (stopped seq c w)
    unfolding stop_waiter
    stop_waiter-some = ground (arith, v.is_open seq c e)

    pub filled-Inv : Inv (filled c w)
    filled-Inv = record {
      old = v.old;
      is_open = λ s ch f. ground (arith, v.is_open s ch f);
      distinct = v.distinct;
    }

    pub stopped-Inv : Inv (stopped seq c w)
    stopped-Inv = record {
      old = λ s ch f. ground (arith, waiter_of-insert seq s none w.waiters, v.old s ch);
      is_open = λ s ch f.
          ground
            (arith, waiter_of-insert seq s none w.waiters, v.is_open s ch, v.distinct s seq ch);
      distinct = λ s t ch f g. ground (
        arith,
        waiter_of-insert seq s none w.waiters,
        waiter_of-insert seq t none w.waiters,
        v.distinct s t ch,
      );
    }

  pub done-Safe : Inv w → Safe (done seq w)
  done-Safe v = elim (Option-cases (waiter_of seq w.waiters)) [
    | inl e ↦ rw (done_none e) v
    | inr (c, e) ↦ rw (done_some v c e) (filled-Inv v c e)
  ]

  pub stop_waiter-Safe : Inv w → Safe (stop_waiter seq w)
  stop_waiter-Safe v = elim (Option-cases (waiter_of seq w.waiters)) [
    | inl e ↦ rw (stop_waiter-none e) v
    | inr (c, e) ↦ rw (stop_waiter-some v c e) (stopped-Inv v c e)
  ]
  -- A step that is safe may be followed by steps that are safe from wherever it leads.

pub Safe-bind :
    (m : Option Uint16AckWaiter) (f : Uint16AckWaiter → Option Uint16AckWaiter)
    → Safe m
    → ((w : Uint16AckWaiter) → Inv w → Safe (f w))
    → Safe (m >>= f)
Safe-bind none f v k = v
Safe-bind (some w) f v k = k w v

stop_keys-Safe : (seqs : List ℕ) (w : Uint16AckWaiter) → Inv w → Safe (stop_keys seqs w)
unfolding stop_keys
stop_keys-Safe [] w v = v
stop_keys-Safe (s ∷ seqs) w v =
    Safe-bind (stop_waiter s w) (stop_keys seqs) (stop_waiter-Safe s w v) (stop_keys-Safe seqs)

pub stop_all-Safe : (w : Uint16AckWaiter) → Inv w → Safe (stop_all w)
unfolding stop_all
stop_all-Safe w v = stop_keys-Safe (keys w.waiters) w v

-- The calls that goroutines make on one waiter, in any order: the two parts of Wait, Done, StopAll.
pub data Call : Type 0 where
  begins stops_all : Call
  dones : ℕ → Call
  receives : ℕ → Call
  stops : ℕ → Call

-- A receive that blocks changes nothing.
unfoldable pub after_receive :
    Uint16AckWaiter → Option (Result (Unit {0}) × Uint16AckWaiter) → Uint16AckWaiter
after_receive w none = w
after_receive w (some (r, w')) = w'

unfoldable pub step : Call → Uint16AckWaiter → Option Uint16AckWaiter
unfolding after_receive
step begins w = some (begin_wait w).0
step stops_all w = stop_all w
step (dones seq) w = done seq w
step (receives ch) w = some (after_receive w (receive ch w))
step (stops seq) w = stop_waiter seq w

unfoldable pub run : List Call → Uint16AckWaiter → Option Uint16AckWaiter
unfolding step
run [] w = some w
run (c ∷ cs) w = step c w >>= run cs

pub receive-Inv : (ch : ℕ) (w : Uint16AckWaiter) → Inv w → Inv (after_receive w (receive ch w))
unfolding receive after_receive
receive-Inv ch w v = record {
  old = λ s c e. ground (arith, v.old s c);
  is_open = λ s c e. ground (arith, v.is_open s c);
  distinct = λ s t c e f. ground (arith, v.distinct s t c);
}

pub select_wait-Inv :
    (c : Chosen) (ch : ℕ) (w w' : Uint16AckWaiter) (r : Result (Unit {0}))
    → Inv w
    → select_wait c ch w ≡ some (r, w')
    → Inv w'
unfolding select_wait after_receive
select_wait-Inv Chosen.from_chan ch w w' r v e = rw (ap (after_receive w) e) at (receive-Inv ch w v)
select_wait-Inv Chosen.from_ctx ch w w' r v e = ground (arith, v)

-- The end of a Wait does not panic, and keeps the invariant.
pub end_wait-Safe :
    (c : Chosen) (seq ch : ℕ) (w : Uint16AckWaiter) (r : Result (Unit {0}))
    (m : Option Uint16AckWaiter)
    → Inv w
    → end_wait c seq ch w ≡ some (r, m)
    → Safe m
unfolding end_wait
end_wait-Safe c seq ch w r m v e = elim (Option-cases (select_wait c ch w)) [
  | inl blocked ↦ cc
  | inr ((r', w'), woken) ↦
      let safe = stop_waiter-Safe seq w' (select_wait-Inv c ch w w' r' v woken) in
      ground (arith, safe)
]

pub step-Safe : (c : Call) (w : Uint16AckWaiter) → Inv w → Safe (step c w)
unfolding step
step-Safe begins w v = begin_wait-Inv w v
step-Safe stops_all w v = stop_all-Safe w v
step-Safe (dones seq) w v = done-Safe seq w v
step-Safe (receives ch) w v = receive-Inv ch w v
step-Safe (stops seq) w v = stop_waiter-Safe seq w v

-- No order of calls, from a waiter that keeps the invariant, closes a channel twice or sends on a
-- closed one, and the invariant holds afterwards.
pub run-Safe : (cs : List Call) (w : Uint16AckWaiter) → Inv w → Safe (run cs w)
unfolding run
run-Safe [] w v = v
run-Safe (c ∷ cs) w v = Safe-bind (step c w) (run cs) (step-Safe c w v) (run-Safe cs)
