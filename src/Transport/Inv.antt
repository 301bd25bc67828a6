-- ===== src/Transport/Inv.antt =====
-- transport.go: what every step keeps. The three channels close together, exactly once, when `done`
-- is set; nothing is sent on a closed channel; the size kept in bufSize is the size of the buffers;
-- and ACKs are held back only while the read buffer is full.
use dmsg.Prelude.{
  ℕ, ◌+◌, ◌≤◌, ◌≡◌, ◌⊎◌, refl, true, not, Option, none, some, List, [], ◌∷◌, ◌++◌, if◌then◌else◌,
  length, drop, arith,
}
use dmsg.Ioutil.AckWaiter.{Uint16AckWaiter, stop_all, done}
use dmsg.Ioutil.AckWaiter.Safety as Waiter
use dmsg.Transport.{Transport, ◌>>=◌, close}
use dmsg.Transport.Serving.{tp_buf_cap, acknowledge, add_payload}

abbrev pub total : List (List ℕ) → ℕ
total [] = 0
total (b ∷ bs) = length b + total bs

pub total-append : (bs : List (List ℕ)) (b : List ℕ) → total (bs ++ b ∷ []) ≡ total bs + length b
total-append [] b = omega arith
total-append (c ∷ bs) b = omega (arith, total-append bs b)

pub record Inv (tp : Transport) : Type 0 where
  pub size : tp.buf_size ≡ total tp.buf
  pub held : (tp.ack_buf ≡ []) ⊎ (tp_buf_cap ≤ tp.buf_size)
  pub waiter : Waiter.Inv tp.ack_waiter
  pub buf_ch : tp.buf_ch_closed ≡ tp.done
  pub in_ch : tp.in_ch_closed ≡ tp.done
  pub served : tp.done ≡ true → tp.serving ≡ true
  pub removed : tp.removals ≡ (if tp.done then 1 else 0)

-- The step has not panicked, and what it leaves has the property.
abbrev pub Holds {ℓ} : {A : Type ℓ} → (A → Type 0) → Option A → Type 0
Holds P none = ⊥
Holds P (some a) = P a

pub Holds-bind {ℓ κ} :
    {A : Type ℓ} {B : Type κ} (P : A → Type 0) (Q : B → Type 0) (m : Option A) (f : A → Option B)
    → Holds P m
    → ((a : A) → P a → Holds Q (f a))
    → Holds Q (m >>= f)
Holds-bind P Q none f h k = absurd h
Holds-bind P Q (some a) f h k = k a h

-- The transport after a close that left its ACK waiter as w.
abbrev pub closing : Uint16AckWaiter → Transport → Transport
closing w tp = record tp {
  ack_waiter = w;
  serving = true;
  done = true;
  removals = 1;
  buf_ch_closed = true;
  in_ch_closed = true;
}

Safe-some :
    (m : Option Uint16AckWaiter)
    → Waiter.Safe m
    → (w : Uint16AckWaiter) × (m ≡ some w) × Waiter.Inv w
Safe-some none h = absurd h
Safe-some (some w) h = (w, refl, h)

pub stop_all-Inv :
    (w : Uint16AckWaiter)
    → Waiter.Inv w
    → (w' : Uint16AckWaiter) × (stop_all w ≡ some w') × Waiter.Inv w'
stop_all-Inv w v = Safe-some (stop_all w) (Waiter.stop_all-Safe w v)

pub done-Inv :
    (seq : ℕ) (w : Uint16AckWaiter)
    → Waiter.Inv w
    → (w' : Uint16AckWaiter) × (done seq w ≡ some w') × Waiter.Inv w'
done-Inv seq w v = Safe-some (done seq w) (Waiter.done-Safe seq w v)

-- close never panics: it reports whether the transport was open, and what it leaves is closed.
pub close_lem :
    (tp : Transport)
    → Inv tp
    → (w : Uint16AckWaiter) × Waiter.Inv w
      × (stop_all tp.ack_waiter ≡ some w)
      × (close tp ≡ some (not tp.done, closing w tp))
unfolding close
close_lem tp v =
    let (w, e, i) = stop_all-Inv tp.ack_waiter v.waiter in
    (w, i, e, ground (arith, v.buf_ch, v.in_ch, v.served, v.removed))

pub acknowledge-Inv :
    (p : List ℕ) (tp : Transport) → Inv tp → Inv (add_payload p (acknowledge p tp))
unfolding acknowledge add_payload
acknowledge-Inv p tp v = record {
  size = ground (arith, v.size, total-append tp.buf (drop 2 p));
  held = ground (arith, v.held);
  waiter = ground (arith, v.waiter);
  buf_ch = ground (arith, v.buf_ch);
  in_ch = ground (arith, v.in_ch);
  served = λ h. ground (arith, v.served);
  removed = ground (arith, v.removed);
}
