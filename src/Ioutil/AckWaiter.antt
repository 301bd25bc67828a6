-- ===== src/Ioutil/AckWaiter.antt =====
-- ioutil/ack_waiter.go: Uint16AckWaiter. A channel of capacity one is a record on a heap, so that a
-- map entry and the goroutine that waits share it. `none` is a panic: a second close, or a send on
-- a closed channel. Each operation runs under the waiter's lock.
pub mod Safety
pub mod Delivery
pub mod Stop
use dmsg.Prelude.{
  ℕ, zero, suc, ◌+◌, ◌%◌, ◌≡◌, Bool, true, false, Option, none, some, List, [], ◌∷◌, map, arith,
  ◌==◌, if◌then◌else◌, lookup, insert, delete, u16_mod, nat_eq, Error, err_closed_pipe, Result, ok,
  err, ctx_done,
}
use dmsg.Ioutil.Seq.{decode_seq}

-- chan struct{} with a buffer of one: whether it holds a value, and whether it is closed.
pub record Chan : Type 0 where
  pub full : Bool
  pub closed : Bool

-- The map keeps nil under a sequence number whose waiter was stopped. `made` channels exist so far.
pub record Uint16AckWaiter : Type 0 where
  pub next_seq : ℕ
  pub waiters : List (ℕ × Option ℕ)
  pub chans : ℕ → Chan
  pub made : ℕ

abbrev pub open_chan : Chan
open_chan = record { full = false; closed = false }

unfoldable pub new_ack_waiter : Uint16AckWaiter
new_ack_waiter = record { next_seq = 0; waiters = []; chans = λ c. open_chan; made = 0 }

-- RandSeq with the two bytes that crypto/rand gives.
unfoldable pub rand_seq : Uint16AckWaiter → List ℕ → Uint16AckWaiter
unfolding decode_seq
rand_seq w b = record w { next_seq = decode_seq b }

abbrev pub update : (ℕ → Chan) → ℕ → Chan → ℕ → Chan
update f i c j = if i == j then c else f j

infixl 5 ◌>>=◌
abbrev pub ◌>>=◌ {ℓ κ} : {A : Type ℓ} {B : Type κ} → Option A → (A → Option B) → Option B
none >>= f = none
some a >>= f = f a

-- close(ch)
unfoldable pub close_chan : ℕ → Uint16AckWaiter → Option Uint16AckWaiter
close_chan ch w =
    if (w.chans ch).closed
    then none
    else some (record w { chans = update w.chans ch (record (w.chans ch) { closed = true }) })

-- w.waiters[seq]: a missing key reads as nil.
unfoldable pub waiter_of : ℕ → List (ℕ × Option ℕ) → Option ℕ
waiter_of seq m = lookup seq m >>= λ v. v

unfoldable pub stop_waiter : ℕ → Uint16AckWaiter → Option Uint16AckWaiter
unfolding close_chan
stop_waiter seq w = elim (waiter_of seq w.waiters) [
  | none ↦ some w
  | some ch ↦ close_chan ch w >>= λ w'. some (record w' { waiters = insert seq none w'.waiters })
]

unfoldable pub stop_keys : List ℕ → Uint16AckWaiter → Option Uint16AckWaiter
stop_keys [] w = some w
stop_keys (seq ∷ seqs) w = stop_waiter seq w >>= stop_keys seqs

abbrev pub keys : List (ℕ × Option ℕ) → List ℕ
keys [] = []
keys ((k, v) ∷ m) = k ∷ keys m

-- StopAll: the loop ranges over the keys of the map.
unfoldable pub stop_all : Uint16AckWaiter → Option Uint16AckWaiter
unfolding stop_keys
stop_all w = stop_keys (keys w.waiters) w

-- The first part of Wait: the sequence number and the channel that the caller goes on with.
unfoldable pub begin_wait : Uint16AckWaiter → Uint16AckWaiter × ℕ × ℕ
begin_wait w = (
  record w {
    next_seq = (w.next_seq + 1) % u16_mod;
    waiters = insert w.next_seq (some w.made) w.waiters;
    chans = update w.chans w.made open_chan;
    made = suc w.made;
  },
  w.next_seq,
  w.made,
)

-- ch <- struct{}{} in a select with a default case: a full channel stays full.
unfoldable pub try_send : ℕ → Uint16AckWaiter → Option Uint16AckWaiter
try_send ch w =
    if (w.chans ch).closed
    then none
    else some (record w { chans = update w.chans ch (record (w.chans ch) { full = true }) })

-- Done: a nil channel is never ready, and leaves the default case.
unfoldable pub done : ℕ → Uint16AckWaiter → Option Uint16AckWaiter
unfolding try_send
done seq w = elim (waiter_of seq w.waiters) [ none ↦ some w | some ch ↦ try_send ch w ]

-- Receiving from the channel in the select of Wait: `none` while it blocks.
unfoldable pub receive : ℕ → Uint16AckWaiter → Option (Result (Unit {0}) × Uint16AckWaiter)
receive ch w =
    if (w.chans ch).full
    then some (ok tt, record w { chans = update w.chans ch (record (w.chans ch) { full = false }) })
    else (if (w.chans ch).closed then some (err err_closed_pipe, w) else none)

-- The select of Wait: the case that runs is either the channel's or, if the context is done, the
-- context's.
pub data Chosen : Type 0 where
  from_chan from_ctx : Chosen

unfoldable pub select_wait :
    Chosen → ℕ → Uint16AckWaiter → Option (Result (Unit {0}) × Uint16AckWaiter)
select_wait from_chan ch w = receive ch w
select_wait from_ctx ch w = some (err ctx_done, w)

-- Wait behind a successful action: the select, then stopWaiter(seq). The outer `none` is to block.
unfoldable pub end_wait :
    Chosen → ℕ → ℕ → Uint16AckWaiter → Option (Result (Unit {0}) × Option Uint16AckWaiter)
end_wait c seq ch w = select_wait c ch w >>= λ r. some (r.0, stop_waiter seq r.1)
