-- ===== src/Transport.antt =====
-- transport.go: the state of a transport, and how it closes. The mutexes make each step atomic. A
-- write to the connection that a new goroutine makes is recorded in `spawned` when the goroutine
-- starts; a write that the caller itself makes is recorded in `sent`. `none` is a panic.
pub mod Serving
pub mod Reading
pub mod Writing
pub mod Handshake
pub mod Inv
pub mod Kept
pub mod Safety
pub mod Stream
pub mod Acks
pub mod Reads
pub mod EndToEnd
pub mod Accepts
use dmsg.Prelude.{
  ℕ, suc, ◌+◌, Bool, true, false, not, Option, none, some, List, [], ◌∷◌, ◌++◌, if◌then◌else◌,
}
use dmsg.Frame.{Frame, PubKey, make_frame, close_type, placeholder_reason}
use dmsg.Ioutil.AckWaiter.{Uint16AckWaiter, new_ack_waiter, rand_seq, stop_all}

pub record Addr : Type 0 where
  pub pk : PubKey
  pub port : ℕ

-- `notice` is the value in bufCh, a channel of capacity one. `removals` counts the calls of
-- doneFunc. The three channels close at most once.
pub record Transport : Type 0 where
  pub id : ℕ
  pub local : Addr
  pub remote : Addr
  pub ack_waiter : Uint16AckWaiter
  pub ack_buf : List ℕ
  pub buf : List (List ℕ)
  pub buf_size : ℕ
  pub notice : Bool
  pub buf_ch_closed : Bool
  pub in_ch_closed : Bool
  pub serving : Bool
  pub done : Bool
  pub removals : ℕ
  pub conn_closed : Bool
  pub spawned : List (List ℕ)
  pub sent : List Frame

-- `seed` is the two random bytes of RandSeq.
unfoldable pub new_transport : Addr → Addr → ℕ → List ℕ → Transport
new_transport local remote id seed = record {
  id = id;
  local = local;
  remote = remote;
  ack_waiter = rand_seq new_ack_waiter seed;
  ack_buf = [];
  buf = [];
  buf_size = 0;
  notice = false;
  buf_ch_closed = false;
  in_ch_closed = false;
  serving = false;
  done = false;
  removals = 0;
  conn_closed = false;
  spawned = [];
  sent = [];
}

infixl 5 ◌>>=◌
abbrev pub ◌>>=◌ {ℓ κ} : {A : Type ℓ} {B : Type κ} → Option A → (A → Option B) → Option B
none >>= f = none
some a >>= f = f a

-- Whether this call is the one that begins to serve.
unfoldable pub serve : Transport → Bool × Transport
serve tp = (not tp.serving, record tp { serving = true })

unfoldable pub is_closed : Transport → Bool
is_closed tp = tp.done

-- The body of doneOnce: closing a closed channel panics.
unfoldable pub close_once : Transport → Option Transport
close_once tp =
    if tp.buf_ch_closed
    then none
    else (if tp.in_ch_closed
        then none
        else some (record tp {
          done = true;
          removals = suc tp.removals;
          buf_ch_closed = true;
          in_ch_closed = true;
        }))

unfoldable pub stop_acks : Transport → Option Transport
stop_acks tp = stop_all tp.ack_waiter >>= λ w. some (record tp { ack_waiter = w })

-- close: whether this call closed the transport. The once of doneOnce has run exactly if `done`.
unfoldable pub close : Transport → Option (Bool × Transport)
unfolding close_once serve stop_acks
close tp = do
  tp' ← if tp.done then some tp else close_once tp
  tp'' ← stop_acks (serve tp').1
  some (not tp.done, tp'')

unfoldable pub close_frame : Transport → Frame
close_frame tp = make_frame close_type tp.id (placeholder_reason ∷ [])

-- writeCloseFrame on the transport's connection; its error is only logged.
unfoldable pub write_close_frame : Bool × Transport → Transport
write_close_frame (closed, tp) =
    if closed then record tp { sent = tp.sent ++ close_frame tp ∷ [] } else tp

-- The exported Close.
unfoldable pub close_with_frame : Transport → Option Transport
close_with_frame tp = close tp >>= λ r. some (write_close_frame r)
