-- ===== src/Listener.antt =====
-- listener.go and port_manager.go. A transport in the accept queue is named by its id; its state
-- stays with its connection. The port manager holds its listeners by value: what goes on at a
-- listener is an update of its entry.
pub mod Queue
pub mod Ports
use dmsg.Prelude.{
  ℕ, suc, ◌+◌, Bool, true, false, not, Option, none, some, List, [], ◌∷◌, ◌++◌, if◌then◌else◌,
  length, ltb, Result, ok, err, Error, err_client_closed, err_client_accept_maxed,
}

-- AcceptBufferSize
abbrev pub accept_buffer_size : ℕ
accept_buffer_size = 20

-- `accept` is the buffered channel, oldest first; it is closed together with `done`.
pub record Listener : Type 0 where
  pub pk : List ℕ
  pub port : ℕ
  pub accept : List ℕ
  pub done : Bool

unfoldable pub new_listener : List ℕ → ℕ → Listener
new_listener pk port = record { pk = pk; port = port; accept = []; done = false }

-- close: whether this call closed the listener; the queue is drained.
unfoldable pub close : Listener → Bool × Listener
close l = if l.done then (false, l) else (true, record l { accept = []; done = true })

-- The exported Close, from what close has reported.
unfoldable pub close_result : Bool → Result (Unit {0})
close_result true = ok tt
close_result false = err err_client_closed

unfoldable pub front : List ℕ → Listener → Option (Result ℕ × Listener)
front [] l = none
front (tp ∷ tps) l = some (ok tp, record l { accept = tps })

-- AcceptTransport: `none` while it blocks.
unfoldable pub accept_transport : Listener → Option (Result ℕ × Listener)
accept_transport l = if l.done then some (err err_client_closed, l) else front l.accept l

-- What IntroduceTransport does with the transport: it is refused because the listener is closed,
-- refused and closed because the queue is full, or queued, and then accepted and served.
pub data Introduced : Type 0 where
  refused_closed refused_full queued : Introduced

-- Its select: a send on `accept` that does not block. `none` is the panic of a send on a closed
-- channel.
unfoldable pub offer : ℕ → Listener → Option (Introduced × Listener)
offer tp l =
    if l.done
    then none
    else (if ltb (length l.accept) accept_buffer_size
        then some (queued, record l { accept = l.accept ++ tp ∷ [] })
        else some (refused_full, l))

-- The select behind the check of isClosed.
unfoldable pub introduce : ℕ → Listener → Option (Introduced × Listener)
unfolding offer
introduce tp l = if l.done then some (refused_closed, l) else offer tp l

-- The error of IntroduceTransport, where `accepted` is the outcome of WriteAccept.
unfoldable pub introduce_result : Introduced → Result (Unit {0}) → Result (Unit {0})
introduce_result refused_closed accepted = err err_client_closed
introduce_result refused_full accepted = err err_client_accept_maxed
introduce_result queued accepted = accepted
