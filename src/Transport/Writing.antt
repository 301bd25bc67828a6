-- ===== src/Transport/Writing.antt =====
-- transport.go: Write, from where the transport is served. It waits for the ACK of its own number in
-- between, so it is two steps.
use dmsg.Prelude.{
  ℕ, Bool, Option, some, List, [], ◌∷◌, ◌++◌, if◌then◌else◌, length, Result, ok, err,
  err_closed_pipe, write_error,
}
use dmsg.Frame.{Frame, make_frame, fwd_type}
use dmsg.Ioutil.Seq.{encode_seq}
use dmsg.Ioutil.AckWaiter.{Uint16AckWaiter, begin_wait, from_chan, end_wait}
use dmsg.Transport.{Transport, ◌>>=◌, close}

-- writeFwdFrame
unfoldable pub fwd_frame : ℕ → ℕ → List ℕ → Frame
fwd_frame id seq p = make_frame fwd_type id (encode_seq seq ++ p)

-- What Write has come to before it waits: an error, or the number and the channel that it waits for.
pub data Begun : Type 0 where
  failed : Result ℕ → Begun
  waiting : ℕ → ℕ → Begun

-- Write up to the select of Wait; `wrote` is whether the connection took the frame.
unfoldable pub write_action :
    Bool → List ℕ → Uint16AckWaiter × ℕ × ℕ → Transport → Option (Begun × Transport)
write_action wrote p (w, seq, ch) tp =
    if wrote
    then some
        (waiting seq ch, record tp { ack_waiter = w; sent = tp.sent ++ fwd_frame tp.id seq p ∷ [] })
    else (close (record tp { ack_waiter = w }) >>= λ r. some (failed (err write_error), r.1))

unfoldable pub begin_write : Bool → List ℕ → Transport → Option (Begun × Transport)
begin_write wrote p tp =
    if tp.done
    then some (failed (err err_closed_pipe), tp)
    else write_action wrote p (begin_wait tp.ack_waiter) tp

-- The count of bytes that Write returns.
unfoldable pub written : List ℕ → Result (Unit {0}) → Result ℕ
written p (ok u) = ok (length p)
written p (err e) = err e

-- Write from the select on. The outer `none` is to block; the context is never done.
unfoldable pub end_write : List ℕ → ℕ → ℕ → Transport → Option (Result ℕ × Option Transport)
end_write p seq ch tp = end_wait from_chan seq ch tp.ack_waiter >>= λ r.
    some (written p r.0, r.1 >>= λ w. some (record tp { ack_waiter = w }))
