-- ===== src/Transport/Serving.antt =====
-- transport.go: HandleFrame, and the loop of Serve, one received frame at a time.
use dmsg.Prelude.{
  ℕ, ◌+◌, Bool, true, false, not, Option, none, some, List, [], ◌∷◌, ◌++◌, if◌then◌else◌, length,
  take, drop, ltb, ◌==◌, Result, ok, err, err_closed_pipe,
}
use dmsg.Frame.{
  Frame, make_frame, ack_type, fwd_type, close_type, request_type, max_uint16, frame_type, pay_of,
}
use dmsg.Ioutil.Seq.{decode_seq}
use dmsg.Ioutil.AckWaiter.{done}
use dmsg.Transport.{Transport, ◌>>=◌, close, write_close_frame}

-- HandleFrame: the frame is sent on inCh unless the transport is closed; `none` is the panic of a
-- send on a closed channel. (While inCh has no receiver the loop goes on; the frame then stands for
-- the receive that ends it.)
unfoldable pub handle_frame : Transport → Frame → Option (Result Frame)
handle_frame tp f =
    if tp.done then some (err err_closed_pipe) else (if tp.in_ch_closed then none else some (ok f))

abbrev pub tp_buf_cap : ℕ
tp_buf_cap = max_uint16

unfoldable pub ack_frame : Transport → List ℕ → Frame
ack_frame tp p = make_frame ack_type tp.id (take 2 p)

-- The ACK goes out if the read buffer has room for the payload, and into ackBuf if not.
unfoldable pub acknowledge : List ℕ → Transport → Transport
acknowledge p tp =
    let size = tp.buf_size + length (drop 2 p) in
    if ltb tp_buf_cap size
    then record tp { buf_size = size; ack_buf = tp.ack_buf ++ ack_frame tp p }
    else record tp { buf_size = size; spawned = tp.spawned ++ ack_frame tp p ∷ [] }

unfoldable pub add_payload : List ℕ → Transport → Transport
add_payload p tp = record tp { buf = tp.buf ++ drop 2 p ∷ [] }

-- A send to bufCh that does not block, skipped on a closed transport.
unfoldable pub notify : Transport → Option Transport
notify tp =
    if not tp.done
    then (if tp.buf_ch_closed then none else some (record tp { notice = true }))
    else some tp

-- Whether the loop goes on, and the transport.
abbrev pub Served : Type 0
Served = Option (Bool × Transport)

unfoldable pub handle_fwd : List ℕ → Transport → Served
handle_fwd p tp =
    if ltb (length p) 2
    then some (false, tp)
    else (notify (add_payload p (acknowledge p tp)) >>= λ tp'. some (true, tp'))

unfoldable pub handle_ack : List ℕ → Transport → Served
handle_ack p tp =
    if not (length p == 2)
    then some (false, tp)
    else (done (decode_seq (take 2 p)) tp.ack_waiter >>= λ w.
        some (true, record tp { ack_waiter = w }))

unfoldable pub handle_close : Transport → Served
handle_close tp = close tp >>= λ r. some (false, r.1)

-- The switch on the frame's type.
unfoldable pub dispatch : ℕ → List ℕ → Transport → Served
dispatch ft p tp =
    if ft == fwd_type
    then handle_fwd p tp
    else (if ft == ack_type
        then handle_ack p tp
        else (if ft == close_type
            then handle_close tp
            else (if ft == request_type
                then some (false, record tp { conn_closed = true })
                else some (true, tp))))

-- The deferred close of Serve, with its CLOSE frame, when the loop ends.
unfoldable pub finish_serving : Bool × Transport → Option Transport
finish_serving (true, tp) = some tp
finish_serving (false, tp) = close tp >>= λ r. some (write_close_frame r)

-- One turn of the loop of Serve, for a frame received from inCh.
unfoldable pub serve_frame : Frame → Transport → Option Transport
serve_frame f tp = do p ← pay_of f; ft ← frame_type f; r ← dispatch ft p tp; finish_serving r
