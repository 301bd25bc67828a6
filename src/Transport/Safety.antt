-- ===== src/Transport/Safety.antt =====
-- transport.go: the steps of a transport, in any order. No step panics, and each keeps the invariant
-- and has the effect on the buffers and the ACKs that `effect` says.
use dmsg.Prelude.{
  ==_iff, ℕ, ◌+◌, ◌-◌, ◌≤◌, ◌≡◌, inl, inr, refl, ◌∙◌, Bool, true, false, not, Option, none, some,
  List, [], ◌∷◌, if◌then◌else◌, length, drop, arith, Bool-cases, length-append, Result, ok, err,
  err_closed_pipe, ◌==◌, ltb, length-take, length-drop, ◌&&◌,
}
use dmsg.Frame.{Frame, header_len, frame_type, pay_of, fwd_type}
use dmsg.Ioutil.AckWaiter.{new_ack_waiter}
use dmsg.Ioutil.AckWaiter.Safety as Waiter
use dmsg.Transport.{Addr, new_transport, Transport, ◌>>=◌, close, close_with_frame}
use dmsg.Transport.Serving.{
  acknowledge, add_payload, notify, handle_fwd, dispatch, finish_serving, serve_frame, handle_frame,
}
use dmsg.Transport.Reading.{read_buffers, drop_empty, release_acks, take_bytes, turn}
use dmsg.Transport.Writing.{begin_write, end_write}
use dmsg.Transport.Handshake.{Event, receives, write_accept, read_accept}
use dmsg.Transport.Inv.{Inv, Holds, Holds-bind, total, acknowledge-Inv}
use dmsg.Transport.Kept.{
  Kept, Keeps, Kept-refl, with_notice, with_conn_closed, close-Kept, close_with_frame-Kept,
  notify-Kept, handle_ack-Kept, handle_close-Kept, begin_write-Kept, end_write-Kept,
  finish_serving-Kept, write_or_close-Kept, read_accept-Kept,
}

-- Whether a frame is an FWD that Serve takes: it is long enough to hold a sequence number.
unfoldable pub accepts : ℕ → List ℕ → Bool
accepts ft p = ft == fwd_type && not (ltb (length p) 2)

-- What a frame of that type and payload does to the buffers and the ACKs.
unfoldable pub frame_effect : ℕ → List ℕ → Transport → Transport
frame_effect ft p tp = if accepts ft p then add_payload p (acknowledge p tp) else tp

handle_fwd-Kept :
    (p : List ℕ) (tp : Transport)
    → Inv tp
    → Holds (Keeps (frame_effect fwd_type p tp)) (handle_fwd p tp)
unfolding handle_fwd frame_effect accepts
handle_fwd-Kept p tp v = elim (Bool-cases (ltb (length p) 2)) [
  | inl e ↦ rw e (Kept-refl tp v)
  | inr e ↦ rw e (
      Holds-bind (Kept u) (Keeps u) (notify u) (λ t. some (true, t))
        (notify-Kept u (acknowledge-Inv p tp v)) (λ t w. w))
]
  where
    u : Transport
    u = add_payload p (acknowledge p tp)

frame_effect_other :
    (ft : ℕ) (p : List ℕ) (tp : Transport) → ft == fwd_type ≡ false → frame_effect ft p tp ≡ tp
unfolding frame_effect accepts
frame_effect_other ft p tp e = ground arith

dispatch-Kept :
    (ft : ℕ) (p : List ℕ) (tp : Transport)
    → Inv tp
    → Holds (Keeps (frame_effect ft p tp)) (dispatch ft p tp)
unfolding dispatch
dispatch-Kept ft p tp v = elim (Bool-cases (ft == fwd_type)) [
  | inl fwd ↦ rw ((==_iff ft fwd_type).0 fwd) (handle_fwd-Kept p tp v)
  | inr other ↦
      rw (frame_effect_other ft p tp other, other)
        (ground (
          arith,
          handle_ack-Kept tp v p,
          handle_close-Kept tp v,
          with_conn_closed tp v,
          Kept-refl tp v,
        ))
]

serve_frame-Kept :
    (t : ℕ) (f : List ℕ) (tp : Transport)
    → 4 ≤ length f
    → Inv tp
    → Holds (Kept (frame_effect t (drop 4 f) tp)) (serve_frame (t ∷ f) tp)
unfolding serve_frame pay_of frame_type
serve_frame-Kept t f tp h v =
    let p = drop 4 f in
    ground (
      arith,
      Holds-bind (Keeps (frame_effect t p tp)) (Kept (frame_effect t p tp)) (dispatch t p tp)
          finish_serving (dispatch-Kept t p tp v) (finish_serving-Kept (frame_effect t p tp)),
    )

-- net.Buffers.Read takes as many bytes as fit and are there, and leaves the rest.
total-drop_empty : (bs : List (List ℕ)) → total (drop_empty bs) ≡ total bs
unfolding drop_empty
total-drop_empty [] = refl
total-drop_empty ([] ∷ bs) = omega (arith, total-drop_empty bs)
total-drop_empty ((x ∷ b) ∷ bs) = refl

total-read_buffers :
    (k : ℕ) (bs : List (List ℕ))
    → length (read_buffers k bs).0 + total (read_buffers k bs).1 ≡ total bs
unfolding read_buffers
total-read_buffers k [] = refl
total-read_buffers k (b ∷ bs) =
    let (p, rest) = read_buffers (k - length b) bs in
    ground (
      arith,
      total-read_buffers (k - length b) bs,
      total-drop_empty rest,
      length-append b p,
      length-take k b,
      length-drop k b,
    )

take_bytes-Inv : (k : ℕ) (tp : Transport) → Inv tp → Inv (take_bytes k tp).1
unfolding take_bytes release_acks
take_bytes-Inv k tp v = record {
  size = ground (arith, v.size, total-read_buffers k tp.buf);
  held = ground (arith, v.held);
  waiter = ground (arith, v.waiter);
  buf_ch = ground (arith, v.buf_ch);
  in_ch = ground (arith, v.in_ch);
  served = λ h. ground (arith, v.served);
  removed = ground (arith, v.removed);
}

pub turn-Kept : (k : ℕ) (tp : Transport) → Inv tp → Kept (take_bytes k tp).1 (turn k tp).1
unfolding turn
turn-Kept k tp v =
    let (p, u) = take_bytes k tp in
    ground (arith, with_notice u (take_bytes-Inv k tp v) false, Kept-refl u (take_bytes-Inv k tp v))

-- The steps of the goroutines that share a transport.
pub data Call : Type 0 where
  is_handed receives_frame : Frame → Call
  reads : ℕ → Call
  begins_write : Bool → List ℕ → Call
  ends_write : List ℕ → ℕ → ℕ → Call
  writes_accept : Bool → Call
  reads_accept : Event → Call
  closes : Call
  ack_write_fails : Call

abbrev left : {A : Type 0} → Option (A × Transport) → Option Transport
left none = none
left (some (a, tp)) = some tp

-- A Write that still blocks changes nothing.
abbrev after_write : Transport → Option (Result ℕ × Option Transport) → Option Transport
after_write tp none = some tp
after_write tp (some (r, m)) = m

unfoldable pub step : Call → Transport → Option Transport
step (is_handed f) tp = handle_frame tp f >>= λ r. some tp
step (receives_frame f) tp = serve_frame f tp
step (reads k) tp = some (turn k tp).1
step (begins_write wrote p) tp = left (begin_write wrote p tp)
step (ends_write p seq ch) tp = after_write tp (end_write p seq ch tp)
step (writes_accept wrote) tp = left (write_accept wrote tp)
step (reads_accept ev) tp = left (read_accept ev tp)
step closes tp = close_with_frame tp
step ack_write_fails tp = left (close tp)

unfoldable pub run : List Call → Transport → Option Transport
unfolding step
run [] tp = some tp
run (c ∷ cs) tp = step c tp >>= run cs

-- What a step does to the buffers and the ACKs.
unfoldable pub effect : Call → Transport → Transport
effect (receives_frame []) tp = tp
effect (receives_frame (t ∷ f)) tp = frame_effect t (drop 4 f) tp
effect (reads k) tp = (take_bytes k tp).1
effect _ tp = tp

-- readFrame hands over no frame that is shorter than a header.
abbrev pub IsWhole : Call → Type 0
IsWhole (receives_frame f) = header_len ≤ length f
IsWhole (reads_accept (receives f)) = header_len ≤ length f
IsWhole _ = Unit {0}

abbrev pub AllWhole : List Call → Type 0
AllWhole [] = Unit {0}
AllWhole (c ∷ cs) = IsWhole c × AllWhole cs

Holds-left :
    {A : Type 0} (P : Transport → Type 0) (m : Option (A × Transport))
    → Holds (λ r. P r.1) m
    → Holds P (left m)
Holds-left P none h = h
Holds-left P (some (a, tp)) h = h

after_write-Kept :
    (tp : Transport) (m : Option (Result ℕ × Option Transport))
    → Inv tp
    → ((r : Result ℕ) (m' : Option Transport) → m ≡ some (r, m') → Holds (Kept tp) m')
    → Holds (Kept tp) (after_write tp m)
after_write-Kept tp none v h = Kept-refl tp v
after_write-Kept tp (some (r, m)) v h = h r m refl

whole_event :
    (ev : Event) → IsWhole (reads_accept ev) → (f : Frame) → ev ≡ receives f → header_len ≤ length f
whole_event (receives g) h f e = ground arith
whole_event ev h f e = cc

-- HandleFrame never sends on a closed channel.
handle_frame_total :
    (f : Frame) (tp : Transport) → Inv tp → (r : Result Frame) × (handle_frame tp f ≡ some r)
unfolding handle_frame
handle_frame_total f tp v = elim (Bool-cases tp.done) [
  | inl e ↦ (err err_closed_pipe, ground (arith, e))
  | inr e ↦ (ok f, ground (arith, e, v.in_ch ∙ e))
]

-- HandleFrame leaves the transport as it is.
handle_frame-Kept :
    (f : Frame) (tp : Transport) → Inv tp → Holds (Kept tp) (handle_frame tp f >>= λ r. some tp)
handle_frame-Kept f tp v = let (r, e) = handle_frame_total f tp v in rw e (Kept-refl tp v)

pub step-Kept :
    (c : Call) (tp : Transport) → IsWhole c → Inv tp → Holds (Kept (effect c tp)) (step c tp)
unfolding step effect write_accept
step-Kept (is_handed f) tp h v = handle_frame-Kept f tp v
step-Kept (receives_frame []) tp h v = absurd (omega arith)
step-Kept (receives_frame (t ∷ f)) tp h v = serve_frame-Kept t f tp (omega arith) v
step-Kept (reads k) tp h v = turn-Kept k tp v
step-Kept (begins_write wrote p) tp h v =
    Holds-left (Kept tp) (begin_write wrote p tp) (begin_write-Kept tp v wrote p)
step-Kept (ends_write p seq ch) tp h v =
    after_write-Kept tp (end_write p seq ch tp) v (λ r m e. end_write-Kept p seq ch tp r m v e)
step-Kept (writes_accept wrote) tp h v =
    Holds-left (Kept tp) (write_accept wrote tp) (write_or_close-Kept tp v wrote _)
step-Kept (reads_accept ev) tp h v =
    Holds-left (Kept tp) (read_accept ev tp) (read_accept-Kept tp v ev (whole_event ev h))
step-Kept closes tp h v = close_with_frame-Kept tp v
step-Kept ack_write_fails tp h v = Holds-left (Kept tp) (close tp) (close-Kept tp v)

-- In any order of steps on whole frames, HandleFrame's included, a transport does not panic: it never
-- closes a channel twice nor sends on a closed one. And it keeps its invariant: bufSize is the size of the buffers, ACKs
-- are held only while at least 65535 bytes are buffered, a closed transport has all its channels
-- closed, and doneFunc has been called once if it is closed and not at all if it is open.
pub run-Inv : (cs : List Call) (tp : Transport) → AllWhole cs → Inv tp → Holds Inv (run cs tp)
unfolding run
run-Inv [] tp h v = v
run-Inv (c ∷ cs) tp h v =
    Holds-bind (Kept (effect c tp)) Inv (step c tp) (run cs) (step-Kept c tp h.0 v)
      (λ t k. run-Inv cs t h.1 k.inv)

pub new_transport-Inv :
    (local remote : Addr) (id : ℕ) (seed : List ℕ) → Inv (new_transport local remote id seed)
unfolding new_transport
new_transport-Inv local remote id seed = record {
  size = refl;
  held = inl refl;
  waiter = Waiter.rand_seq-Inv new_ack_waiter seed Waiter.new_ack_waiter-Inv;
  buf_ch = refl;
  in_ch = refl;
  served = λ e. cc;
  removed = refl;
}
