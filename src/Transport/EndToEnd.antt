-- ===== src/Transport/EndToEnd.antt =====
-- transport.go: a Write on one side, the FWD frame on the other, and the ACK back.
use dmsg.Prelude.{
  ℕ, ◌<◌, ◌≡◌, refl, true, false, Option, none, some, List, [], ◌∷◌, ◌++◌, length, take, arith,
  u16_mod, Result, ok,
}
use dmsg.Frame.{make_frame, fwd_type, ack_type, frame_type, pay_of}
use dmsg.Ioutil.Seq.{encode_seq, decode_seq}
use dmsg.Ioutil.AckWaiter.{
  Uint16AckWaiter, begin_wait, waiter_of, done, receive, select_wait, end_wait,
}
use dmsg.Ioutil.AckWaiter.Safety as Waiter
use dmsg.Transport.{Transport, ◌>>=◌}
use dmsg.Transport.Serving.{serve_frame, dispatch, handle_ack, finish_serving}
use dmsg.Transport.Writing.{begin_write, write_action, end_write, written, fwd_frame, waiting}
use dmsg.Transport.Inv.{Inv, Holds}

pub pay_of-make_frame : (ft id : ℕ) (p : List ℕ) → pay_of (make_frame ft id p) ≡ some p
unfolding pay_of make_frame
pay_of-make_frame ft id p = ground arith

pub frame_type-make_frame : (ft id : ℕ) (p : List ℕ) → frame_type (make_frame ft id p) ≡ some ft
unfolding frame_type make_frame
frame_type-make_frame ft id p = refl

decode-take_encode : (seq : ℕ) → seq < u16_mod → decode_seq (take 2 (encode_seq seq)) ≡ seq
unfolding decode_seq encode_seq
decode-take_encode seq h = ground arith

length-encode_seq : (seq : ℕ) → length (encode_seq seq) ≡ 2
unfolding encode_seq
length-encode_seq seq = refl

-- An ACK for the number seq marks its waiter done, and Serve goes on.
serve_frame-ack :
    (id seq : ℕ) (tp : Transport)
    → seq < u16_mod
    → serve_frame (make_frame ack_type id (encode_seq seq)) tp
      ≡ (done seq tp.ack_waiter >>= λ w. some (record tp { ack_waiter = w }))
unfolding serve_frame dispatch handle_ack finish_serving
serve_frame-ack id seq tp h =
    rw
      (
        pay_of-make_frame ack_type id (encode_seq seq),
        frame_type-make_frame ack_type id (encode_seq seq),
      )
      (ground (arith, decode-take_encode seq h, length-encode_seq seq))

-- A Write has the ACK of its own number come in, and returns the length of what it wrote.
abbrev pub returned : Option (Result ℕ × Option Transport) → Option (Result ℕ)
returned none = none
returned (some (r, m)) = some r

end_write_acked :
    (p : List ℕ) (seq ch : ℕ) (tp : Transport)
    → (tp.ack_waiter.chans ch).full ≡ true
    → returned (end_write p seq ch tp) ≡ some (ok (length p))
unfolding end_write end_wait select_wait receive written
end_write_acked p seq ch tp e = ground arith

pub begin_write_lem :
    (p : List ℕ) (tp : Transport)
    → tp.done ≡ false
    → begin_write true p tp
      ≡ some (
        waiting tp.ack_waiter.next_seq tp.ack_waiter.made,
        record tp {
          ack_waiter = (begin_wait tp.ack_waiter).0;
          sent = tp.sent ++ fwd_frame tp.id tp.ack_waiter.next_seq p ∷ [];
        },
      )
unfolding begin_write write_action begin_wait
begin_write_lem p tp e = ground arith

registered : (w : Uint16AckWaiter) → waiter_of w.next_seq (begin_wait w).0.waiters ≡ some w.made
unfolding begin_wait
registered w = ground (arith, Waiter.waiter_of-insert w.next_seq w.next_seq (some w.made) w.waiters)

-- The waiter of a Write, once the ACK with its number has been handled.
acked_waiter :
    (w : Uint16AckWaiter)
    → Waiter.Inv w
    → (w' : Uint16AckWaiter) × (done w.next_seq (begin_wait w).0 ≡ some w')
      × ((w'.chans w.made).full ≡ true)
acked_waiter w v =
    let u = (begin_wait w).0 in
    (
      Waiter.filled w.made u,
      Waiter.done_some w.next_seq u (Waiter.begin_wait-Inv w v) w.made (registered w),
      filled_full,
    )
  where
    filled_full : ((Waiter.filled w.made (begin_wait w).0).chans w.made).full ≡ true
    filled_full = ground arith

-- A Write of p on an open transport sends one FWD frame, which holds its number and p. When the ACK
-- with that number is handled the Write returns the length of p.
pub write-ack :
    (p : List ℕ) (tp : Transport)
    → Inv tp
    → tp.done ≡ false
    → tp.ack_waiter.next_seq < u16_mod
    → let seq = tp.ack_waiter.next_seq in
      Holds
        (λ b.
          (b.0 ≡ waiting seq tp.ack_waiter.made)
          × (b.1.sent ≡ tp.sent ++ make_frame fwd_type tp.id (encode_seq seq ++ p) ∷ [])
          × Holds
              (λ u. returned (end_write p seq tp.ack_waiter.made u) ≡ some (ok (length p)))
              (serve_frame (make_frame ack_type tp.id (encode_seq seq)) b.1))
        (begin_write true p tp)
write-ack p tp v open_tp h =
    let (w, e, full) = acked_waiter tp.ack_waiter v.waiter in
    rw (begin_write_lem p tp open_tp) (
      refl,
      unfold fwd_frame in refl,
      rw (serve_frame-ack tp.id tp.ack_waiter.next_seq _ h, e)
          (end_write_acked p tp.ack_waiter.next_seq tp.ack_waiter.made _ full),
    )
