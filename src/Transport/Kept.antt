-- ===== src/Transport/Kept.antt =====
-- transport.go: the steps that leave the buffers and the ACKs alone. They keep the invariant.
use dmsg.Prelude.{
  ℕ, ◌≤◌, ◌≡◌, inl, inr, refl, Bool, true, false, Option, none, some, List, [], ◌∷◌, ◌++◌, length,
  take, arith, Bool-cases, Option-cases, Result, err, ◌==◌, Error, write_error, err_closed_pipe,
  ctx_done, err_accept_check_failed, err_request_rejected,
}
use dmsg.Frame.{Frame, header_len}
use dmsg.Frame.Codec.{disassemble_total}
use dmsg.Ioutil.Seq.{decode_seq}
use dmsg.Ioutil.AckWaiter.{Uint16AckWaiter, begin_wait, end_wait, from_chan}
use dmsg.Ioutil.AckWaiter.Safety as Waiter
use dmsg.Transport.{Transport, ◌>>=◌, close, write_close_frame, close_with_frame}
use dmsg.Transport.Serving.{handle_ack, handle_close, finish_serving, notify}
use dmsg.Transport.Writing.{begin_write, write_action, end_write, failed, fwd_frame}
use dmsg.Transport.Handshake.{
  Event, is_done, ctx_ends, in_ch_closed, receives, write_or_close, read_accept, check_accept,
  fail_closed, fail_with_frame,
}
use dmsg.Transport.Inv.{Inv, Holds, Holds-bind, done-Inv, closing, close_lem}

-- The transport u keeps the invariant, and has the id, the buffers and the ACKs of tp.
pub record Kept (tp u : Transport) : Type 0 where
  pub inv : Inv u
  pub id : u.id ≡ tp.id
  pub buf : u.buf ≡ tp.buf
  pub ack_buf : u.ack_buf ≡ tp.ack_buf
  pub spawned : u.spawned ≡ tp.spawned

-- The same of a result with its transport.
abbrev pub Keeps : {A : Type 0} → Transport → A × Transport → Type 0
Keeps tp r = Kept tp r.1

module _ (tp : Transport) (v : Inv tp) where
  pub Kept-refl : Kept tp tp
  Kept-refl = record { inv = v; id = refl; buf = refl; ack_buf = refl; spawned = refl }

  pub with_notice : (n : Bool) → Kept tp (record tp { notice = n })
  with_notice n = record {
    inv = record {
      size = v.size;
      held = v.held;
      waiter = v.waiter;
      buf_ch = v.buf_ch;
      in_ch = v.in_ch;
      served = v.served;
      removed = v.removed;
    };
    id = refl;
    buf = refl;
    ack_buf = refl;
    spawned = refl;
  }

  pub with_waiter : (w : Uint16AckWaiter) → Waiter.Inv w → Kept tp (record tp { ack_waiter = w })
  with_waiter w i = record {
    inv = record {
      size = v.size;
      held = v.held;
      waiter = i;
      buf_ch = v.buf_ch;
      in_ch = v.in_ch;
      served = v.served;
      removed = v.removed;
    };
    id = refl;
    buf = refl;
    ack_buf = refl;
    spawned = refl;
  }

  pub with_sent :
      (w : Uint16AckWaiter) (fs : List Frame)
      → Waiter.Inv w
      → Kept tp (record tp { ack_waiter = w; sent = fs })
  with_sent w fs i = record {
    inv = record {
      size = v.size;
      held = v.held;
      waiter = i;
      buf_ch = v.buf_ch;
      in_ch = v.in_ch;
      served = v.served;
      removed = v.removed;
    };
    id = refl;
    buf = refl;
    ack_buf = refl;
    spawned = refl;
  }

  pub with_conn_closed : Kept tp (record tp { conn_closed = true })
  with_conn_closed = record {
    inv = record {
      size = v.size;
      held = v.held;
      waiter = v.waiter;
      buf_ch = v.buf_ch;
      in_ch = v.in_ch;
      served = v.served;
      removed = v.removed;
    };
    id = refl;
    buf = refl;
    ack_buf = refl;
    spawned = refl;
  }

  pub closing-Kept : (w : Uint16AckWaiter) → Waiter.Inv w → Kept tp (closing w tp)
  closing-Kept w i = record {
    inv = record {
      size = v.size;
      held = v.held;
      waiter = i;
      buf_ch = refl;
      in_ch = refl;
      served = λ _. refl;
      removed = refl;
    };
    id = refl;
    buf = refl;
    ack_buf = refl;
    spawned = refl;
  }

  pub close-Kept : Holds (Keeps tp) (close tp)
  close-Kept = let (w, i, _, e) = close_lem tp v in rw e (closing-Kept w i)

pub Kept-trans : {a b c : Transport} → Kept a b → Kept b c → Kept a c
Kept-trans h k = record {
  inv = k.inv;
  id = cc (h.id, k.id);
  buf = cc (h.buf, k.buf);
  ack_buf = cc (h.ack_buf, k.ack_buf);
  spawned = cc (h.spawned, k.spawned);
}

write_close_frame-Kept :
    (tp : Transport) (r : Bool × Transport) → Keeps tp r → Kept tp (write_close_frame r)
unfolding write_close_frame
write_close_frame-Kept tp (true, u) k = Kept-trans k (with_sent u k.inv u.ack_waiter _ k.inv.waiter)
write_close_frame-Kept tp (false, u) k = k

-- A value returned beside the transport as a close has left it.
abbrev with_answer : {A : Type 0} → A → Bool × Transport → Option (A × Transport)
with_answer a c = some (a, c.1)

Keeps-from :
    {A : Type 0} {tp u : Transport}
    → Kept tp u
    → (m : Option (A × Transport)) → Holds (Keeps u) m
    → Holds (Keeps tp) m
Keeps-from k none h = h
Keeps-from k (some r) h = Kept-trans k h

failed_of :
    {A : Type 0} (tp : Transport) → Inv tp → (a : A) → Holds (Keeps tp) (close tp >>= with_answer a)
failed_of {A} tp v a =
    Holds-bind (Keeps tp) (Keeps {A = A} tp) (close tp) (with_answer a) (close-Kept tp v) (λ c h. h)

module _ (tp : Transport) (v : Inv tp) where
  pub close_with_frame-Kept : Holds (Kept tp) (close_with_frame tp)
  unfolding close_with_frame
  close_with_frame-Kept =
      Holds-bind (Keeps tp) (Kept tp) (close tp) (λ r. some (write_close_frame r)) (close-Kept tp v)
        (write_close_frame-Kept tp)

  failed-Kept : {A : Type 0} (a : A) → Holds (Keeps tp) (close tp >>= with_answer a)
  failed-Kept a = failed_of tp v a

  pub notify-Kept : Holds (Kept tp) (notify tp)
  unfolding notify
  notify-Kept = ground (arith, v.buf_ch, with_notice tp v true, Kept-refl tp v)

  pub handle_ack-Kept : (p : List ℕ) → Holds (Keeps tp) (handle_ack p tp)
  unfolding handle_ack
  handle_ack-Kept p =
      let (w, e, i) = done-Inv (decode_seq (take 2 p)) tp.ack_waiter v.waiter in
      elim (Bool-cases (length p == 2)) [
        | inl two ↦ rw (two, e) (with_waiter tp v w i)
        | inr other ↦ rw other (Kept-refl tp v)
      ]

  pub handle_close-Kept : Holds (Keeps tp) (handle_close tp)
  unfolding handle_close
  handle_close-Kept = failed-Kept false

  pub begin_write-Kept : (wrote : Bool) (p : List ℕ) → Holds (Keeps tp) (begin_write wrote p tp)
  unfolding begin_write write_action
  begin_write-Kept wrote p =
      let (w, seq, ch) = begin_wait tp.ack_waiter in
      let u = record tp { ack_waiter = w } in
      let i : Waiter.Inv w = Waiter.begin_wait-Inv tp.ack_waiter v.waiter in
      ground (
        arith,
        with_sent tp v w (tp.sent ++ fwd_frame tp.id seq p ∷ []) i,
        Keeps-from (with_waiter tp v w i) (close u >>= with_answer (failed (err write_error)))
            (failed_of u (with_waiter tp v w i).inv (failed (err write_error))),
        Kept-refl tp v,
      )

waiter-Kept :
    (m : Option Uint16AckWaiter) (tp : Transport)
    → Waiter.Safe m
    → Inv tp
    → Holds (Kept tp) (m >>= λ w. some (record tp { ack_waiter = w }))
waiter-Kept none tp h v = h
waiter-Kept (some w) tp h v = with_waiter tp v w h

pub end_write-Kept :
    (p : List ℕ) (seq ch : ℕ) (tp : Transport) (r : Result ℕ) (m : Option Transport)
    → Inv tp
    → end_write p seq ch tp ≡ some (r, m)
    → Holds (Kept tp) m
unfolding end_write
end_write-Kept p seq ch tp r m v e = elim (Option-cases (end_wait from_chan seq ch tp.ack_waiter)) [
  | inl blocked ↦ cc
  | inr ((r', mw), woken) ↦
      let safe = Waiter.end_wait-Safe from_chan seq ch tp.ack_waiter r' mw v.waiter woken in
      ground (arith, waiter-Kept mw tp safe v)
]

pub finish_serving-Kept :
    (tp : Transport) (r : Bool × Transport) → Keeps tp r → Holds (Kept tp) (finish_serving r)
unfolding finish_serving
finish_serving-Kept tp (true, u) k = k
finish_serving-Kept tp (false, u) k =
    Holds-bind (Keeps u) (Kept tp) (close u) (λ r. some (write_close_frame r)) (close-Kept u k.inv)
      (λ c h. write_close_frame-Kept tp c (Kept-trans k h))

module _ (tp : Transport) (v : Inv tp) where
  pub write_or_close-Kept :
      (wrote : Bool) (f : Frame) → Holds (Keeps tp) (write_or_close wrote f tp)
  unfolding write_or_close
  write_or_close-Kept true f = with_sent tp v tp.ack_waiter _ v.waiter
  write_or_close-Kept false f = failed-Kept tp v (err write_error)

  fail_with_frame-Kept : (e : Error) → Holds (Keeps tp) (fail_with_frame e tp)
  unfolding fail_with_frame
  fail_with_frame-Kept e =
      Holds-bind (Kept tp) (Keeps tp) (close_with_frame tp) (λ t. some (err e, t))
        (close_with_frame-Kept tp v) (λ t h. h)

  check_accept-Kept : (parts : ℕ × ℕ × List ℕ) → Holds (Keeps tp) (check_accept parts tp)
  unfolding check_accept fail_closed
  check_accept-Kept (ft, id, p) = ground (
    arith,
    fail_with_frame-Kept err_accept_check_failed,
    failed-Kept tp v {A = Result (Unit {0})} (err err_request_rejected),
    Kept-refl tp v,
  )

  pub read_accept-Kept :
      (ev : Event)
      → ((f : Frame) → ev ≡ receives f → header_len ≤ length f)
      → Holds (Keeps tp) (read_accept ev tp)
  unfolding read_accept fail_closed
  read_accept-Kept is_done h = failed-Kept tp v (err err_closed_pipe)
  read_accept-Kept ctx_ends h = fail_with_frame-Kept ctx_done
  read_accept-Kept in_ch_closed h = failed-Kept tp v (err err_closed_pipe)
  read_accept-Kept (receives f) h =
      let (ft, id, p, e) = disassemble_total f (h f refl) in rw e (check_accept-Kept (ft, id, p))
