-- ===== src/Network/Ends.antt =====
-- transport.go: what one end of an open transport does in each step.
use dmsg.Prelude.{
  ℕ, ◌<◌, ◌≤◌, ◌≡◌, ◌⊎◌, inl, inr, refl, sym, ◌∙◌, true, false, some, List, [], ◌∷◌, ◌++◌, length,
  drop, take, arith, append-nil, length-take, u16_mod,
}
use dmsg.Frame.{make_frame, fwd_type, ack_type}
use dmsg.Ioutil.Seq.{decode_seq}
use dmsg.Ioutil.AckWaiter.{Uint16AckWaiter, done}
use dmsg.Ioutil.AckWaiter.Safety as Waiter
use dmsg.Transport.{Transport, ◌>>=◌}
use dmsg.Transport.Serving.{
  serve_frame, ack_frame, acknowledge, add_payload, notify, handle_fwd, handle_ack, dispatch,
  finish_serving,
}
use dmsg.Transport.Reading.{take_bytes, turn, release_acks}
use dmsg.Transport.Inv.{Inv, acknowledge-Inv}
use dmsg.Transport.Kept.{with_notice, with_waiter, with_sent}
use dmsg.Transport.Safety.{turn-Kept}
use dmsg.Transport.EndToEnd.{pay_of-make_frame, frame_type-make_frame}
use dmsg.Network.Wire.{wire, IsAcks, AllAcks, IsAcks-append, AllAcks-snoc}

-- The transport is open, keeps its invariant, and holds only whole ACKs back.
pub record IsOpen (tp : Transport) : Type 0 where
  pub inv : Inv tp
  pub is_open : tp.done ≡ false
  pub unsent : tp.sent ≡ []
  pub word : tp.id < u16_mod
  pub spawned : AllAcks tp.id tp.spawned
  pub held : IsAcks tp.id tp.ack_buf

-- An FWD frame on an open transport: its ACK is spawned or held, and its payload buffered.
pub serve_frame-fwd :
    (p : List ℕ) (tp : Transport)
    → tp.done ≡ false
    → tp.buf_ch_closed ≡ false
    → 2 ≤ length p
    → serve_frame (make_frame fwd_type tp.id p) tp
      ≡ some (record (add_payload p (acknowledge p tp)) { notice = true })
unfolding serve_frame dispatch handle_fwd notify finish_serving add_payload acknowledge
serve_frame-fwd p tp o c l =
    rw (pay_of-make_frame fwd_type tp.id p, frame_type-make_frame fwd_type tp.id p) (ground arith)

pub serve_frame-ack_any :
    (p : List ℕ) (tp : Transport)
    → length p ≡ 2
    → serve_frame (make_frame ack_type tp.id p) tp
      ≡ (done (decode_seq (take 2 p)) tp.ack_waiter >>= λ w. some (record tp { ack_waiter = w }))
unfolding serve_frame dispatch handle_ack finish_serving
serve_frame-ack_any p tp l =
    rw (pay_of-make_frame ack_type tp.id p, frame_type-make_frame ack_type tp.id p) (ground arith)

ack_frame-IsAcks : (p : List ℕ) (tp : Transport) → 2 ≤ length p → IsAcks tp.id (ack_frame tp p)
unfolding ack_frame wire
ack_frame-IsAcks p tp l = (
  (ack_type, take 2 p) ∷ [],
  ((refl, omega (arith, length-take 2 p)), tt),
  sym (append-nil (make_frame ack_type tp.id (take 2 p))),
)

abbrev pub taken_in : List ℕ → Transport → Transport
taken_in p tp = record (add_payload p (acknowledge p tp)) { notice = true }

-- What the steps of an open transport leave in the fields that its well-formedness speaks of.
pub taken_in-fields :
    (p : List ℕ) (tp : Transport)
    → let u = taken_in p tp in
      (u.done ≡ tp.done)
      × (u.sent ≡ tp.sent)
      × (u.id ≡ tp.id)
      × (u.buf ≡ tp.buf ++ drop 2 p ∷ [])
      × (((u.spawned ≡ tp.spawned) × (u.ack_buf ≡ tp.ack_buf ++ ack_frame tp p))
          ⊎ ((u.spawned ≡ tp.spawned ++ ack_frame tp p ∷ []) × (u.ack_buf ≡ tp.ack_buf)))
unfolding add_payload acknowledge
taken_in-fields p tp = ground arith

pub taken_in-IsOpen :
    (p : List ℕ) (tp : Transport) → 2 ≤ length p → IsOpen tp → IsOpen (taken_in p tp)
taken_in-IsOpen p tp l o =
    let (d, s, i, b, moved) = taken_in-fields p tp in
    let ack = ack_frame-IsAcks p tp l in
    record {
      inv = (with_notice (add_payload p (acknowledge p tp)) (acknowledge-Inv p tp o.inv) true).inv;
      is_open = d ∙ o.is_open;
      unsent = s ∙ o.unsent;
      word = rw i o.word;
      spawned = elim moved [
        | inl (e, f) ↦ rw (i, e) o.spawned
        | inr (e, f) ↦ rw (i, e) (AllAcks-snoc tp.id tp.spawned (ack_frame tp p) o.spawned ack)
      ];
      held = elim moved [
        | inl (e, f) ↦ rw (i, f) (IsAcks-append tp.id tp.ack_buf (ack_frame tp p) o.held ack)
        | inr (e, f) ↦ rw (i, f) o.held
      ];
    }

pub turn-fields :
    (k : ℕ) (tp : Transport)
    → let u = (turn k tp).1 in
      (u.done ≡ tp.done)
      × (u.sent ≡ tp.sent)
      × (u.id ≡ tp.id)
      × (u.buf ≡ (take_bytes k tp).1.buf)
      × (((u.spawned ≡ tp.spawned) × (u.ack_buf ≡ tp.ack_buf))
          ⊎ ((u.spawned ≡ tp.spawned ++ tp.ack_buf ∷ []) × (u.ack_buf ≡ [])))
unfolding turn take_bytes release_acks
turn-fields k tp = ground arith

no-IsAcks : (id : ℕ) → IsAcks id []
unfolding wire
no-IsAcks id = ([], tt, refl)

pub turn-IsOpen : (k : ℕ) (tp : Transport) → IsOpen tp → IsOpen (turn k tp).1
turn-IsOpen k tp o =
    let (d, s, i, b, moved) = turn-fields k tp in
    record {
      inv = (turn-Kept k tp o.inv).inv;
      is_open = d ∙ o.is_open;
      unsent = s ∙ o.unsent;
      word = rw i o.word;
      spawned = elim moved [
        | inl (e, f) ↦ rw (i, e) o.spawned
        | inr (e, f) ↦ rw (i, e) (AllAcks-snoc tp.id tp.spawned tp.ack_buf o.spawned o.held)
      ];
      held = elim moved [
        | inl (e, f) ↦ rw (i, f) o.held
        | inr (e, f) ↦ rw (i, f) (no-IsAcks tp.id)
      ];
    }

pub with_waiter-IsOpen :
    (w : Uint16AckWaiter) (tp : Transport)
    → Waiter.Inv w
    → IsOpen tp
    → IsOpen (record tp { ack_waiter = w })
with_waiter-IsOpen w tp i o = record {
  inv = (with_waiter tp o.inv w i).inv;
  is_open = o.is_open;
  unsent = o.unsent;
  word = o.word;
  spawned = o.spawned;
  held = o.held;
}

pub with_spawned-IsOpen :
    (gs : List (List ℕ)) (tp : Transport)
    → AllAcks tp.id gs
    → IsOpen tp
    → IsOpen (record tp { spawned = gs })
with_spawned-IsOpen gs tp h o = record {
  inv = record {
    size = o.inv.size;
    held = o.inv.held;
    waiter = o.inv.waiter;
    buf_ch = o.inv.buf_ch;
    in_ch = o.inv.in_ch;
    served = o.inv.served;
    removed = o.inv.removed;
  };
  is_open = o.is_open;
  unsent = o.unsent;
  word = o.word;
  spawned = h;
  held = o.held;
}

pub shipped-IsOpen :
    (w : Uint16AckWaiter) (tp : Transport)
    → Waiter.Inv w
    → IsOpen tp
    → IsOpen (record tp { ack_waiter = w; sent = [] })
shipped-IsOpen w tp i o = record {
  inv = (with_sent tp o.inv w [] i).inv;
  is_open = o.is_open;
  unsent = refl;
  word = o.word;
  spawned = o.spawned;
  held = o.held;
}
