-- ===== src/Network/Sends.antt =====
-- transport.go: what Read, Write and the goroutines of ACKs do at an end.
use mathlib.Core.Path.{subst}
use dmsg.Prelude.{
  ℕ, zero, suc, ◌+◌, ◌<◌, ◌≡◌, inl, inr, refl, sym, ap, ◌∙◌, Option, none, some, List, [], ◌∷◌,
  ◌++◌, length, drop, arith, append_assoc, append-nil, concat, u16_mod, Result, Option-cases,
}
use dmsg.Frame.{make_frame, fwd_type}
use dmsg.Ioutil.Seq.{encode_seq}
use dmsg.Ioutil.AckWaiter.{Uint16AckWaiter, begin_wait, end_wait, from_chan}
use dmsg.Ioutil.AckWaiter.Safety as Waiter
use dmsg.Transport.{Transport, ◌>>=◌}
use dmsg.Transport.Reading.{take_bytes, turn, read_buffers}
use dmsg.Transport.Writing.{written, end_write, fwd_frame}
use dmsg.Transport.Inv.{Holds}
use dmsg.Transport.Stream.{buf-release_acks, read_buffers-concat}
use dmsg.Transport.EndToEnd.{begin_write_lem}
use dmsg.Network.{End, ship, flush, pluck, begun, accepted, ended, writes, act}
use dmsg.Network.Wire.{Piece, wire, pays, IsFit, IsAcks, AllAcks, AllAck-AllFit, pays-AllAck}
use dmsg.Network.Ends.{
  IsOpen, turn-fields, turn-IsOpen, with_waiter-IsOpen, with_spawned-IsOpen, shipped-IsOpen,
}
use dmsg.Network.Acted.{Acted, nil_pays, still}

take_bytes-concat :
    (k : ℕ) (tp : Transport) → (take_bytes k tp).0 ++ concat (take_bytes k tp).1.buf ≡ concat tp.buf
unfolding take_bytes
take_bytes-concat k tp =
    let (p, bs) = read_buffers k tp.buf in
    cc (buf-release_acks (length p) (record tp { buf = bs }), read_buffers-concat k tp.buf)

pub reads-Acted :
    (k : ℕ) (down : List Piece) (e : End)
    → IsOpen e.tp
    → e.down ≡ wire e.tp.id down
    → Acted down e (record e { tp = (turn k e.tp).1; got = e.got ++ (take_bytes k e.tp).0 })
reads-Acted k down e o d =
    let (x, s, i, b, moved) = turn-fields k e.tp in
    still down e (turn k e.tp).1 (e.got ++ (take_bytes k e.tp).0) (turn-IsOpen k e.tp o) i d (
      ap (λ c. (e.got ++ (take_bytes k e.tp).0) ++ concat c) b
      ∙ append_assoc e.got (take_bytes k e.tp).0 (concat (take_bytes k e.tp).1.buf)
      ∙ ap (λ c. e.got ++ c) (take_bytes-concat k e.tp))

drop-encode_seq : (seq : ℕ) (p : List ℕ) → drop 2 (encode_seq seq ++ p) ≡ p
unfolding encode_seq
drop-encode_seq seq p = refl

length-encode_append : (seq : ℕ) (p : List ℕ) → length (encode_seq seq ++ p) ≡ length p + 2
unfolding encode_seq
length-encode_append seq p = omega arith

fwd-IsFit : (seq : ℕ) (p : List ℕ) → length p + 2 < u16_mod → IsFit (fwd_type, encode_seq seq ++ p)
fwd-IsFit seq p l = (
  omega (arith, length-encode_append seq p),
  inl (refl, omega (arith, length-encode_append seq p)),
)

pays_fwd : (seq : ℕ) (p : List ℕ) → pays ((fwd_type, encode_seq seq ++ p) ∷ []) ≡ p
unfolding pays
pays_fwd seq p = ap (λ x. x ++ []) (drop-encode_seq seq p) ∙ append-nil p

-- A Write on an open transport: one FWD frame goes onto the connection.
unfoldable pub written_end : List ℕ → End → End
written_end p e =
    let w = e.tp.ack_waiter in
    record e {
      tp = record e.tp { ack_waiter = (begin_wait w).0; sent = [] };
      up = e.up ++ (make_frame fwd_type e.tp.id (encode_seq w.next_seq ++ p) ++ []);
      wrote = e.wrote ++ p;
    }

pub act-writes : (p : List ℕ) (e : End) → IsOpen e.tp → act (writes p) e ≡ some (written_end p e)
unfolding act begun accepted ship written_end fwd_frame
act-writes p e o = ground (arith, begin_write_lem p e.tp o.is_open, o.unsent)

pub writes-Acted :
    (p : List ℕ) (down : List Piece) (e : End)
    → IsOpen e.tp
    → e.down ≡ wire e.tp.id down
    → length p + 2 < u16_mod
    → Acted down e (written_end p e)
unfolding written_end wire
writes-Acted p down e o d l =
    let seq = e.tp.ack_waiter.next_seq in
    record {
      tp_open =
          shipped-IsOpen (begin_wait e.tp.ack_waiter).0 e.tp
            (Waiter.begin_wait-Inv e.tp.ack_waiter o.inv.waiter) o;
      id = refl;
      new = (fwd_type, encode_seq seq ++ p) ∷ [];
      fit = (fwd-IsFit seq p l, tt);
      up = refl;
      wrote = ap (λ x. e.wrote ++ x) (sym (pays_fwd seq p));
      old = [];
      rest = down;
      split = refl;
      down_left = d;
      got = nil_pays (e.got ++ concat e.tp.buf);
    }

-- The end of a Write: its waiter is stopped, or it waits on.
pub waits-Acted :
    (p : List ℕ) (seq ch : ℕ) (down : List Piece) (e : End)
    → IsOpen e.tp
    → e.down ≡ wire e.tp.id down
    → Holds (Acted down e) (ended (end_write p seq ch e.tp) e)
unfolding ended end_write
waits-Acted p seq ch down e o d = elim (Option-cases (end_wait from_chan seq ch e.tp.ack_waiter)) [
  | inl blocked ↦ rw blocked (still down e e.tp e.got o refl d refl)
  | inr ((r, m), woken) ↦
      rw woken
        (stopped r m (Waiter.end_wait-Safe from_chan seq ch e.tp.ack_waiter r m o.inv.waiter woken))
]
  where
    stopped :
        (r : Result (Unit {0})) (m : Option Uint16AckWaiter)
        → Waiter.Safe m
        → Holds
            (Acted down e)
            (ended (some (written p r, m >>= λ w. some (record e.tp { ack_waiter = w }))) e)
    stopped r none h = h
    stopped r (some w) h =
        still down e (record e.tp { ack_waiter = w }) e.got (with_waiter-IsOpen w e.tp h o) refl d
          refl

-- What pluck takes out is ACKs, and so is what it leaves.
abbrev Plucked : ℕ → Option (List ℕ × List (List ℕ)) → Type 0
Plucked id none = Unit {0}
Plucked id (some (g, gs)) = IsAcks id g × AllAcks id gs

pluck-Plucked : (id n : ℕ) (gs : List (List ℕ)) → AllAcks id gs → Plucked id (pluck n gs)
unfolding pluck
pluck-Plucked id n [] h = tt
pluck-Plucked id zero (x ∷ gs) h = h
pluck-Plucked id (suc n) (x ∷ gs) h = go (pluck n gs) (pluck-Plucked id n gs h.1)
  where
    go :
        (m : Option (List ℕ × List (List ℕ)))
        → Plucked id m
        → Plucked id (m >>= λ r. some (r.0, x ∷ r.1))
    go none k = tt
    go (some (y, ys)) k = (k.0, (h.0, k.1))

pub flushes-Acted :
    (n : ℕ) (down : List Piece) (e : End)
    → IsOpen e.tp
    → e.down ≡ wire e.tp.id down
    → Acted down e (flush (pluck n e.tp.spawned) e)
unfolding flush
flushes-Acted n down e o d = elim (Option-cases (pluck n e.tp.spawned)) [
  | inl k ↦ rw k (still down e e.tp e.got o refl d refl)
  | inr ((g, gs), k) ↦
      let plucked : Plucked e.tp.id (some (g, gs)) =
        subst (Plucked e.tp.id) k (pluck-Plucked e.tp.id n e.tp.spawned o.spawned) in
      let ((fs, acks, bytes), rest) = plucked in
      rw k (record {
        tp_open = with_spawned-IsOpen gs e.tp rest o;
        id = refl;
        new = fs;
        fit = AllAck-AllFit fs acks;
        up = ap (λ x. e.up ++ x) bytes;
        wrote = sym (append-nil e.wrote) ∙ ap (λ x. e.wrote ++ x) (sym (pays-AllAck fs acks));
        old = [];
        rest = down;
        split = refl;
        down_left = d;
        got = nil_pays (e.got ++ concat e.tp.buf);
      })
]
