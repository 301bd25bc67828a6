-- ===== src/Network/Arrivals.antt =====
-- transport.go: what an end takes in of the frames that arrive.
use dmsg.Prelude.{
  ℕ, ◌≤◌, ◌≡◌, inl, inr, refl, sym, ap, ◌∙◌, some, List, [], ◌∷◌, ◌++◌, length, drop, take, arith,
  append_assoc, append-nil, concat, concat-append,
}
use dmsg.Frame.{fwd_type, ack_type, read_frame}
use dmsg.Frame.Codec.{disassemble-make_frame}
use dmsg.Ioutil.Seq.{decode_seq}
use dmsg.Ioutil.AckWaiter.{Uint16AckWaiter, done}
use dmsg.Transport.{Transport}
use dmsg.Transport.Serving.{handle_frame}
use dmsg.Transport.Inv.{Holds, done-Inv}
use dmsg.Network.{End, ship, handed, arrived, arrives, act}
use dmsg.Network.Wire.{Piece, wire, pays, IsFit, AllFit, read_frame-wire, read_frame_empty}
use dmsg.Network.Ends.{
  IsOpen, serve_frame-fwd, serve_frame-ack_any, taken_in, taken_in-fields, taken_in-IsOpen,
  with_waiter-IsOpen, shipped-IsOpen,
}
use dmsg.Network.Acted.{Acted, nil_wire, nil_pays, still}

-- A frame that arrives: an FWD frame is buffered, an ACK goes to its Write.
taken_fwd :
    (p : List ℕ) (rest : List Piece) (e : End)
    → IsOpen e.tp
    → IsFit (fwd_type, p)
    → 2 ≤ length p
    → e.down ≡ wire e.tp.id ((fwd_type, p) ∷ rest)
    → act arrives e ≡ some (ship (taken_in p e.tp) (record e { down = wire e.tp.id rest }))
unfolding act arrived handed handle_frame
taken_fwd p rest e o fit l d = ground (
  arith,
  ap read_frame d,
  read_frame-wire e.tp.id fwd_type p rest fit,
  disassemble-make_frame fwd_type e.tp.id p o.word,
  serve_frame-fwd p e.tp o.is_open (o.inv.buf_ch ∙ o.is_open) l,
  o.is_open,
  o.inv.in_ch ∙ o.is_open,
)

taken_ack :
    (p : List ℕ) (rest : List Piece) (e : End) (w : Uint16AckWaiter)
    → IsOpen e.tp
    → IsFit (ack_type, p)
    → length p ≡ 2
    → e.down ≡ wire e.tp.id ((ack_type, p) ∷ rest)
    → done (decode_seq (take 2 p)) e.tp.ack_waiter ≡ some w
    → act arrives e
      ≡ some (ship (record e.tp { ack_waiter = w }) (record e { down = wire e.tp.id rest }))
unfolding act arrived handed handle_frame
taken_ack p rest e w o fit l d k = ground (
  arith,
  ap read_frame d,
  read_frame-wire e.tp.id ack_type p rest fit,
  disassemble-make_frame ack_type e.tp.id p o.word,
  serve_frame-ack_any p e.tp l,
  o.is_open,
  o.inv.in_ch ∙ o.is_open,
  k,
)

taken-Acted :
    (f : Piece) (rest : List Piece) (e : End) (tp : Transport)
    → IsOpen tp
    → tp.id ≡ e.tp.id
    → concat tp.buf ≡ concat e.tp.buf ++ pays (f ∷ [])
    → Acted (f ∷ rest) e (ship tp (record e { down = wire e.tp.id rest }))
unfolding ship
taken-Acted f rest e tp o i b = record {
  tp_open = shipped-IsOpen tp.ack_waiter tp o.inv.waiter o;
  id = i;
  new = [];
  fit = tt;
  up = ap (λ x. e.up ++ concat x) o.unsent ∙ append-nil e.up ∙ nil_wire e.tp.id e.up;
  wrote = nil_pays e.wrote;
  old = f ∷ [];
  rest = rest;
  split = refl;
  down_left = refl;
  got = ap (λ x. e.got ++ x) b ∙ sym (append_assoc e.got (concat e.tp.buf) (pays (f ∷ [])));
}

buf_fwd :
    (p : List ℕ) (tp : Transport)
    → concat (taken_in p tp).buf ≡ concat tp.buf ++ pays ((fwd_type, p) ∷ [])
unfolding pays
buf_fwd p tp =
    let (d, s, i, b, moved) = taken_in-fields p tp in
    ap concat b ∙ concat-append tp.buf (drop 2 p ∷ [])

arrives_empty : (e : End) → e.down ≡ wire e.tp.id [] → act arrives e ≡ some e
unfolding act arrived
arrives_empty e d = ground (arith, ap read_frame d, read_frame_empty e.tp.id)

pub arrives-Acted :
    (down : List Piece) (e : End)
    → IsOpen e.tp
    → AllFit down
    → e.down ≡ wire e.tp.id down
    → Holds (Acted down e) (act arrives e)
arrives-Acted [] e o fit d = rw (arrives_empty e d) (still [] e e.tp e.got o refl d refl)
arrives-Acted ((ft, p) ∷ rest) e o ((short, inl (fwd, l)), fits) d =
    let fit : IsFit (fwd_type, p) = (short, inl (refl, l)) in
    let here : e.down ≡ wire e.tp.id ((fwd_type, p) ∷ rest) =
      d ∙ ap (λ t. wire e.tp.id ((t, p) ∷ rest)) fwd in
    let (x, s, i, b, moved) = taken_in-fields p e.tp in
    rw (fwd, taken_fwd p rest e o fit l here)
      (taken-Acted (fwd_type, p) rest e (taken_in p e.tp) (taken_in-IsOpen p e.tp l o) i
        (buf_fwd p e.tp))
arrives-Acted ((ft, p) ∷ rest) e o ((short, inr (ack, l)), fits) d =
    let fit : IsFit (ack_type, p) = (short, inr (refl, l)) in
    let here : e.down ≡ wire e.tp.id ((ack_type, p) ∷ rest) =
      d ∙ ap (λ t. wire e.tp.id ((t, p) ∷ rest)) ack in
    let (w, k, i) = done-Inv (decode_seq (take 2 p)) e.tp.ack_waiter o.inv.waiter in
    rw (ack, taken_ack p rest e w o fit l here k)
      (taken-Acted (ack_type, p) rest e (record e.tp { ack_waiter = w })
        (with_waiter-IsOpen w e.tp i o) refl (ack_pays p (concat e.tp.buf)))
  where
    ack_pays : (p xs : List ℕ) → xs ≡ xs ++ pays ((ack_type, p) ∷ [])
    ack_pays p xs = unfold pays in sym (append-nil xs)
