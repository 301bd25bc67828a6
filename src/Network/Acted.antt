-- ===== src/Network/Acted.antt =====
-- transport.go: what a step of an end can have done.
use dmsg.Prelude.{ℕ, ◌≡◌, refl, sym, ◌∙◌, List, [], ◌++◌, append-nil, concat}
use dmsg.Transport.{Transport}
use dmsg.Network.{End}
use dmsg.Network.Wire.{Piece, wire, pays, AllFit}
use dmsg.Network.Ends.{IsOpen}

-- What a step of an end e has done, while the pieces `down` are on their way to it: it has sent the
-- pieces `new`, which carry what Write has taken, and has taken in the first ones, `old`, whose
-- bytes it has buffered or read.
pub record Acted (down : List Piece) (e f : End) : Type 0 where
  pub tp_open : IsOpen f.tp
  pub id : f.tp.id ≡ e.tp.id
  pub new : List Piece
  pub fit : AllFit new
  pub up : f.up ≡ e.up ++ wire e.tp.id new
  pub wrote : f.wrote ≡ e.wrote ++ pays new
  pub old : List Piece
  pub rest : List Piece
  pub split : down ≡ old ++ rest
  pub down_left : f.down ≡ wire e.tp.id rest
  pub got : f.got ++ concat f.tp.buf ≡ (e.got ++ concat e.tp.buf) ++ pays old

pub nil_wire : (id : ℕ) (xs : List ℕ) → xs ≡ xs ++ wire id []
unfolding wire
nil_wire id xs = sym (append-nil xs)

pub nil_pays : (xs : List ℕ) → xs ≡ xs ++ pays []
unfolding pays
nil_pays xs = sym (append-nil xs)

-- A step that neither sends nor takes in.
pub still :
    (down : List Piece) (e : End) (tp : Transport) (got : List ℕ)
    → IsOpen tp
    → tp.id ≡ e.tp.id
    → e.down ≡ wire e.tp.id down
    → got ++ concat tp.buf ≡ e.got ++ concat e.tp.buf
    → Acted down e (record e { tp = tp; got = got })
still down e tp got o i d g = record {
  tp_open = o;
  id = i;
  new = [];
  fit = tt;
  up = nil_wire e.tp.id e.up;
  wrote = nil_pays e.wrote;
  old = [];
  rest = down;
  split = refl;
  down_left = d;
  got = g ∙ nil_pays (e.got ++ concat e.tp.buf);
}
