-- ===== src/Network/Flow.antt =====
-- One direction of a transport: what is between the Write at one end and the Read at the other.
use mathlib.Core.Path.{subst}
use dmsg.Prelude.{ℕ, ◌≡◌, refl, sym, ap, ◌∙◌, List, [], ◌∷◌, ◌++◌, append_assoc, append-nil, concat}
use dmsg.Frame.{make_frame}
use dmsg.Network.{End}
use dmsg.Network.Wire.{Piece, wire, pays, wire-append, pays-append, AllFit, AllFit-append}
use dmsg.Network.Acted.{Acted}

-- The pieces on the way from e to the server, and from it to f. What Read has given at f, what is
-- buffered there and what the pieces carry are together what Write has taken at e.
pub record Flow (e f : End) : Type 0 where
  pub up : List Piece
  pub down : List Piece
  pub up_fit : AllFit up
  pub down_fit : AllFit down
  pub up_bytes : e.up ≡ wire e.tp.id up
  pub down_bytes : f.down ≡ wire f.tp.id down
  pub kept : f.got ++ (concat f.tp.buf ++ (pays down ++ pays up)) ≡ e.wrote

AllFit-rest : (fs gs : List Piece) → AllFit (fs ++ gs) → AllFit gs
AllFit-rest [] gs h = h
AllFit-rest (f ∷ fs) gs h = AllFit-rest fs gs h.1

-- A step of the writing end.
pub Flow-source : (e e' f : End) (w : Flow e f) (down : List Piece) → Acted down e e' → Flow e' f
Flow-source e e' f w down h = record {
  up = w.up ++ h.new;
  down = w.down;
  up_fit = AllFit-append w.up h.new w.up_fit h.fit;
  down_fit = w.down_fit;
  up_bytes =
      h.up
      ∙ ap (λ x. x ++ wire e.tp.id h.new) w.up_bytes
      ∙ sym (wire-append e.tp.id w.up h.new)
      ∙ ap (λ i. wire i (w.up ++ h.new)) (sym h.id);
  down_bytes = w.down_bytes;
  kept =
      longer f.got (concat f.tp.buf) (pays w.down) (pays w.up) (pays h.new) e.wrote e'.wrote
        (pays (w.up ++ h.new)) (pays-append w.up h.new) w.kept h.wrote;
}
  where
    longer :
        (a b c d n w w' dn : List ℕ)
        → dn ≡ d ++ n
        → a ++ (b ++ (c ++ d)) ≡ w
        → w' ≡ w ++ n
        → a ++ (b ++ (c ++ dn)) ≡ w'
    longer a b c d n w w' dn x y z =
        cc
          (x, y, z, append_assoc a (b ++ (c ++ d)) n, append_assoc b (c ++ d) n, append_assoc c d n)

-- A step of the reading end.
pub Flow-target : (e f f' : End) (w : Flow e f) → Acted w.down f f' → Flow e f'
Flow-target e f f' w h = record {
  up = w.up;
  down = h.rest;
  up_fit = w.up_fit;
  down_fit = AllFit-rest h.old h.rest (subst AllFit h.split w.down_fit);
  up_bytes = w.up_bytes;
  down_bytes = h.down_left ∙ ap (λ i. wire i h.rest) (sym h.id);
  kept =
      taken f.got (concat f.tp.buf) f'.got (concat f'.tp.buf) (pays w.down) (pays h.old)
        (pays h.rest) (pays w.up) e.wrote h.got (ap pays h.split ∙ pays-append h.old h.rest) w.kept;
}
  where
    taken :
        (a b a' b' d o r u w : List ℕ)
        → a' ++ b' ≡ (a ++ b) ++ o
        → d ≡ o ++ r
        → a ++ (b ++ (d ++ u)) ≡ w
        → a' ++ (b' ++ (r ++ u)) ≡ w
    taken a b a' b' d o r u w x y z = cc (
      x,
      y,
      z,
      append_assoc a' b' (r ++ u),
      append_assoc (a ++ b) o (r ++ u),
      append_assoc a b (o ++ (r ++ u)),
      append_assoc o r u,
    )

-- The server passes on the piece that comes first.
pub Flow-passed :
    (e f : End) (w : Flow e f) (ft : ℕ) (p : List ℕ) (rest : List Piece)
    → w.up ≡ (ft, p) ∷ rest
    → Flow
        (record e { up = wire e.tp.id rest })
        (record f { down = f.down ++ make_frame ft f.tp.id p })
unfolding wire pays
Flow-passed e f w ft p rest k =
    let fits : AllFit ((ft, p) ∷ rest) = subst AllFit k w.up_fit in
    record {
      up = rest;
      down = w.down ++ (ft, p) ∷ [];
      up_fit = fits.1;
      down_fit = AllFit-append w.down ((ft, p) ∷ []) w.down_fit (fits.0, tt);
      up_bytes = refl;
      down_bytes =
          ap (λ x. x ++ make_frame ft f.tp.id p) w.down_bytes
          ∙ ap (λ x. wire f.tp.id w.down ++ x) (sym (append-nil (make_frame ft f.tp.id p)))
          ∙ sym (wire-append f.tp.id w.down ((ft, p) ∷ []));
      kept =
          ap (λ x. f.got ++ (concat f.tp.buf ++ x))
            (moved (pays w.down) (pays (w.down ++ (ft, p) ∷ [])) (pays w.up) (pays ((ft, p) ∷ []))
              (pays ((ft, p) ∷ rest)) (pays rest) (pays-append w.down ((ft, p) ∷ [])) (ap pays k)
              (pays-append ((ft, p) ∷ []) rest))
          ∙ w.kept;
    }
  where
    moved :
        (d dn u one all r : List ℕ) → dn ≡ d ++ one → u ≡ all → all ≡ one ++ r → dn ++ r ≡ d ++ u
    moved d dn u one all r x y z = cc (x, y, z, append_assoc d one r)

-- The streams of the other direction are no part of a flow.
pub Flow-beside :
    (e f : End) (x y : List ℕ) → Flow e f → Flow (record e { down = x }) (record f { up = y })
Flow-beside e f x y w = record {
  up = w.up;
  down = w.down;
  up_fit = w.up_fit;
  down_fit = w.down_fit;
  up_bytes = w.up_bytes;
  down_bytes = w.down_bytes;
  kept = w.kept;
}
