-- ===== src/Network/Wire.antt =====
-- The frames FWD and ACK of a transport on their way, as the bytes of a stream.
use dmsg.Prelude.{
  ℕ, ◌<◌, ◌≤◌, ◌≡◌, ◌⊎◌, inr, refl, sym, ap, ◌∙◌, some, List, [], ◌∷◌, ◌++◌, if◌then◌else◌, ◌==◌,
  length, drop, arith, append_assoc, u16_mod, ok, err, eof,
}
use dmsg.Frame.{make_frame, fwd_type, ack_type, read_frame}
use dmsg.Frame.Stream.{read_frame-make_frame}

-- The type and the payload of a frame.
abbrev pub Piece : Type 0
Piece = ℕ × List ℕ

unfoldable pub wire : ℕ → List Piece → List ℕ
wire id [] = []
wire id ((ft, p) ∷ fs) = make_frame ft id p ++ wire id fs

-- The bytes of the stream that the pieces carry.
unfoldable pub pays : List Piece → List ℕ
pays [] = []
pays ((ft, p) ∷ fs) = (if ft == fwd_type then drop 2 p else []) ++ pays fs

pub wire-append : (id : ℕ) (fs gs : List Piece) → wire id (fs ++ gs) ≡ wire id fs ++ wire id gs
unfolding wire
wire-append id [] gs = refl
wire-append id ((ft, p) ∷ fs) gs =
    ap (λ r. make_frame ft id p ++ r) (wire-append id fs gs)
    ∙ sym (append_assoc (make_frame ft id p) (wire id fs) (wire id gs))

pub pays-append : (fs gs : List Piece) → pays (fs ++ gs) ≡ pays fs ++ pays gs
unfolding pays
pays-append [] gs = refl
pays-append ((ft, p) ∷ fs) gs =
    let q = if ft == fwd_type then drop 2 p else [] in
    ap (λ r. q ++ r) (pays-append fs gs) ∙ sym (append_assoc q (pays fs) (pays gs))

-- An FWD frame with its sequence number, or an ACK, whose length a frame can hold.
abbrev pub IsFit : Piece → Type 0
IsFit (ft, p) =
    (length p < u16_mod) × (((ft ≡ fwd_type) × (2 ≤ length p)) ⊎ ((ft ≡ ack_type) × (length p ≡ 2)))

abbrev pub AllFit : List Piece → Type 0
AllFit [] = Unit {0}
AllFit (f ∷ fs) = IsFit f × AllFit fs

pub AllFit-append : (fs gs : List Piece) → AllFit fs → AllFit gs → AllFit (fs ++ gs)
AllFit-append [] gs h k = k
AllFit-append (f ∷ fs) gs h k = (h.0, AllFit-append fs gs h.1 k)

-- Bytes that are ACK frames, one after another.
abbrev pub AllAck : List Piece → Type 0
AllAck [] = Unit {0}
AllAck ((ft, p) ∷ fs) = ((ft ≡ ack_type) × (length p ≡ 2)) × AllAck fs

abbrev pub IsAcks : ℕ → List ℕ → Type 0
IsAcks id bs = (fs : List Piece) × AllAck fs × (bs ≡ wire id fs)

abbrev pub AllAcks : ℕ → List (List ℕ) → Type 0
AllAcks id [] = Unit {0}
AllAcks id (g ∷ gs) = IsAcks id g × AllAcks id gs

pub AllAck-AllFit : (fs : List Piece) → AllAck fs → AllFit fs
AllAck-AllFit [] h = tt
AllAck-AllFit ((ft, p) ∷ fs) h = ((omega arith, inr h.0), AllAck-AllFit fs h.1)

pub pays-AllAck : (fs : List Piece) → AllAck fs → pays fs ≡ []
unfolding pays
pays-AllAck [] h = refl
pays-AllAck ((ft, p) ∷ fs) h = ground (arith, pays-AllAck fs h.1)

AllAck-append : (fs gs : List Piece) → AllAck fs → AllAck gs → AllAck (fs ++ gs)
AllAck-append [] gs h k = k
AllAck-append (f ∷ fs) gs h k = (h.0, AllAck-append fs gs h.1 k)

pub IsAcks-append : (id : ℕ) (xs ys : List ℕ) → IsAcks id xs → IsAcks id ys → IsAcks id (xs ++ ys)
IsAcks-append id xs ys (fs, h, e) (gs, k, f) = (
  fs ++ gs,
  AllAck-append fs gs h k,
  ap (λ x. x ++ ys) e ∙ ap (λ y. wire id fs ++ y) f ∙ sym (wire-append id fs gs),
)

pub AllAcks-snoc :
    (id : ℕ) (gs : List (List ℕ)) (g : List ℕ)
    → AllAcks id gs
    → IsAcks id g
    → AllAcks id (gs ++ g ∷ [])
AllAcks-snoc id [] g h k = (k, tt)
AllAcks-snoc id (x ∷ gs) g h k = (h.0, AllAcks-snoc id gs g h.1 k)

-- The frame that comes first is the one that readFrame takes off the stream.
pub read_frame-wire :
    (id ft : ℕ) (p : List ℕ) (fs : List Piece)
    → IsFit (ft, p)
    → read_frame (wire id ((ft, p) ∷ fs)) ≡ some (ok (make_frame ft id p), wire id fs)
unfolding wire
read_frame-wire id ft p fs fit = read_frame-make_frame ft id p (wire id fs) fit.0

pub read_frame_empty : (id : ℕ) → read_frame (wire id []) ≡ some (err eof, [])
unfolding wire read_frame
read_frame_empty id = refl
