-- ===== src/Frame/Stream.antt =====
-- frame.go: readFrame on a stream of frames, cut frames, and frames that are too long.
use dmsg.Prelude.{
  ℕ, zero, suc, ◌+◌, ◌-◌, ◌*◌, ◌/◌, ◌%◌, ◌<◌, ◌≤◌, ◌≡◌, ◌≢◌, refl, ap, none, some, List, [], ◌∷◌,
  ◌++◌, arith, length, take, drop, Error, ok, err, eof, unexpected_eof, take-append-drop,
  length-append, take-append_le, drop-append_le, length-take, if◌then◌else◌, ◌==◌, take_all,
  drop_all, sym, ◌∙◌, ◌||◌, u16_mod,
}
use dmsg.Frame.{Frame, header_len, make_frame, pay_len, read_full, read_frame, read_payload}

-- Five bytes in the stream are the header, and the last two of them the payload's length.
read_frame_header :
    (t a b c d : ℕ) (r : List ℕ)
    → read_frame (t ∷ a ∷ b ∷ c ∷ d ∷ r)
      ≡ some (read_payload (t ∷ a ∷ b ∷ c ∷ d ∷ []) (read_full (c * 256 + d) r))
unfolding read_frame
read_frame_header t a b c d r = ground arith

read_full_enough : (n : ℕ) (s : List ℕ) → n ≤ length s → read_full n s ≡ (ok (take n s), drop n s)
unfolding read_full
read_full_enough n s h = ground arith

read_full_short :
    (n : ℕ) (s : List ℕ)
    → length s < n
    → read_full n s ≡ ((if length s == 0 then err eof else err unexpected_eof), [])
unfolding read_full
read_full_short n s h = ground arith

-- The length field holds the payload's length modulo 2 ^ 16.
abbrev wrapped : List ℕ → ℕ
wrapped p = length p % u16_mod

read_frame_parts :
    (ft id : ℕ) (p x : List ℕ)
    → read_frame (take 5 (make_frame ft id p) ++ x)
      ≡ some (read_payload (take 5 (make_frame ft id p)) (read_full (wrapped p) x))
unfolding make_frame
read_frame_parts ft id p x =
    read_frame_header _ _ _ _ _ x
    ∙ ap (λ n. some (read_payload (take 5 (make_frame ft id p)) (read_full n x))) (omega arith)

make_frame_parts :
    (ft id : ℕ) (p s : List ℕ) → make_frame ft id p ++ s ≡ take 5 (make_frame ft id p) ++ (p ++ s)
unfolding make_frame
make_frame_parts ft id p s = refl

wrapped-le : (p : List ℕ) → wrapped p ≤ length p
wrapped-le p = omega arith

length-take-wrapped : (p : List ℕ) → length (take (wrapped p) p) ≡ wrapped p
length-take-wrapped p = omega (arith, length-take (wrapped p) p, wrapped-le p)

make_frame-take-wrapped :
    (ft id : ℕ) (p : List ℕ)
    → take 5 (make_frame ft id p) ++ take (wrapped p) p ≡ make_frame ft id (take (wrapped p) p)
unfolding make_frame
make_frame-take-wrapped ft id p =
    rw (length-take-wrapped p)
      (ap (λ n. take 5 (make_frame_header n) ++ take (wrapped p) p) (omega arith))
  where
    make_frame_header : ℕ → List ℕ
    make_frame_header n = ft ∷ id / 256 % 256 ∷ id % 256 ∷ n / 256 % 256 ∷ n % 256 ∷ []

read_full_payload :
    (p s : List ℕ)
    → read_full (wrapped p) (p ++ s) ≡ (ok (take (wrapped p) p), drop (wrapped p) p ++ s)
read_full_payload p s =
    read_full_enough (wrapped p) (p ++ s) (omega (arith, length-append p s, wrapped-le p))
    ∙ cc (
      take-append_le p s (wrapped p) (wrapped-le p),
      drop-append_le p s (wrapped p) (wrapped-le p),
    )

-- What is read back of a frame of any length: the payload is cut to its length modulo 2 ^ 16, and
-- what was cut off stays in the stream, before the bytes that followed the frame.
pub read_frame_wraps :
    (ft id : ℕ) (p s : List ℕ)
    → read_frame (make_frame ft id p ++ s)
      ≡ some (ok (make_frame ft id (take (length p % u16_mod) p)), drop (length p % u16_mod) p ++ s)
unfolding read_payload
read_frame_wraps ft id p s = rw (
  make_frame_parts ft id p s,
  read_frame_parts ft id p (p ++ s),
  read_full_payload p s,
  make_frame-take-wrapped ft id p,
)

-- readFrame gives back any frame whose payload is shorter than 2 ^ 16 bytes, and leaves exactly
-- what followed it in the stream.
pub read_frame-make_frame :
    (ft id : ℕ) (p s : List ℕ)
    → length p < u16_mod
    → read_frame (make_frame ft id p ++ s) ≡ some (ok (make_frame ft id p), s)
read_frame-make_frame ft id p s h =
    read_frame_wraps ft id p s
    ∙ cc (take_all p (wrapped p) (omega arith), drop_all p (wrapped p) (omega arith))

-- The error of a stream that ends n bytes into a frame: a clean EOF at the frame's two borders.
abbrev pub cut_error : ℕ → Error
cut_error n = if n == 0 || n == header_len then eof else unexpected_eof

-- The second read stops in a payload of which m bytes are there.
read_payload_cut :
    (h : Frame) (p : List ℕ) (n m : ℕ)
    → n ≡ length p
    → m < length p
    → read_payload h (read_full n (take m p)) ≡ (err (if m == 0 then eof else unexpected_eof), [])
unfolding read_payload
read_payload_cut h p n m e k =
    let len : length (take m p) ≡ m = omega (arith, length-take m p) in
    rw (read_full_short n (take m p) (omega arith), len) (ground arith)

-- A stream that ends inside a frame gives an error and never a frame: EOF if it ends before the
-- frame or right behind its header, ErrUnexpectedEOF anywhere else.
pub read_frame_cut :
    (ft id n : ℕ) (p : List ℕ)
    → length p < u16_mod
    → n < length (make_frame ft id p)
    → read_frame (take n (make_frame ft id p)) ≡ some (err (cut_error n), [])
unfolding read_frame make_frame
read_frame_cut ft id zero p h k = refl
read_frame_cut ft id (suc zero) p h k = refl
read_frame_cut ft id (suc (suc zero)) p h k = refl
read_frame_cut ft id (suc (suc (suc zero))) p h k = refl
read_frame_cut ft id (suc (suc (suc (suc zero)))) p h k = refl
read_frame_cut ft id (suc (suc (suc (suc (suc m))))) p h k =
    read_frame_parts ft id p (take m p)
    ∙ rw (read_payload_cut _ p (wrapped p) m (omega arith) (omega arith)) (ground arith)

read_payload_sound :
    (h r rest : List ℕ) (n : ℕ) (f : Frame)
    → read_payload h (read_full n r) ≡ (ok f, rest)
    → (f ≡ h ++ take n r) × (rest ≡ drop n r) × (n ≤ length r)
unfolding read_payload read_full
read_payload_sound h r rest n f e = ground arith

pay_len-append :
    (t a b c d n : ℕ) (r : List ℕ)
    → n ≡ c * 256 + d
    → length r ≡ n
    → pay_len (t ∷ a ∷ b ∷ c ∷ d ∷ r) ≡ some (length (t ∷ a ∷ b ∷ c ∷ d ∷ r) - header_len)
unfolding pay_len
pay_len-append t a b c d n r e l = ground arith

-- Whatever readFrame takes for a frame is the front of the stream, carries its own payload's
-- length, and what is left is the rest.
pub read_frame_sound :
    (s rest : List ℕ) (f : Frame)
    → read_frame s ≡ some (ok f, rest)
    → (s ≡ f ++ rest) × (pay_len f ≡ some (length f - header_len)) × (header_len ≤ length f)
unfolding read_frame
read_frame_sound [] rest f e = cc
read_frame_sound (t ∷ []) rest f e = cc
read_frame_sound (t ∷ a ∷ []) rest f e = cc
read_frame_sound (t ∷ a ∷ b ∷ []) rest f e = cc
read_frame_sound (t ∷ a ∷ b ∷ c ∷ []) rest f e = cc
read_frame_sound (t ∷ a ∷ b ∷ c ∷ d ∷ r) rest f e =
    let n = c * 256 + d in
    let (whole, left, enough) =
      read_payload_sound (t ∷ a ∷ b ∷ c ∷ d ∷ []) r rest n f
        (ground (arith, read_frame_header t a b c d r)) in
    rw (whole, left)
      (
        ap (λ x. t ∷ a ∷ b ∷ c ∷ d ∷ x) (sym (take-append-drop n r)),
        pay_len-append t a b c d n (take n r) refl (omega (arith, length-take n r)),
        omega arith,
      )

-- readFrame never panics, on any stream.
read_frame_total : (s : List ℕ) → read_frame s ≢ none
unfolding read_frame
read_frame_total [] = λ e. cc
read_frame_total (t ∷ []) = λ e. cc
read_frame_total (t ∷ a ∷ []) = λ e. cc
read_frame_total (t ∷ a ∷ b ∷ []) = λ e. cc
read_frame_total (t ∷ a ∷ b ∷ c ∷ []) = λ e. cc
read_frame_total (t ∷ a ∷ b ∷ c ∷ d ∷ r) = λ e. cc (read_frame_header t a b c d r)
