-- ===== src/Frame.antt =====
-- frame.go: the dmsg data unit, its reading from a byte stream, and the handshake's key pairs.
-- A byte is a number below 256, a frame is the list of its bytes. `none` stands for the panic of
-- an index out of range; a reader is the list of the bytes that it will give before its end.
pub mod Codec
pub mod Parts
pub mod Stream
pub mod Keys
use dmsg.Prelude.{
  ℕ, zero, suc, ◌+◌, ◌*◌, ◌/◌, ◌%◌, ◌^◌, Bool, true, false, ◌&&◌, ◌||◌, not, Option, none, some,
  List, [], ◌∷◌, ◌++◌, ◌==◌, ltb, if◌then◌else◌, length, take, drop, Error, eof, unexpected_eof,
  Result, ok, err, u16_mod, put_uint16, get_uint16,
}

abbrev pub header_len : ℕ
header_len = 5

abbrev pub max_uint16 : ℕ
max_uint16 = 65535

-- The constants of type FrameType.
abbrev pub ok_type : ℕ
ok_type = 0

abbrev pub request_type : ℕ
request_type = 1

abbrev pub accept_type : ℕ
accept_type = 2

abbrev pub close_type : ℕ
close_type = 3

abbrev pub fwd_type : ℕ
fwd_type = 10

abbrev pub ack_type : ℕ
ack_type = 11

abbrev pub placeholder_reason : ℕ
placeholder_reason = 0

abbrev pub Frame : Type 0
Frame = List ℕ

unfoldable pub make_frame : ℕ → ℕ → List ℕ → Frame
unfolding put_uint16
make_frame ft ch_id pay = ft ∷ (put_uint16 ch_id ++ (put_uint16 (length pay % u16_mod) ++ pay))

unfoldable pub frame_type : Frame → Option ℕ
frame_type [] = none
frame_type (t ∷ r) = some t

unfoldable pub tp_id : Frame → Option ℕ
unfolding get_uint16
tp_id f = get_uint16 (drop 1 f)

unfoldable pub pay_len : Frame → Option ℕ
unfolding get_uint16
pay_len f = get_uint16 (drop 3 f)

-- f[headerLen:] panics where the frame is shorter than its header.
unfoldable pub pay_of : Frame → Option (List ℕ)
pay_of f = if ltb (length f) header_len then none else some (drop header_len f)

infixl 5 ◌>>=◌
abbrev ◌>>=◌ {ℓ κ} : {A : Type ℓ} {B : Type κ} → Option A → (A → Option B) → Option B
none >>= f = none
some a >>= f = f a

unfoldable pub disassemble : Frame → Option (ℕ × ℕ × List ℕ)
unfolding frame_type tp_id pay_of
disassemble f = do ft ← frame_type f; id ← tp_id f; p ← pay_of f; some (ft, id, p)

-- io.ReadFull for a buffer of n bytes: the bytes or the error, and what is left of the stream. No
-- byte read is EOF, some but not all is ErrUnexpectedEOF.
unfoldable pub read_full : ℕ → List ℕ → Result (List ℕ) × List ℕ
read_full n s =
    if ltb (length s) n
    then (if length s == 0 then err eof else err unexpected_eof, [])
    else (ok (take n s), drop n s)

-- The second read fills the payload behind the header `h`.
unfoldable pub read_payload : Frame → Result (List ℕ) × List ℕ → Result Frame × List ℕ
read_payload h (ok p, rest) = (ok (h ++ p), rest)
read_payload h (err e, rest) = (err e, rest)

unfoldable pub read_frame_body : Result Frame × List ℕ → Option (Result Frame × List ℕ)
unfolding read_full read_payload pay_len
read_frame_body (err e, rest) = some (err e, rest)
read_frame_body (ok h, rest) = do n ← pay_len h; some (read_payload h (read_full n rest))

unfoldable pub read_frame : List ℕ → Option (Result Frame × List ℕ)
unfolding read_full read_frame_body
read_frame s = read_frame_body (read_full header_len s)

-- tpID%2 == 0
unfoldable pub is_initiator_id : ℕ → Bool
is_initiator_id id = id % 2 == 0

-- The loop of randID over the words that the random source gives: `none` if it never ends on them.
unfoldable pub rand_id : Bool → List (List ℕ) → Option ℕ
rand_id initiator [] = none
rand_id initiator (word ∷ words) =
    let rest = rand_id initiator words in
    do
      id ← get_uint16 word
      if initiator && id % 2 == 0 || not initiator && not (id % 2 == 0) then some id else rest

-- A public key is an array of 33 bytes.
abbrev pub PubKey : Type 0
PubKey = List ℕ

abbrev pub pk_len : ℕ
pk_len = 33

unfoldable pub combine_pks : PubKey → PubKey → List ℕ
combine_pks init_pk resp_pk = init_pk ++ resp_pk

unfoldable pub split_pks : List ℕ → Option (PubKey × PubKey)
split_pks b = if not (length b == pk_len * 2) then none else some (take pk_len b, drop pk_len b)
