-- ===== src/Tests/Frames.antt =====
-- Concrete frames, ids, sequence numbers and ports.
use dmsg.Prelude.{
  ℕ, ◌-◌, ◌%◌, get_uint16, take, drop, IsBytes, ◌<◌, ◌≤◌, ◌≡◌, refl, true, none, some, List, [],
  ◌∷◌, ◌++◌, arith, replicate, ok, err, u16_mod, lookup, nat_eq, length,
}
use dmsg.Frame.{
  make_frame, fwd_type, read_frame, disassemble, pay_len, header_len, combine_pks, split_pks,
  rand_id, PubKey,
}
use dmsg.Frame.Stream.{read_frame_wraps, read_frame_cut, cut_error, read_frame_sound}
use dmsg.Ioutil.Seq.{encode_seq, decode_seq, encode-decode_seq}
use dmsg.Listener.{new_listener}
use dmsg.Listener.Ports.{
  PortManager, listener, assign, next_empty_ephemeral_port, next_empty_ephemeral_port_free,
  random_ephemeral_port, first_ephemeral_port, last_ephemeral_port,
}

abbrev hello : List ℕ
hello = 104 ∷ 105 ∷ []

abbrev key_a : PubKey
key_a = replicate 33 7

abbrev key_b : PubKey
key_b = replicate 33 9

abbrev raw : List ℕ
raw = 10 ∷ 2 ∷ 3 ∷ 0 ∷ 2 ∷ 104 ∷ 105 ∷ []

raw_len : pay_len raw ≡ some (length hello)
unfolding pay_len
raw_len = refl

raw_parts : disassemble raw ≡ some (10, 515, hello)
unfolding disassemble
raw_parts = refl

raw-IsBytes : IsBytes raw
raw-IsBytes = (
  omega arith,
  (omega arith, (omega arith, (omega arith, (omega arith, (omega arith, (omega arith, tt)))))),
)

read_frame_cut_example :
    read_frame (take 6 (make_frame fwd_type 515 hello)) ≡ some (err (cut_error 6), [])
unfolding make_frame
read_frame_cut_example = read_frame_cut fwd_type 515 6 hello (omega arith) (omega arith)

abbrev big : List ℕ
big = replicate 65537 1

read_frame_wraps_example :
    read_frame (make_frame fwd_type 2 big ++ raw)
    ≡ some (
      ok (make_frame fwd_type 2 (take (length big % u16_mod) big)),
      drop (length big % u16_mod) big ++ raw,
    )
read_frame_wraps_example = read_frame_wraps fwd_type 2 big raw

raw_read : read_frame (raw ++ 1 ∷ []) ≡ some (ok raw, 1 ∷ [])
unfolding read_frame
raw_read = refl

read_frame_sound_example :
    (raw ++ 1 ∷ [] ≡ raw ++ 1 ∷ [])
    × (pay_len raw ≡ some (length raw - header_len))
    × (header_len ≤ length raw)
read_frame_sound_example = read_frame_sound (raw ++ 1 ∷ []) (1 ∷ []) raw raw_read

two_keys : split_pks (combine_pks key_a key_b) ≡ some (key_a, key_b)
unfolding split_pks combine_pks
two_keys = refl

even_id : rand_id true ((1 ∷ 5 ∷ []) ∷ (1 ∷ 6 ∷ []) ∷ []) ≡ some 262
unfolding rand_id get_uint16
even_id = refl

numbers_back : encode_seq (decode_seq (2 ∷ 3 ∷ [])) ≡ 2 ∷ 3 ∷ []
numbers_back = encode-decode_seq 2 3 (omega arith) (omega arith)

abbrev taken : PortManager
taken = record { listeners = (49152, new_listener key_a 49152) ∷ [] }

found_port : next_empty_ephemeral_port (0 ∷ 5 ∷ []) taken ≡ some 49157
unfolding next_empty_ephemeral_port listener random_ephemeral_port lookup
found_port = refl

next_empty_ephemeral_port_free_example :
    (first_ephemeral_port ≤ 49157)
    × (49157 < last_ephemeral_port)
    × (listener 49157 taken ≡ none)
    × ((assign key_a 49157 taken).0 ≡ some (new_listener key_a 49157))
next_empty_ephemeral_port_free_example =
    next_empty_ephemeral_port_free (0 ∷ 5 ∷ []) key_a taken 49157 (omega arith, (omega arith, tt))
      found_port
