-- ===== src/Noise/Conn.antt =====
-- noise/net.go: the Write of a Conn, and the length of the packets that it makes.
use dmsg.Prelude.{
  ℕ, suc, ◌+◌, ◌%◌, ◌≤◌, ◌<◌, ◌≡◌, ◌↔◌, refl, ap, some, List, [], ◌++◌, append_assoc, arith,
  if◌then◌else◌, length, length-append, length-take, take, drop, take-append_le, drop-append_le,
  take_all, ltb, Result, ok, err, short_write, u16_mod, u32_mod, get-put_uint16, append-nil, false,
  put_uint16, put_uint32,
}
use dmsg.Frame.{read_full}
use dmsg.Noise.Channel.{read_header}
use dmsg.Noise.{Cipher, Noise, encrypt_unsafe, packet, read_packet, read_packet_body, write}

-- Write of a Conn: the number of bytes, the bytes that go to the connection, and the state.
unfoldable pub conn_write : Cipher → List ℕ → Noise → Result ℕ × List ℕ × Noise
conn_write cipher b ns =
    if ltb 65535 (length b)
    then (err short_write, [], ns)
    else (let (out, ns') = write cipher b ns in (ok (length b), out, ns'))

-- The length of the packet of a message, for a cipher that adds a tag of 16 bytes: the length of the
-- message, of the tag and of the sequence number, as a 16-bit word.
abbrev pub wire_len : ℕ → ℕ
wire_len n = (n + 20) % u16_mod

put_uint32_len : (v : ℕ) → length (put_uint32 v) ≡ 4
unfolding put_uint32
put_uint32_len v = refl

-- A packet of any length: the bytes of its length, modulo 2 ^ 16, are read back.
read_packet_cut :
    (c rest : List ℕ)
    → read_packet (packet c ++ rest)
      ≡ some (ok (take (length c % u16_mod) c), drop (length c % u16_mod) c ++ rest)
unfolding read_packet read_packet_body packet read_full
read_packet_cut c rest =
    let n = length c % u16_mod in
    ground (
      arith,
      append_assoc (put_uint16 n) c rest,
      read_header n (c ++ rest),
      get-put_uint16 n [],
      append-nil (put_uint16 n),
      length-append c rest,
      take-append_le c rest n (omega arith),
      drop-append_le c rest n (omega arith),
    )

-- Write takes a message of at most 65535 bytes. The other side reads the whole packet exactly if the
-- message has less than 65516 bytes; of a longer one, which Write takes too, the length wraps: the
-- packet that is read is cut to its first bytes, and the others are left in the stream.
pub conn_write-read_packet :
    (cipher : Cipher) (b rest : List ℕ) (ns : Noise)
    → ((n : ℕ) (p : List ℕ) → length (cipher.encrypt n p) ≡ length p + 16)
    → length b ≤ 65535
    → ((conn_write cipher b ns).0 ≡ ok (length b))
      × (read_packet ((conn_write cipher b ns).1 ++ rest)
          ≡ some (
            ok (take (wire_len (length b)) (encrypt_unsafe cipher b ns).0),
            drop (wire_len (length b)) (encrypt_unsafe cipher b ns).0 ++ rest,
          ))
      × ((take (wire_len (length b)) (encrypt_unsafe cipher b ns).0
            ≡ (encrypt_unsafe cipher b ns).0)
          ↔ (length b < 65516))
unfolding conn_write write encrypt_unsafe
conn_write-read_packet cipher b rest ns tag le =
    let seq = suc ns.seq % u32_mod in
    let c = put_uint32 seq ++ cipher.encrypt seq b in
    let len : length c ≡ length b + 20 = ground (
      arith,
      tag seq b,
      length-append (put_uint32 seq) (cipher.encrypt seq b),
      put_uint32_len seq,
    ) in
    let short : ltb 65535 (length b) ≡ false = ground (arith, le) in
    (
      ground (arith, short),
      ground (arith, short, len, read_packet_cut c rest),
      (
        (λ e. ground (arith, le, len, ap (λ x. length x) e, length-take (wire_len (length b)) c)),
        (λ l. take_all c (wire_len (length b)) (ground (arith, l, len))),
      ),
    )
