-- ===== src/Noise/Channel.antt =====
-- noise/read_writer.go: what one end reads of what the other end writes.
use dmsg.Prelude.{
  ℕ, suc, ◌+◌, ◌%◌, ◌<◌, ◌≡◌, refl, sym, ap, ◌∙◌, true, false, Option, none, some, List, [], ◌∷◌,
  ◌++◌, arith, length, take, drop, concat, ltb, ok, err, eof, u16_mod, u32_mod, put_uint16,
  put_uint32, get-put_uint16, Bool-cases, inl, inr, get-put_uint32, take-append, drop-append,
  take-append-drop, drop_all, length-take, length-append, append_assoc, append-nil,
}
use dmsg.Frame.{read_full}
use dmsg.Ioutil.BufRead.{buf_read}
use dmsg.Noise.{
  Cipher, Noise, encrypt_unsafe, note_seq, decrypted, decrypt_unsafe, ReadWriter, packet,
  read_packet, read_packet_body, write, hand_out, decrypt_packet, read,
}

pub read_header : (v : ℕ) (r : List ℕ) → read_full 2 (put_uint16 v ++ r) ≡ (ok (put_uint16 v), r)
unfolding read_full put_uint16
read_header v r = ground arith

read_exactly : (p rest : List ℕ) (n : ℕ) → n ≡ length p → read_full n (p ++ rest) ≡ (ok p, rest)
unfolding read_full
read_exactly p rest n e =
    ground (arith, length-append p rest, take-append p rest n e, drop-append p rest n e)

-- A packet below 2 ^ 16 bytes is read back, and the stream goes on behind it.
pub read_packet-packet :
    (p rest : List ℕ) → length p < u16_mod → read_packet (packet p ++ rest) ≡ some (ok p, rest)
unfolding read_packet read_packet_body packet
read_packet-packet p rest h =
    let n = length p % u16_mod in
    ground (
      arith,
      append_assoc (put_uint16 n) p rest,
      read_header n (p ++ rest),
      get-put_uint16 n [],
      append-nil (put_uint16 n),
      read_exactly p rest n (omega arith),
    )

-- The channel's messages written one after another.
unfoldable pub write_all : Cipher → List (List ℕ) → Noise → List ℕ
write_all cipher [] ns = []
write_all cipher (p ∷ ps) ns =
    let (bytes, ns') = write cipher p ns in bytes ++ write_all cipher ps ns'

-- Reads one after another, up to an error: what they have given.
unfoldable pub gather : List ℕ → Option (List ℕ × ReadWriter) → Option (List ℕ × ReadWriter)
gather out none = none
gather out (some (rest, side)) = some (out ++ rest, side)

unfoldable pub read_all : Cipher → List ℕ → ReadWriter → Option (List ℕ × ReadWriter)
read_all cipher [] side = some ([], side)
read_all cipher (k ∷ ks) side = elim (read cipher k side) [
  | none ↦ none
  | some (err e, side') ↦ some ([], side')
  | some (ok out, side') ↦ gather out (read_all cipher ks side')
]

-- Each ciphertext, with its four bytes, is one packet.
abbrev pub Fits : Cipher → List (List ℕ) → Type 0
Fits cipher [] = Unit {0}
Fits cipher (p ∷ ps) = ((n : ℕ) → 4 + length (cipher.encrypt n p) < u16_mod) × Fits cipher ps

read_buffered :
    (cipher : Cipher) (k : ℕ) (side : ReadWriter)
    → 0 < length side.r_buf
    → read cipher k side ≡ some (ok (take k side.r_buf), record side { r_buf = drop k side.r_buf })
unfolding read
read_buffered cipher k side h = ground arith

read_end :
    (cipher : Cipher) (k : ℕ) (side : ReadWriter)
    → side.r_buf ≡ []
    → side.origin ≡ []
    → read cipher k side ≡ some (err eof, record side { origin = [] })
unfolding read read_packet read_packet_body read_full decrypt_packet
read_end cipher k side e f = ground (arith, ap (read_full 2) f)

buf_read_lem : (p : List ℕ) (k : ℕ) → buf_read [] p k ≡ (take k p, drop k p)
unfolding buf_read
buf_read_lem p k = ground (arith, length-take k p, drop_all p k)

module _ (cipher : Cipher)
    (decrypts : (n : ℕ) (p : List ℕ) → cipher.decrypt n (cipher.encrypt n p) ≡ some p) where
  decrypt-encrypt :
      (p : List ℕ) (ns ms : Noise)
      → let seq = suc ns.seq % u32_mod in
        decrypt_unsafe cipher (put_uint32 seq ++ cipher.encrypt seq p) ms
        ≡ some (ok p, note_seq seq ms)
  unfolding decrypt_unsafe decrypted put_uint32
  decrypt-encrypt p ns ms =
      let seq = suc ns.seq % u32_mod in
      ground (arith, get-put_uint32 seq (cipher.encrypt seq p), decrypts seq p)

  read_message :
      (k : ℕ) (p rest : List ℕ) (ns : Noise) (side : ReadWriter)
      → ((n : ℕ) → 4 + length (cipher.encrypt n p) < u16_mod)
      → side.r_buf ≡ []
      → side.origin ≡ (write cipher p ns).0 ++ rest
      → read cipher k side
        ≡ some (
          ok (take k p),
          record side {
            origin = rest;
            ns = note_seq (suc ns.seq % u32_mod) side.ns;
            r_buf = drop k p;
          },
        )
  unfolding read decrypt_packet hand_out write encrypt_unsafe
  read_message k p rest ns side fits empty here =
      let seq = suc ns.seq % u32_mod in
      let c = put_uint32 seq ++ cipher.encrypt seq p in
      ground (
        arith,
        ap read_packet here,
        read_packet-packet c rest (short seq),
        decrypt-encrypt p ns side.ns,
        buf_read_lem p k,
        ap (λ b. buf_read b p k) empty,
      )
    where
      short : (seq : ℕ) → length (put_uint32 seq ++ cipher.encrypt seq p) < u16_mod
      short seq = unfold put_uint32 in omega (arith, fits seq)

  is_empty : (xs : List ℕ) → ltb 0 (length xs) ≡ false → xs ≡ []
  is_empty [] h = refl
  is_empty (x ∷ xs) h = absurd (ground arith)

  abbrev Conserved : List ℕ → List (List ℕ) → ReadWriter → Type 0
  Conserved ks ps side =
      (out : List ℕ) × (t : ReadWriter) × (qs : List (List ℕ)) × (ms : Noise) × (read_all cipher ks
          side
        ≡ some (out, t))
      × (t.origin ≡ write_all cipher qs ms)
      × (out ++ (t.r_buf ++ concat qs) ≡ side.r_buf ++ concat ps)

  from_buffer :
      (k : ℕ) (ks : List ℕ) (ps : List (List ℕ)) (side : ReadWriter)
      → ltb 0 (length side.r_buf) ≡ true
      → Conserved ks ps (record side { r_buf = drop k side.r_buf })
      → Conserved (k ∷ ks) ps side
  unfolding read_all gather
  from_buffer k ks ps side full (out, t, qs, ms, e, f, g) = (
    take k side.r_buf ++ out,
    t,
    qs,
    ms,
    ground (arith, read_buffered cipher k side (ground arith), e),
    f,
    append_assoc (take k side.r_buf) out (t.r_buf ++ concat qs)
        ∙ ap (λ x. take k side.r_buf ++ x) g
        ∙ sym (append_assoc (take k side.r_buf) (drop k side.r_buf) (concat ps))
        ∙ ap (λ x. x ++ concat ps) (take-append-drop k side.r_buf),
  )

  from_message :
      (k : ℕ) (ks p : List ℕ) (ps : List (List ℕ)) (ns : Noise) (side : ReadWriter)
      → ((n : ℕ) → 4 + length (cipher.encrypt n p) < u16_mod)
      → side.r_buf ≡ []
      → side.origin ≡ write_all cipher (p ∷ ps) ns
      → Conserved ks ps (record side {
        origin = write_all cipher ps (write cipher p ns).1;
        ns = note_seq (suc ns.seq % u32_mod) side.ns;
        r_buf = drop k p;
      })
      → Conserved (k ∷ ks) (p ∷ ps) side
  unfolding read_all gather write_all
  from_message k ks p ps ns side fits empty here (out, t, qs, ms, e, f, g) = (
    take k p ++ out,
    t,
    qs,
    ms,
    ground (
      arith,
      read_message k p (write_all cipher ps (write cipher p ns).1) ns side fits empty here,
      e,
    ),
    f,
    append_assoc (take k p) out (t.r_buf ++ concat qs)
        ∙ ap (λ x. take k p ++ x) g
        ∙ sym (append_assoc (take k p) (drop k p) (concat ps))
        ∙ ap (λ x. x ++ concat ps) (take-append-drop k p)
        ∙ ap (λ x. x ++ (p ++ concat ps)) (sym empty),
  )

  -- Whatever the sizes of the slices that the reading end gives to Read, the bytes that it has got,
  -- those in its buffer and the messages that it has not taken in yet are together the messages
  -- that the other end has written, in order. No read panics.
  pub read_all-write_all :
      (ks : List ℕ) (ps : List (List ℕ)) (ns : Noise) (side : ReadWriter)
      → Fits cipher ps
      → side.origin ≡ write_all cipher ps ns
      → (out : List ℕ) × (t : ReadWriter) × (qs : List (List ℕ)) × (ms : Noise) × (read_all cipher
            ks side
          ≡ some (out, t))
        × (t.origin ≡ write_all cipher qs ms)
        × (out ++ (t.r_buf ++ concat qs) ≡ side.r_buf ++ concat ps)
  unfolding read_all write_all
  read_all-write_all [] ps ns side fits here = ([], side, ps, ns, refl, here, refl)
  read_all-write_all (k ∷ ks) [] ns side fits here = elim (Bool-cases (ltb 0 (length side.r_buf))) [
    | inl full ↦
        from_buffer k ks [] side full
          (read_all-write_all ks [] ns (record side { r_buf = drop k side.r_buf }) fits here)
    | inr empty ↦ (
      [],
      record side { origin = [] },
      [],
      ns,
      ground (arith, read_end cipher k side (is_empty side.r_buf empty) here),
      refl,
      refl,
    )
  ]
  read_all-write_all (k ∷ ks) (p ∷ ps) ns side fits here =
      elim (Bool-cases (ltb 0 (length side.r_buf))) [
        | inl full ↦ from_buffer k ks (p ∷ ps) side full (
            read_all-write_all ks (p ∷ ps) ns (record side { r_buf = drop k side.r_buf }) fits here)
        | inr empty ↦ from_message k ks p ps ns side fits.0 (is_empty side.r_buf empty) here (
            read_all-write_all ks ps (write cipher p ns).1
              (record side {
                origin = write_all cipher ps (write cipher p ns).1;
                ns = note_seq (suc ns.seq % u32_mod) side.ns;
                r_buf = drop k p;
              })
              fits.1 refl)
      ]
