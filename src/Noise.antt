-- ===== src/Noise.antt =====
-- noise/noise.go and noise/read_writer.go: the messages of an established session. The cipher behind
-- the handshake, a package of its own, is a parameter. An outer `none` is a panic.
pub mod Channel
pub mod Conn
pub mod Dialer
pub mod Listener
pub mod Handshake
use dmsg.Prelude.{
  ℕ, suc, ◌+◌, ◌%◌, ◌≤◌, Bool, true, false, Option, none, some, List, [], ◌∷◌, ◌++◌, if◌then◌else◌,
  length, take, drop, leb, ltb, Result, ok, err, decrypt_failed, u16_mod, u32_mod, put_uint16,
  get_uint16, put_uint32, get_uint32,
}
use dmsg.Frame.{read_full}
use dmsg.Ioutil.BufRead.{buf_read}

-- Encrypt and Decrypt of one direction's key: a nonce, and the message.
pub record Cipher : Type 0 where
  pub encrypt : ℕ → List ℕ → List ℕ
  pub decrypt : ℕ → List ℕ → Option (List ℕ)

pub record Noise : Type 0 where
  pub seq : ℕ
  pub previous_seq : ℕ
  pub highest_previous : ℕ

-- EncryptUnsafe
unfoldable pub encrypt_unsafe : Cipher → List ℕ → Noise → List ℕ × Noise
encrypt_unsafe cipher plaintext ns =
    let seq = suc ns.seq % u32_mod in
    (put_uint32 seq ++ cipher.encrypt seq plaintext, record ns { seq = seq })

-- The bookkeeping of DecryptUnsafe: a number that is not new is only warned about.
unfoldable pub note_seq : ℕ → Noise → Noise
note_seq seq ns = if leb seq ns.previous_seq then ns else record ns {
  highest_previous = if ltb ns.highest_previous ns.previous_seq then seq else ns.highest_previous;
  previous_seq = seq;
}

unfoldable pub decrypted : Option (List ℕ) → Result (List ℕ)
decrypted none = err decrypt_failed
decrypted (some p) = ok p

-- DecryptUnsafe; ciphertext[:4] panics on fewer than four bytes.
unfoldable pub decrypt_unsafe : Cipher → List ℕ → Noise → Option (Result (List ℕ) × Noise)
decrypt_unsafe cipher c ns = elim (get_uint32 c) [
  | none ↦ none
  | some seq ↦ some (decrypted (cipher.decrypt seq (drop 4 c)), note_seq seq ns)
]

-- `origin` is what the connection underneath still has to give.
pub record ReadWriter : Type 0 where
  pub origin : List ℕ
  pub ns : Noise
  pub r_buf : List ℕ

-- writePacket: the bytes that it writes.
unfoldable pub packet : List ℕ → List ℕ
packet p = put_uint16 (length p % u16_mod) ++ p

-- readPacket
unfoldable pub read_packet_body : Result (List ℕ) × List ℕ → Option (Result (List ℕ) × List ℕ)
read_packet_body (err e, rest) = some (err e, rest)
read_packet_body (ok h, rest) = elim (get_uint16 h) [
  | none ↦ none
  | some n ↦ some (read_full n rest)
]

unfoldable pub read_packet : List ℕ → Option (Result (List ℕ) × List ℕ)
read_packet s = read_packet_body (read_full 2 s)

-- Write: the bytes that go to the connection, and the state.
unfoldable pub write : Cipher → List ℕ → Noise → List ℕ × Noise
write cipher p ns = let (c, ns') = encrypt_unsafe cipher p ns in (packet c, ns')

unfoldable pub hand_out : ℕ → Result (List ℕ) × Noise → ReadWriter → Result (List ℕ) × ReadWriter
hand_out k (err e, ns) side = (err e, record side { ns = ns })
hand_out k (ok p, ns) side =
    let (out, buf) = buf_read side.r_buf p k in (ok out, record side { ns = ns; r_buf = buf })

unfoldable pub decrypt_packet :
    Cipher → ℕ → Result (List ℕ) × List ℕ → ReadWriter → Option (Result (List ℕ) × ReadWriter)
decrypt_packet cipher k (err e, rest) side = some (err e, record side { origin = rest })
decrypt_packet cipher k (ok c, rest) side = elim (decrypt_unsafe cipher c side.ns) [
  | none ↦ none
  | some r ↦ some (hand_out k r (record side { origin = rest }))
]

-- Read into a slice of k bytes.
unfoldable pub read : Cipher → ℕ → ReadWriter → Option (Result (List ℕ) × ReadWriter)
read cipher k side =
    if ltb 0 (length side.r_buf)
    then some (ok (take k side.r_buf), record side { r_buf = drop k side.r_buf })
    else elim (read_packet side.origin) [ none ↦ none | some r ↦ decrypt_packet cipher k r side ]
