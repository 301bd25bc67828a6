-- ===== src/Noise/Handshake.antt =====
-- noise/noise.go and noise/read_writer.go: the handshake. The package behind it is a parameter, `pkg`: what
-- a handshake state writes and reads, and the index of its next message. A message that it fails to
-- write or read is none.
use mathlib.Core.Path.{subst₂}
use dmsg.Prelude.{
  ℕ, zero, suc, ◌+◌, ◌-◌, ◌<◌, ◌≡◌, sym, ap, ◌∙◌, inl, inr, arith, Bool, Bool-cases, Option, none,
  some, List, [], append-nil, if◌then◌else◌, length, ltb, ◌==◌, Result, ok, err, u16_mod,
}
use dmsg.Transport.{◌>>=◌}
use dmsg.Noise.{packet, read_packet}
use dmsg.Noise.Channel.{read_packet-packet}

-- WriteMessage and ReadMessage, without payload; the last message of the pattern gives two keys.
pub record HandshakeState (H K : Type 0) : Type 0 where
  pub message_index : H → ℕ
  pub write_message : H → Option (List ℕ × Option (K × K) × H)
  pub read_message : List ℕ → H → Option (Option (K × K) × H)

-- What the handshake changes of a Noise.
pub record Side (H K : Type 0) : Type 0 where
  pub hs : H
  pub enc : Option K
  pub dec : Option K

unfoldable pub first : {K : Type 0} → Option (K × K) → Option K
first none = none
first (some ks) = some ks.0

unfoldable pub second : {K : Type 0} → Option (K × K) → Option K
second none = none
second (some ks) = some ks.1

-- `messages` is the number of messages of the pattern.
module _ {H K : Type 0} (pkg : HandshakeState H K) (messages : ℕ) where
  -- HandshakeMessage: the message, and the state.
  unfoldable pub wrote : Side H K → List ℕ × Option (K × K) × H → List ℕ × Side H K
  wrote s (m, ks, hs) =
      if ltb (pkg.message_index s.hs) (messages - 1)
      then (m, record s { hs = hs })
      else (m, record s { hs = hs; dec = first ks; enc = second ks })

  unfoldable pub handshake_message : Side H K → Option (List ℕ × Side H K)
  handshake_message s = pkg.write_message s.hs >>= λ r. some (wrote s r)

  -- ProcessMessage
  unfoldable pub took : Side H K → Option (K × K) × H → Side H K
  took s (ks, hs) =
      if ltb (pkg.message_index s.hs) (messages - 1)
      then record s { hs = hs }
      else record s { hs = hs; enc = first ks; dec = second ks }

  unfoldable pub process_message : List ℕ → Side H K → Option (Side H K)
  process_message m s = pkg.read_message m s.hs >>= λ r. some (took s r)

  -- HandshakeFinished
  unfoldable pub handshake_finished : Side H K → Bool
  handshake_finished s = pkg.message_index s.hs == messages

  -- readPacket and ProcessMessage, of a stream that ends behind the packet.
  unfoldable pub received : Side H K → Result (List ℕ) × List ℕ → Option (Side H K)
  received r (err e, rest) = none
  received r (ok m, rest) = process_message m r

  -- The loops of initiatorHandshake and responderHandshake, of the side `w` whose turn it is to write
  -- and the side `r` that reads: once the message is through, each breaks if its state is at the end, by
  -- the same test at all four places of the two loops, and else they change their parts. `none` is an error, or a side that waits for ever.
  unfoldable pub settled :
      Option (Side H K × Side H K) → Side H K → Side H K → Option (Side H K × Side H K)
  settled rest w r =
      if handshake_finished w
      then (if handshake_finished r then some (w, r) else none)
      else (if handshake_finished r then none else rest)

  unfoldable pub handshake : ℕ → Side H K → Side H K → Option (Side H K × Side H K)
  handshake zero w r = none
  handshake (suc fuel) w r = handshake_message w >>= λ o.
      (read_packet (packet o.0) >>= received r) >>= λ r'. settled (handshake fuel r' o.1) o.1 r'

  -- The package keeps the two sides of a handshake in step: what the side that writes writes, as
  -- message i, is short and the other side can read it, after which both are at the message after i,
  -- with their parts changed; on the last message both get the same keys.
  abbrev pub InStep : (ℕ → H → H → Type 0) → Type 0
  InStep at =
      (i : ℕ) (h g : H)
      → i < messages
      → at i h g
      → (m : List ℕ) × (ks : Option (K × K)) × (h' : H) × (g' : H) × (pkg.write_message h
          ≡ some (m, ks, h'))
        × (pkg.read_message m g ≡ some (ks, g'))
        × (length m < u16_mod)
        × (pkg.message_index h ≡ i)
        × (pkg.message_index g ≡ i)
        × (pkg.message_index h' ≡ suc i)
        × (pkg.message_index g' ≡ suc i)
        × (suc i ≡ messages → (k : K × K) × (ks ≡ some k))
        × at (suc i) g' h'

  -- The two sides have each other's keys.
  unfoldable pub HasKeys : Side H K × Side H K → Type 0
  HasKeys (w, r) =
      (k : K × K) × (w.dec ≡ some k.0)
      × (w.enc ≡ some k.1)
      × (r.enc ≡ some k.0)
      × (r.dec ≡ some k.1)

  wrote_state :
      (s : Side H K) (m : List ℕ) (ks : Option (K × K)) (h : H)
      → ((wrote s (m, ks, h)).0 ≡ m) × ((wrote s (m, ks, h)).1.hs ≡ h)
  unfolding wrote
  wrote_state s m ks h = elim (Bool-cases (ltb (pkg.message_index s.hs) (messages - 1))) [
    | inl b ↦ (ground (arith, b), ground (arith, b))
    | inr b ↦ (ground (arith, b), ground (arith, b))
  ]

  took_state : (s : Side H K) (ks : Option (K × K)) (h : H) → (took s (ks, h)).hs ≡ h
  unfolding took
  took_state s ks h = elim (Bool-cases (ltb (pkg.message_index s.hs) (messages - 1))) [
    | inl b ↦ ground (arith, b)
    | inr b ↦ ground (arith, b)
  ]

  -- One message, from the side whose turn it is.
  message-through :
      (at : ℕ → H → H → Type 0) (fuel i : ℕ) (w r : Side H K)
      → InStep at
      → i < messages
      → at i w.hs r.hs
      → (w' : Side H K) × (r' : Side H K) × (handshake (suc fuel) w r
          ≡ settled (handshake fuel r' w') w' r')
        × at (suc i) r'.hs w'.hs
        × (handshake_finished w' ≡ (suc i == messages))
        × (handshake_finished r' ≡ (suc i == messages))
        × (suc i ≡ messages → HasKeys (w', r'))
  unfolding handshake handshake_message wrote process_message took received handshake_finished
      HasKeys first second
  message-through at fuel i w r laws l here =
      let (m, ks, h', g', wr, rd, short, ih, ig, ih', ig', last, next) = laws i w.hs r.hs l here in
      let got = ap read_packet (sym (append-nil (packet m))) ∙ read_packet-packet m [] short in
      let (m_is, w_is) = wrote_state w m ks h' in
      let r_is = took_state r ks g' in
      (
        (wrote w (m, ks, h')).1,
        took r (ks, g'),
        ground (arith, wr, rd, got, m_is),
        subst₂ (at (suc i)) (sym r_is) (sym w_is) next,
        ground (arith, ih', ap pkg.message_index w_is),
        ground (arith, ig', ap pkg.message_index r_is),
        (λ e.
            let (k, k_is) = last e in
            (
              k,
              ground (arith, e, ih, k_is),
              ground (arith, e, ih, k_is),
              ground (arith, e, ig, k_is),
              ground (arith, e, ig, k_is),
            )),
      )

  handshake_from :
      (at : ℕ → H → H → Type 0) (fuel i : ℕ) (w r : Side H K)
      → InStep at
      → i + fuel ≡ messages
      → 0 < fuel
      → at i w.hs r.hs
      → (out : Side H K × Side H K) × (handshake fuel w r ≡ some out) × HasKeys out
  unfolding settled
  handshake_from at zero i w r laws n p here = absurd (ground (arith, p))
  handshake_from at (suc fuel) i w r laws n p here =
      let (w', r', e, next, fw, fr, keys) =
        message-through at fuel i w r laws (ground (arith, n)) here in
      elim (Bool-cases (suc i == messages)) [
        | inl b ↦ ((w', r'), ground (arith, e, fw, fr, b), keys (ground (arith, b)))
        | inr b ↦
            let (out, o, k) =
              handshake_from at fuel (suc i) r' w' laws (ground (arith, n)) (ground (arith, n, b))
                next in
            (out, ground (arith, e, fw, fr, b, o), k)
      ]

  -- Over a package that keeps the two sides in step, the loops of the two sides come to their ends
  -- together after as many messages as the pattern has, from the first one on, and then each side
  -- decrypts with the key that the other one encrypts with.
  pub handshake-HasKeys :
      (at : ℕ → H → H → Type 0) (w r : Side H K)
      → InStep at
      → 0 < messages
      → at 0 w.hs r.hs
      → (out : Side H K × Side H K) × (handshake messages w r ≡ some out)
        × (k : K × K) × (out.0.dec ≡ some k.0)
        × (out.0.enc ≡ some k.1)
        × (out.1.enc ≡ some k.0)
        × (out.1.dec ≡ some k.1)
  unfolding HasKeys
  handshake-HasKeys at w r laws p here =
      let (out, e, ks) = handshake_from at messages 0 w r laws (ground arith) p here in
      let (k, wd, we, re, rd) = ks in (out, e, k, wd, we, re, rd)
