-- ===== src/Noise/Listener.antt =====
-- noise/net.go: WrapConn, the addresses of a Conn, and the Accept of the noise listener. A connection
-- of the network is a number.
use mathlib.Core.Path.{subst}
use dmsg.Prelude.{
  ℕ, ◌≡◌, ◌↔◌, refl, ap, ◌∙◌, inl, inr, Option, none, some, List, [], ◌∷◌, ◌++◌, map, arith,
  Option-cases, Result, ok, err, Error,
}
use dmsg.Frame.{PubKey}

-- What a responder's handshake makes of each connection: the remote static key, or an error.
pub record Responder : Type 0 where
  pub local_static : PubKey
  pub handshake : ℕ → Result PubKey

-- A Conn: the connection, and the keys of its ReadWriter.
pub record NoiseConn : Type 0 where
  pub conn : ℕ
  pub local_static : PubKey
  pub remote_static : PubKey

unfoldable pub shaken : Responder → ℕ → Result PubKey → Result NoiseConn
shaken r c (err e) = err e
shaken r c (ok pk) = ok (record { conn = c; local_static = r.local_static; remote_static = pk })

unfoldable pub wrap_conn : Responder → ℕ → Result NoiseConn
unfolding shaken
wrap_conn r c = shaken r c (r.handshake c)

pub record NoiseAddr : Type 0 where
  pub pk : PubKey
  pub addr : List ℕ

-- String; `hex` is Hex of the package of keys.
unfoldable pub addr_string : (PubKey → List ℕ) → NoiseAddr → List ℕ
addr_string hex a = a.addr ++ (40 ∷ hex a.pk) ++ 41 ∷ []

-- LocalAddr and RemoteAddr, over those of the connections.
unfoldable pub local_addr : (ℕ → List ℕ) → NoiseConn → NoiseAddr
local_addr addr c = record { pk = c.local_static; addr = addr c.conn }

unfoldable pub remote_addr : (ℕ → List ℕ) → NoiseConn → NoiseAddr
remote_addr addr c = record { pk = c.remote_static; addr = addr c.conn }

-- What Accept returns, the connections that it has given up, and what the listener has still to give.
pub record Accepted : Type 0 where
  pub result : Result NoiseConn
  pub given_up : List ℕ
  pub rest : List (Result ℕ)

unfoldable pub give_up : ℕ → Option Accepted → Option Accepted
give_up c none = none
give_up c (some a) = some (record a { given_up = c ∷ a.given_up })

unfoldable pub settle : ℕ → List (Result ℕ) → Result NoiseConn → Option Accepted → Option Accepted
unfolding give_up
settle c rest (ok w) later = some (record { result = ok w; given_up = []; rest = rest })
settle c rest (err e) later = give_up c later

-- Accept, on what the listener under it gives, one after another; `none` while it waits. `made` says
-- what New returns, with its error.
unfoldable pub accept : Option Error → Responder → List (Result ℕ) → Option Accepted
unfolding settle
accept made r [] = none
accept made r (err e ∷ rest) = some (record { result = err e; given_up = []; rest = rest })
accept made r (ok c ∷ rest) =
    let later = accept made r rest in
    elim made [
      | some e ↦ some (record { result = err e; given_up = c ∷ []; rest = rest })
      | none ↦ settle c rest (wrap_conn r c) later
    ]

-- Connections whose handshakes fail.
abbrev pub AllFail : Responder → List ℕ → Type 0
AllFail r [] = Unit {0}
AllFail r (c ∷ cs) = ((e : Error) × (r.handshake c ≡ err e)) × AllFail r cs

accept-gives :
    (r : Responder) (cs : List ℕ) (c : ℕ) (pk : PubKey) (rest : List (Result ℕ))
    → AllFail r cs
    → r.handshake c ≡ ok pk
    → accept none r (map ok cs ++ ok c ∷ rest)
      ≡ some (record {
        result = ok (record { conn = c; local_static = r.local_static; remote_static = pk });
        given_up = cs;
        rest = rest;
      })
unfolding accept settle wrap_conn shaken give_up
accept-gives r [] c pk rest h e = ground (arith, e)
accept-gives r (d ∷ cs) c pk rest ((x, f), h) e = ground (arith, f, accept-gives r cs c pk rest h e)

-- The connection that Accept has given, after those whose handshakes have failed.
abbrev pub IsFirst : Responder → List (Result ℕ) → NoiseConn → Accepted → Type 0
IsFirst r given w t =
    AllFail r t.given_up
    × (r.handshake w.conn ≡ ok w.remote_static)
    × (w.local_static ≡ r.local_static)
    × (given ≡ map ok t.given_up ++ ok w.conn ∷ t.rest)

accept-IsFirst :
    (r : Responder) (given : List (Result ℕ)) (w : NoiseConn) (t : Accepted)
    → accept none r given ≡ some t
    → t.result ≡ ok w
    → IsFirst r given w t
unfolding accept settle wrap_conn shaken give_up
accept-IsFirst r [] w t h k = absurd (ground arith)
accept-IsFirst r (err e ∷ rest) w t h k = absurd (ground arith)
accept-IsFirst r (ok c ∷ rest) w t h k = go (r.handshake c) refl (λ a. accept-IsFirst r rest w a)
  where
    go :
        (m : Result PubKey)
        → r.handshake c ≡ m
        → ((a : Accepted) → accept none r rest ≡ some a → a.result ≡ ok w → IsFirst r rest w a)
        → IsFirst r (ok c ∷ rest) w t
    go (ok pk) e again =
        let v : NoiseConn = record {
          conn = c;
          local_static = r.local_static;
          remote_static = pk;
        } in
        let a : Accepted = record { result = ok v; given_up = []; rest = rest } in
        let same : a ≡ t = ground (arith, e, h) in
        let given_is : v ≡ w = ground (arith, e, h, k) in
        subst (λ x. IsFirst r (ok c ∷ rest) x t) given_is
          (subst (IsFirst r (ok c ∷ rest) v) same (tt, e, refl, refl))
    go (err e) f again = elim (Option-cases (accept none r rest)) [
      | inl n ↦ absurd (ground (arith, f, n))
      | inr (a, n) ↦
          let same : record a { given_up = c ∷ a.given_up } ≡ t = ground (arith, f, n) in
          let (fails, shook, own, split) = again a n (ground (arith, f, n)) in
          subst (IsFirst r (ok c ∷ rest) w) same
            (((e, f), fails), shook, own, ap (λ l. ok c ∷ l) split)
    ]

-- Where New makes its state, Accept returns a connection exactly if it is the first one whose
-- handshake succeeds, with the listener's own key and the key that the handshake has found, and the
-- listener under it had no error before that; the connections before it, whose handshakes have
-- failed, are given up, and what comes after it is left for the next Accept.
pub accept_iff :
    (r : Responder) (given : List (Result ℕ)) (w : NoiseConn) (t : Accepted)
    → t.result ≡ ok w
    → (accept none r given ≡ some t) ↔ IsFirst r given w t
accept_iff r given w t k = (
  (λ h. accept-IsFirst r given w t h k),
  (λ f.
      let (fails, shook, own, split) = f in
      ap (accept none r) split
      ∙ accept-gives r t.given_up w.conn w.remote_static t.rest fails shook
      ∙ ground (arith, k, own)),
)
