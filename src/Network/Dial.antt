-- ===== src/Network/Dial.antt =====
-- DialTransport of one client (client_conn.go) to a listener of another, through the server
-- (server.go): the REQUEST, its way to the responding client, the ACCEPT, and its way back.
pub mod Legs
pub mod Asks
pub mod Connects
pub mod Refused
use dmsg.Prelude.{
  ℕ, ◌<◌, ◌≡◌, refl, Bool, true, Option, none, some, List, [], ◌∷◌, ◌++◌, concat, length, arith,
  Result, ok, err, u16_mod,
}
use dmsg.Frame.{Frame, make_frame, disassemble, read_frame}
use dmsg.Frame.Codec.{disassemble-make_frame}
use dmsg.Frame.Stream.{read_frame-make_frame}
use dmsg.Transport.{Transport, ◌>>=◌}
use dmsg.Transport.Handshake.{Json, receives, write_request}
use dmsg.ClientConn as Conn
use dmsg.ClientConn.{ClientConn, add_tp, dial_transport}
use dmsg.Server as Server
use dmsg.Server.{Server}
use dmsg.Network.{written_to, served, serve_turn}

-- What the two clients and the server have when DialTransport returns.
pub record Dialled : Type 0 where
  pub result : Result Transport
  pub a : ClientConn
  pub b : ClientConn
  pub server : Server

unfoldable pub first : Result Frame × List ℕ → Option Frame
first (err e, rest) = none
first (ok f, rest) = some f

-- The frame that the server's turn for the connection c sends to the connection d.
unfoldable pub relay :
    Json → (ℕ → Bool) → (ℕ → Bool) → ℕ → ℕ → ℕ → List ℕ → Server → Option (Frame × Server)
relay json alive ctx fuel c d bytes s = serve_turn json alive ctx fuel c d c bytes s >>= λ t.
    read_frame (written_to d t.0.outs) >>= first >>= λ f. some (f, record t.0 { outs = [] })

-- What DialTransport has written when it comes to wait for the ACCEPT.
unfoldable pub requested : Json → ℕ → Result Transport × ClientConn → Option (List Frame)
requested json port (err e, c) = none
requested json port (ok tp, c) = write_request json true port tp >>= λ r. some r.1.sent

module _ (json : Json) (alive ctx : ℕ → Bool) (fuel ca cb port : ℕ) (seed_a seed_b : List ℕ) where
  -- The client a, on the connection ca, dials the client b, on the connection cb. `none` is a panic,
  -- an answer that does not come, or a loop that has not ended.
  unfoldable pub dial : ClientConn → ClientConn → Server → Option Dialled
  unfolding relay requested
  dial a b s = add_tp ctx fuel b.local 0 port seed_a a >>= requested json port >>= λ fs.
      relay json alive ctx fuel ca cb (concat fs) s >>= λ x. disassemble x.0 >>= λ parts.
      Conn.serve_frame json true seed_b parts b >>= λ y.
      relay json alive ctx fuel cb ca (concat y.1.outs) x.1 >>= λ z.
      dial_transport json ctx fuel true (receives z.0) b.local port seed_a a >>= λ r.
      some (record { result = r.0; a = r.1; b = y.1; server = z.1 })
