-- ===== src/Network.antt =====
-- A transport from end to end: its two ends (transport.go), the connections of the two clients with
-- the server, as streams of bytes, and the server's routes (server.go). Each step is one that a
-- goroutine of one of the three processes makes between two blocking points.
pub mod Wire
pub mod Ends
pub mod Acted
pub mod Sends
pub mod Arrivals
pub mod Acts
pub mod Flow
pub mod Connected
pub mod Fresh
pub mod Dial
pub mod Closing
use dmsg.Prelude.{
  ℕ, zero, suc, ◌+◌, Bool, true, false, Option, none, some, List, [], ◌∷◌, ◌++◌, if◌then◌else◌,
  ◌==◌, concat, Result, ok, err,
}
use dmsg.Frame.{Frame, read_frame, disassemble}
use dmsg.Transport.{Transport, ◌>>=◌}
use dmsg.Transport.Serving.{handle_frame, serve_frame}
use dmsg.Transport.Reading.{take_bytes, turn}
use dmsg.Transport.Writing.{Begun, failed, waiting, begin_write, end_write}
use dmsg.Transport.Handshake.{Json}
use dmsg.Server as Server
use dmsg.Server.{Server}

-- One end: the transport, the bytes on the way to the server and from it, and a record of the bytes
-- that Write has taken and that Read has given so far.
pub record End : Type 0 where
  pub tp : Transport
  pub up : List ℕ
  pub down : List ℕ
  pub wrote : List ℕ
  pub got : List ℕ

pub record Network : Type 0 where
  pub a : End
  pub b : End
  pub server : Server

-- What the caller's own writes have left goes onto the connection.
unfoldable pub ship : Transport → End → End
ship tp e = record e { tp = record tp { sent = [] }; up = e.up ++ concat tp.sent }

-- One of the writes that goroutines have begun, in any order.
unfoldable pub pluck : ℕ → List (List ℕ) → Option (List ℕ × List (List ℕ))
pluck n [] = none
pluck zero (g ∷ gs) = some (g, gs)
pluck (suc n) (g ∷ gs) = pluck n gs >>= λ r. some (r.0, g ∷ r.1)

unfoldable pub flush : Option (List ℕ × List (List ℕ)) → End → End
flush none e = e
flush (some (bytes, gs)) e = record e { tp = record e.tp { spawned = gs }; up = e.up ++ bytes }

-- A Write that has come to its wait has sent its bytes.
unfoldable pub accepted : Begun → List ℕ → List ℕ
accepted (failed r) p = []
accepted (waiting seq ch) p = p

unfoldable pub begun : List ℕ → Begun × Transport → End → End
unfolding ship accepted
begun p (b, tp) e = record (ship tp e) { wrote = e.wrote ++ accepted b p }

unfoldable pub ended : Option (Result ℕ × Option Transport) → End → Option End
ended none e = some e
ended (some (r, none)) e = none
ended (some (r, some tp)) e = some (record e { tp = tp })

-- A frame that has come from the server, for the loop of Serve. Those of other ids are for other
-- transports.
unfoldable pub handed : Result Frame → Transport → Option Transport
handed (err e) tp = some tp
handed (ok f) tp = serve_frame f tp

unfoldable pub arrived : Result Frame × List ℕ → End → Option End
unfolding ship handed
arrived (err f, rest) e = some e
arrived (ok f, rest) e = disassemble f >>= λ parts.
    let (ft, id, p) = parts in
    if id == e.tp.id
    then (handle_frame e.tp f >>= λ r.
        handed r e.tp >>= λ tp. some (ship tp (record e { down = rest })))
    else some (record e { down = rest })

pub data Act : Type 0 where
  reads : ℕ → Act
  writes : List ℕ → Act
  waits : List ℕ → ℕ → ℕ → Act
  flushes : ℕ → Act
  arrives : Act

-- A step of an end; one that blocks changes nothing.
unfoldable pub act : Act → End → Option End
unfolding begun ended arrived flush
act (reads k) e = some (record e { tp = (turn k e.tp).1; got = e.got ++ (take_bytes k e.tp).0 })
act (writes p) e = begin_write true p e.tp >>= λ r. some (begun p r e)
act (waits p seq ch) e = ended (end_write p seq ch e.tp) e
act (flushes n) e = some (flush (pluck n e.tp.spawned) e)
act arrives e = read_frame e.down >>= λ r. arrived r e

-- What the server writes to one connection.
unfoldable pub written_to : ℕ → List (ℕ × Frame) → List ℕ
written_to c [] = []
written_to c ((d, f) ∷ outs) = if c == d then f ++ written_to c outs else written_to c outs

-- The end of the network in which the server's writes go to the connections ca and cb.
unfoldable pub deliver : ℕ → ℕ → Server → Network → Network
deliver ca cb s n = record n {
  a = record n.a { down = n.a.down ++ written_to ca s.outs };
  b = record n.b { down = n.b.down ++ written_to cb s.outs };
  server = record s { outs = [] };
}

-- The server's turn for the connection c, from whose stream it has read: what it leaves, and the
-- rest of the stream.
unfoldable pub served :
    Json
    → (ℕ → Bool)
    → (ℕ → Bool)
    → ℕ
    → ℕ
    → Result Frame × List ℕ
    → Server
    → Option (Server × Option (List ℕ))
served json alive ctx fuel c (err e, rest) s = some (s, none)
served json alive ctx fuel c (ok f, rest) s = disassemble f >>= λ parts.
    Server.serve_frame json alive ctx fuel c parts s >>= λ r. some (r.1, some rest)

unfoldable pub left {ℓ} : {A : Type ℓ} → A → Option A → A
left a none = a
left a (some b) = b

pub data Call : Type 0 where
  at_a at_b : Act → Call
  serves_a serves_b : Call

module _ (json : Json) (alive ctx : ℕ → Bool) (fuel ca cb : ℕ) where
  unfoldable pub serve_turn : ℕ → List ℕ → Server → Option (Server × Option (List ℕ))
  unfolding served
  serve_turn c up s = read_frame up >>= λ r. served json alive ctx fuel c r s

  unfoldable pub step : Call → Network → Option Network
  unfolding act serve_turn deliver left
  step (at_a c) n = act c n.a >>= λ e. some (record n { a = e })
  step (at_b c) n = act c n.b >>= λ e. some (record n { b = e })
  step serves_a n = serve_turn ca n.a.up n.server >>= λ t.
      some (deliver ca cb t.0 (record n { a = record n.a { up = left n.a.up t.1 } }))
  step serves_b n = serve_turn cb n.b.up n.server >>= λ t.
      some (deliver ca cb t.0 (record n { b = record n.b { up = left n.b.up t.1 } }))

  unfoldable pub run : List Call → Network → Option Network
  unfolding step
  run [] n = some n
  run (c ∷ cs) n = step c n >>= run cs
