-- ===== src/Network/Dial/Legs.antt =====
-- client_conn.go and server.go: the four legs of a DialTransport over the server.
use dmsg.Prelude.{
  ℕ, ◌<◌, ◌≡◌, refl, Bool, true, false, none, some, List, [], ◌∷◌, ◌++◌, concat, length, arith,
  Result, ok, u16_mod,
}
use dmsg.Frame.{Frame, pk_len, make_frame, request_type, accept_type, is_initiator_id, combine_pks}
use dmsg.Frame.Codec.{disassemble-make_frame}
use dmsg.Frame.Stream.{read_frame-make_frame}
use dmsg.Transport.{Transport, ◌>>=◌, new_transport, serve}
use dmsg.Transport.Handshake.{
  HandshakePayload, Json, receives, write_request, write_or_close, request_payload, payload_version,
}
use dmsg.Transport.Accepts.{read_accept-accept_frame}
use dmsg.Listener.{Listener, accept_buffer_size}
use dmsg.Listener.Ports.{listener}
use dmsg.ClientConn as Conn
use dmsg.ClientConn.{
  ClientConn, add_tp, added, set_tp, del_tp, get_tp, note, dial_transport, dial_request,
  dial_accept, dial_serve, get_next_init_id, after_request,
}
use dmsg.ClientConn.Dialing.{get_next_init_id-local}
use dmsg.ClientConn.Requests.{handle_request_frame_checked, hand_over_queued, accepted_conn}
use dmsg.Server as Server
use dmsg.Server.{Server}
use dmsg.Network.{written_to, served, serve_turn}
use dmsg.Network.Dial.{first, relay, requested, dial}

pub relay_lem :
    (json : Json) (alive ctx : ℕ → Bool) (fuel c d ft id ft' id' : ℕ) (p p' : List ℕ) (go : Bool)
    (s t : Server)
    → id < u16_mod
    → length p < u16_mod
    → length p' < u16_mod
    → Server.serve_frame json alive ctx fuel c (ft, id, p) s ≡ some (go, t)
    → t.outs ≡ (d, make_frame ft' id' p') ∷ []
    → relay json alive ctx fuel c d (concat (make_frame ft id p ∷ [])) s
      ≡ some (make_frame ft' id' p', record t { outs = [] })
unfolding relay serve_turn served written_to first
relay_lem json alive ctx fuel c d ft id ft' id' p p' go s t word short short' e o = ground (
  arith,
  read_frame-make_frame ft id p [] short,
  disassemble-make_frame ft id p word,
  read_frame-make_frame ft' id' p' [] short',
  e,
  o,
)

-- The payload of the REQUEST of a transport from the key pk_a to the port of the key pk_b.
abbrev pub asked : List ℕ → List ℕ → ℕ → HandshakePayload
asked pk_a pk_b port = record {
  version = payload_version;
  init_pk = pk_a;
  resp_pk = pk_b;
  port = port;
}

-- The initiating end, with its REQUEST.
abbrev pub opened : Json → List ℕ → List ℕ → ℕ → ℕ → List ℕ → Transport
opened json pk_a pk_b port id seed =
    record (new_transport (record { pk = pk_a; port = 0 }) (record { pk = pk_b; port = port }) id
      seed) { sent = make_frame request_type id (json.marshal (asked pk_a pk_b port)) ∷ [] }

pub requested_lem :
    (json : Json) (ctx : ℕ → Bool) (fuel port id : ℕ) (pk : List ℕ) (seed : List ℕ)
    (a a' : ClientConn)
    → get_next_init_id ctx fuel a ≡ some (ok id, a')
    → (add_tp ctx fuel pk 0 port seed a >>= requested json port)
      ≡ some (make_frame request_type id (json.marshal (asked a.local pk port)) ∷ [])
unfolding add_tp added requested write_request write_or_close request_payload new_transport
requested_lem json ctx fuel port id pk seed a a' e =
    ground (arith, e, get_next_init_id-local ctx fuel a a' (ok id) e)

pub dialled_lem :
    (json : Json) (ctx : ℕ → Bool) (fuel port id : ℕ) (pk : List ℕ) (seed : List ℕ)
    (a a' : ClientConn)
    → length a.local ≡ pk_len
    → length pk ≡ pk_len
    → id < u16_mod
    → is_initiator_id id ≡ true
    → get_next_init_id ctx fuel a ≡ some (ok id, a')
    → (c : ClientConn) × (dial_transport json ctx fuel true
          (receives (make_frame accept_type id (combine_pks a.local pk)))
          pk
          port
          seed
          a
        ≡ some (ok (record (opened json a.local pk port id seed) { serving = true }), c))
unfolding serve dial_transport add_tp added dial_request write_request write_or_close
    request_payload new_transport dial_accept dial_serve
dialled_lem json ctx fuel port id pk seed a a' h k word init e =
    let tp0 =
      new_transport (record { pk = a.local; port = 0 }) (record { pk = pk; port = port }) id seed in
    let tp = opened json a.local pk port id seed in
    let there =
      new_transport (record { pk = pk; port = port }) (record { pk = a.local; port = 0 }) id seed in
    (
      note (record tp { serving = true }) (set_tp id tp0 a'),
      ground (
        arith,
        e,
        get_next_init_id-local ctx fuel a a' (ok id) e,
        (read_accept-accept_frame there tp refl refl h k word word init).1,
      ),
    )

pub answered_lem :
    (json : Json) (seed : List ℕ) (id : ℕ) (p : List ℕ) (c : ClientConn)
    (payload : HandshakePayload) (l : Listener)
    → json.unmarshal p ≡ some payload
    → payload.resp_pk ≡ c.local
    → is_initiator_id id ≡ false
    → get_tp id c ≡ none
    → listener payload.port c.pm ≡ some l
    → c.done ≡ false
    → l.done ≡ false
    → length l.accept < accept_buffer_size
    → Conn.serve_frame json true seed (request_type, id, p) c
      ≡ some (
        true,
        accepted_conn (del_tp id c) payload id seed (record l { accept = l.accept ++ id ∷ [] }),
      )
unfolding Conn.serve_frame after_request del_tp
answered_lem json seed id p c payload l u own odd free there up open_l room =
    let d = del_tp id c in
    ground (
      arith,
      free,
      handle_request_frame_checked json true seed id p d payload l u own odd there,
      hand_over_queued seed id d payload l up open_l room,
    )

-- DialTransport goes through if each of its legs does.
pub dial_legs :
    (json : Json) (alive ctx : ℕ → Bool) (fuel ca cb port : ℕ) (seed_a seed_b : List ℕ)
    (a b : ClientConn) (s : Server) (id rid : ℕ) (p : List ℕ) (f g h : Frame) (go : Bool)
    (b1 : ClientConn) (s1 s2 : Server) (r : Result Transport × ClientConn)
    → rid < u16_mod
    → (add_tp ctx fuel b.local 0 port seed_a a >>= requested json port) ≡ some (f ∷ [])
    → relay json alive ctx fuel ca cb (concat (f ∷ [])) s ≡ some (make_frame request_type rid p, s1)
    → Conn.serve_frame json true seed_b (request_type, rid, p) b ≡ some (go, b1)
    → b1.outs ≡ g ∷ []
    → relay json alive ctx fuel cb ca (concat (g ∷ [])) s1 ≡ some (h, s2)
    → dial_transport json ctx fuel true (receives h) b.local port seed_a a ≡ some r
    → dial json alive ctx fuel ca cb port seed_a seed_b a b s
      ≡ some (record { result = r.0; a = r.1; b = b1; server = s2 })
unfolding dial
dial_legs json alive ctx fuel ca cb port seed_a seed_b a b s id rid p f g h go b1 s1 s2 r word e0 e1
      e2 e3 e4 e5 =
    rw (e0, e1, disassemble-make_frame request_type rid p word, e2, e3, e4, e5)
