-- ===== src/Network/Dial/Refused.antt =====
-- client_conn.go and server.go: a DialTransport to a port at which no one listens.
use dmsg.Prelude.{
  ℕ, ◌<◌, ◌≡◌, refl, ap, Bool, true, false, none, some, List, [], ◌∷◌, ◌++◌, concat, arith, ok, err,
  u16_mod, err_request_rejected, bytes_beq_refl,
}
use dmsg.Frame.{make_frame, request_type, close_type, placeholder_reason, is_initiator_id}
use dmsg.Frame.Codec.{disassemble-make_frame}
use dmsg.Transport.{new_transport}
use dmsg.Transport.Inv.{Inv, closing, close_lem}
use dmsg.Transport.Safety.{new_transport-Inv}
use dmsg.Transport.Handshake.{
  Json, receives, read_accept, check_accept, fail_closed, write_request, write_or_close,
  request_payload,
}
use dmsg.Listener.Ports.{listener}
use dmsg.ClientConn as Conn
use dmsg.ClientConn.{
  ClientConn, del_tp, get_tp, set_tp, settle, note, reject, after_request, handle_request_frame,
  add_tp, added, get_next_init_id, dial_transport, dial_request, dial_accept, dial_serve,
}
use dmsg.ClientConn.Ids.{get_tp-del_tp}
use dmsg.ClientConn.Dialing.{get_next_init_id-local}
use dmsg.Server as Server
use dmsg.Server.{Server, get_conn, get_next, del_next}
use dmsg.Server.Routes.{route, serve_frame-forward}
use dmsg.Network.Dial.{relay}
use dmsg.Network.Dial.Legs.{asked, opened, relay_lem}

-- The responding client refuses.
refused_lem :
    (json : Json) (seed : List ℕ) (id : ℕ) (p : List ℕ) (c : ClientConn) (pk : List ℕ) (port : ℕ)
    → json.unmarshal p ≡ some (asked pk c.local port)
    → is_initiator_id id ≡ false
    → get_tp id c ≡ none
    → listener port c.pm ≡ none
    → let d = del_tp id c in
      Conn.serve_frame json true seed (request_type, id, p) c
      ≡ some (
        true,
        record d { outs = d.outs ++ make_frame close_type id (placeholder_reason ∷ []) ∷ [] },
      )
unfolding Conn.serve_frame after_request handle_request_frame reject del_tp
refused_lem json seed id p c pk port u odd free there = ground (arith, bytes_beq_refl c.local)

-- The dialling client is told, and lets the transport go.
rejected_lem :
    (json : Json) (ctx : ℕ → Bool) (fuel port id : ℕ) (pk : List ℕ) (seed : List ℕ)
    (a a' : ClientConn)
    → id < u16_mod
    → get_next_init_id ctx fuel a ≡ some (ok id, a')
    → (c : ClientConn) × (dial_transport json ctx fuel true
          (receives (make_frame close_type id (placeholder_reason ∷ [])))
          pk
          port
          seed
          a
        ≡ some (err err_request_rejected, c))
      × (get_tp id c ≡ none)
unfolding note settle dial_transport add_tp added dial_request write_request write_or_close
    request_payload new_transport dial_accept dial_serve read_accept check_accept fail_closed
rejected_lem json ctx fuel port id pk seed a a' word e =
    let tp0 =
      new_transport (record { pk = a.local; port = 0 }) (record { pk = pk; port = port }) id seed in
    let tp = opened json a.local pk port id seed in
    let v =
      new_transport-Inv (record { pk = a.local; port = 0 }) (record { pk = pk; port = port }) id
        seed in
    let inv : Inv tp = record {
      size = v.size;
      held = v.held;
      waiter = v.waiter;
      buf_ch = v.buf_ch;
      in_ch = v.in_ch;
      served = v.served;
      removed = v.removed;
    } in
    let (w, i, s, c) = close_lem tp inv in
    let d = set_tp id tp0 a' in
    let noted = record (set_tp id (closing w tp) d) { outs = d.outs ++ tp.sent } in
    (
      note (closing w tp) d,
      ground (
        arith,
        e,
        get_next_init_id-local ctx fuel a a' (ok id) e,
        disassemble-make_frame close_type id (placeholder_reason ∷ []) word,
        c,
      ),
      ground (arith, get_tp-del_tp id id noted),
    )

-- A CLOSE on a route passes, and takes the two routes with it.
close_leg :
    (json : Json) (alive ctx : ℕ → Bool) (fuel ca cb id rid : ℕ) (s : Server)
    → alive ca ≡ true
    → rid < u16_mod
    → get_next cb rid s ≡ some (route ca id)
    → s.outs ≡ []
    → let p = placeholder_reason ∷ [] in
      relay json alive ctx fuel cb ca (concat (make_frame close_type rid p ∷ [])) s
      ≡ some (make_frame close_type id p, record (del_next ca id (del_next cb rid s)) { outs = [] })
unfolding Server.is_forwarded del_next
close_leg json alive ctx fuel ca cb id rid s l word r quiet =
    let p = placeholder_reason ∷ [] in
    let sent = record s { outs = s.outs ++ (ca, make_frame close_type id p) ∷ [] } in
    relay_lem json alive ctx fuel cb ca close_type rid close_type id p p true s
      (del_next ca id (del_next cb rid sent)) word (omega arith) (omega arith)
      (serve_frame-forward json alive ctx fuel cb rid ca id close_type p s refl l r)
      (ap (λ o. o ++ (ca, make_frame close_type id p) ∷ []) quiet)
