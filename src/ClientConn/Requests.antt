-- ===== src/ClientConn/Requests.antt =====
-- client_conn.go: what becomes of a REQUEST frame.
use dmsg.Prelude.{
  if◌then◌else◌, ◌==◌, ℕ, ◌<◌, ◌≡◌, refl, Bool, true, false, none, some, List, [], ◌∷◌, ◌++◌, arith,
  ◌==◌, insert, lookup-insert, nat_eq, bytes_beq_refl, length, append-nil, ◌∙◌, ok, err,
  err_client_closed,
}
use dmsg.Frame.{make_frame, request_type, accept_type, is_initiator_id, combine_pks}
use dmsg.Transport.{Transport, new_transport, serve}
use dmsg.Transport.Handshake.{HandshakePayload, Json, write_accept, write_or_close, accept_frame}
use dmsg.Listener.{Listener, accept_buffer_size, offer, introduce}
use dmsg.Listener.Ports.{PortManager, listener}
use dmsg.ClientConn as Conn
use dmsg.ClientConn.{
  entries, ClientConn, set_tp, del_tp, live, get_tp, reject, introduced, settle, is_kept, keep,
  hand_over, handle_request_frame, after_request, serve_frame, after_accept,
}
use dmsg.ClientConn.Ids.{get_tp-set_tp}

unfoldable pub new_tp : ClientConn → HandshakePayload → ℕ → List ℕ → Transport
new_tp c payload id seed =
    new_transport (record { pk = c.local; port = payload.port })
      (record { pk = payload.init_pk; port = 0 }) id seed

-- What handleRequestFrame does behind its checks.
pub handle_request_frame_checked :
    (json : Json) (wrote : Bool) (seed : List ℕ) (id : ℕ) (p : List ℕ) (c : ClientConn)
    (payload : HandshakePayload) (l : Listener)
    → json.unmarshal p ≡ some payload
    → payload.resp_pk ≡ c.local
    → is_initiator_id id ≡ false
    → listener payload.port c.pm ≡ some l
    → handle_request_frame json wrote seed id p c
      ≡ hand_over wrote payload.port l (new_tp c payload id seed) c
unfolding handle_request_frame new_tp
handle_request_frame_checked json wrote seed id p c payload l u own odd there =
    ground (arith, bytes_beq_refl c.local)

unfoldable pub accepted_tp : ClientConn → HandshakePayload → ℕ → List ℕ → Transport
accepted_tp c payload id seed = record (new_tp c payload id seed) {
  serving = true;
  sent = make_frame accept_type id (combine_pks payload.init_pk c.local) ∷ [];
}

unfoldable pub accepted_conn : ClientConn → HandshakePayload → ℕ → List ℕ → Listener → ClientConn
accepted_conn c payload id seed l =
    let pm' = record c.pm { listeners = insert payload.port l c.pm.listeners } in
    let tp = accepted_tp c payload id seed in
    set_tp id tp (record c { pm = pm'; outs = c.outs ++ tp.sent })

pub hand_over_queued :
    (seed : List ℕ) (id : ℕ) (c : ClientConn) (payload : HandshakePayload) (l : Listener)
    → c.done ≡ false
    → l.done ≡ false
    → length l.accept < accept_buffer_size
    → hand_over true payload.port l (new_tp c payload id seed) c
      ≡ some (ok tt, accepted_conn c payload id seed (record l { accept = l.accept ++ id ∷ [] }))
unfolding hand_over introduce offer introduced keep is_kept settle write_accept write_or_close
    accept_frame serve new_tp accepted_tp accepted_conn new_transport after_accept
hand_over_queued seed id c payload l up opened room = ground arith

get_tp-pm-outs :
    (j : ℕ) (c : ClientConn) (pm : PortManager) (o : List (List ℕ))
    → get_tp j (record c { pm = pm; outs = o }) ≡ get_tp j c
unfolding get_tp
get_tp-pm-outs j c pm o = refl

-- A REQUEST that names this client, under an id that the server has given, to a port with an open
-- listener whose queue has room: handleRequestFrame writes one ACCEPT, with the two keys, puts the
-- transport into the listener's queue, starts to serve it, and makes it the transport of its id; the
-- transports of the other ids stay.
pub handle_request_frame_accepts :
    (json : Json) (seed : List ℕ) (id : ℕ) (p : List ℕ) (c : ClientConn)
    (payload : HandshakePayload) (l : Listener)
    → json.unmarshal p ≡ some payload
    → payload.resp_pk ≡ c.local
    → is_initiator_id id ≡ false
    → listener payload.port c.pm ≡ some l
    → c.done ≡ false
    → l.done ≡ false
    → length l.accept < accept_buffer_size
    → (t : ClientConn) × (tp : Transport) × (handle_request_frame json true seed id p c
        ≡ some (ok tt, t))
      × (t.outs ≡ c.outs ++ make_frame accept_type id (combine_pks payload.init_pk c.local) ∷ [])
      × (listener payload.port t.pm ≡ some (record l { accept = l.accept ++ id ∷ [] }))
      × (tp.serving ≡ true)
      × (tp.remote.pk ≡ payload.init_pk)
      × ((j : ℕ) → get_tp j t ≡ (if id == j then some tp else get_tp j c))
unfolding new_tp accepted_conn accepted_tp set_tp listener new_transport
handle_request_frame_accepts json seed id p c payload l u own odd there up opened room =
    let tp = accepted_tp c payload id seed in
    let l' = record l { accept = l.accept ++ id ∷ [] } in
    let pm' = record c.pm { listeners = insert payload.port l' c.pm.listeners } in
    let c' = record c { pm = pm'; outs = c.outs ++ tp.sent } in
    (
      accepted_conn c payload id seed l',
      tp,
      handle_request_frame_checked json true seed id p c payload l u own odd there
          ∙ hand_over_queued seed id c payload l up opened room,
      refl,
      ground (arith, lookup-insert payload.port payload.port l' c.pm.listeners),
      refl,
      refl,
      (λ j. ground (arith, get_tp-set_tp id j tp c', get_tp-pm-outs j c pm' c'.outs)),
    )

shut_conn : ClientConn → ℕ → Listener → ClientConn
shut_conn c port l = record c {
  pm = record c.pm { listeners = insert port l c.pm.listeners };
  outs = c.outs ++ [];
}

hand_over_closed :
    (wrote : Bool) (seed : List ℕ) (id : ℕ) (c : ClientConn) (payload : HandshakePayload)
    (l : Listener)
    → c.done ≡ false
    → l.done ≡ true
    → hand_over wrote payload.port l (new_tp c payload id seed) c
      ≡ some (err err_client_closed, shut_conn c payload.port l)
unfolding hand_over introduce offer introduced keep is_kept settle new_tp new_transport shut_conn
hand_over_closed wrote seed id c payload l up shut = ground arith

-- A REQUEST that passes the checks, to a port whose listener has been closed, closes the whole
-- connection with the server, and begins to close every transport on it, although the connection
-- was open. Nothing is written.
pub serve_frame-closed_listener :
    (json : Json) (wrote : Bool) (seed : List ℕ) (id : ℕ) (p : List ℕ) (c : ClientConn)
    (payload : HandshakePayload) (l : Listener)
    → json.unmarshal p ≡ some payload
    → payload.resp_pk ≡ c.local
    → is_initiator_id id ≡ false
    → get_tp id c ≡ none
    → listener payload.port c.pm ≡ some l
    → l.done ≡ true
    → c.done ≡ false
    → (t : ClientConn) × (serve_frame json wrote seed (request_type, id, p) c ≡ some (true, t))
      × (t.done ≡ true)
      × (t.conn_closed ≡ true)
      × (t.closing ≡ c.closing ++ entries (del_tp id c).tps)
      × (t.outs ≡ c.outs)
unfolding serve_frame after_request del_tp Conn.close shut_conn
serve_frame-closed_listener json wrote seed id p c payload l u own odd free there shut up =
    let d = del_tp id c in
    let h = hand_over_closed wrote seed id d payload l up shut in
    let x = shut_conn d payload.port l in
    let e = handle_request_frame_checked json wrote seed id p d payload l u own odd there in
    (
      (Conn.close x).1,
      ground (arith, e, h, free),
      ground (arith, up),
      ground (arith, up),
      ground (arith, up),
      ground (arith, up, append-nil c.outs),
    )
