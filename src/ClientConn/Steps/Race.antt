-- ===== src/ClientConn/Steps/Race.antt =====
-- client_conn.go: a frame that comes for a transport whose ACCEPT has been written, before its
-- goroutine has put it into the map.
use dmsg.Prelude.{
  ℕ, ◌<◌, ◌≡◌, ◌≢◌, refl, true, false, none, some, List, [], ◌∷◌, ◌++◌, length, arith, insert,
  lookup-insert, nat_eq, ok, append_assoc, bytes_beq_refl,
}
use dmsg.Frame.{
  make_frame, request_type, accept_type, close_type, placeholder_reason, is_initiator_id,
  combine_pks,
}
use dmsg.Transport.{Transport, new_transport, serve}
use dmsg.Transport.Handshake.{HandshakePayload, Json, write_accept, write_or_close, accept_frame}
use dmsg.Listener.{Listener, accept_buffer_size, introduce, offer}
use dmsg.Listener.Ports.{listener}
use dmsg.ClientConn.{
  ClientConn, set_tp, del_tp, get_tp, introduced, after_accept, settle, is_kept, after_request,
  ignored,
}
use dmsg.ClientConn.Ids.{get_tp-set_tp}
use dmsg.ClientConn.Requests.{new_tp, accepted_tp}
use dmsg.ClientConn.Steps.{
  handles, holds, settled, hand_task, handle_task, go_on, task_step, spawned, serve_task, start,
  remaining, resume, arrives, goes, step, run,
}

-- The connection once the ACCEPT has been written.
abbrev promised : ClientConn → HandshakePayload → ℕ → List ℕ → Listener → ClientConn
promised c payload id seed l =
    let l' = record l { accept = l.accept ++ id ∷ [] } in
    record c {
      pm = record c.pm { listeners = insert payload.port l' c.pm.listeners };
      outs = c.outs ++ make_frame accept_type id (combine_pks payload.init_pk c.local) ∷ [];
    }

hand_task-queued :
    (seed : List ℕ) (id : ℕ) (c : ClientConn) (payload : HandshakePayload) (l : Listener)
    → c.done ≡ false
    → l.done ≡ false
    → length l.accept < accept_buffer_size
    → hand_task true payload.port l (new_tp c payload id seed) c
      ≡ some (holds (ok tt) (accepted_tp c payload id seed), promised c payload id seed l)
unfolding hand_task introduce offer introduced settled settle write_accept write_or_close
    accept_frame serve new_tp accepted_tp new_transport after_accept
hand_task-queued seed id c payload l up opened room = ground arith

handle_task-queued :
    (json : Json) (seed : List ℕ) (id : ℕ) (p : List ℕ) (c : ClientConn)
    (payload : HandshakePayload) (l : Listener)
    → json.unmarshal p ≡ some payload
    → payload.resp_pk ≡ c.local
    → is_initiator_id id ≡ false
    → listener payload.port c.pm ≡ some l
    → c.done ≡ false
    → l.done ≡ false
    → length l.accept < accept_buffer_size
    → handle_task json true seed id p c
      ≡ some (holds (ok tt) (accepted_tp c payload id seed), promised c payload id seed l)
unfolding handle_task new_tp
handle_task-queued json seed id p c payload l u own odd there up opened room =
    ground (arith, bytes_beq_refl c.local, hand_task-queued seed id c payload l up opened room)

get_tp-promised :
    (j : ℕ) (c : ClientConn) (payload : HandshakePayload) (id : ℕ) (seed : List ℕ) (l : Listener)
    → get_tp j (promised c payload id seed l) ≡ get_tp j c
unfolding get_tp
get_tp-promised j c payload id seed l = refl

-- A REQUEST that is accepted, of which the goroutine has not yet put the transport into the map when
-- a frame that is neither a REQUEST nor a CLOSE comes for its id: the frame is answered with a CLOSE,
-- right behind the ACCEPT, and no transport is handed it, although the transport is in its listener's
-- queue, is served, and then is put into the map and stays there.
pub run-early :
    (json : Json) (seed seed' : List ℕ) (id ft : ℕ) (p q : List ℕ) (c : ClientConn)
    (payload : HandshakePayload) (l : Listener)
    → json.unmarshal p ≡ some payload
    → payload.resp_pk ≡ c.local
    → is_initiator_id id ≡ false
    → listener payload.port c.pm ≡ some l
    → c.done ≡ false
    → l.done ≡ false
    → length l.accept < accept_buffer_size
    → get_tp id c ≡ none
    → ft ≢ request_type
    → ft ≢ close_type
    → (t : ClientConn) × (tp : Transport) × (run json
          (goes true 0 ∷ arrives true seed' (ft, id, q) ∷ goes true 0 ∷ goes true 0 ∷ [])
          (record { conn = c; tasks = handles id p seed ∷ [] })
        ≡ some (record { conn = t; tasks = [] }))
      × (t.outs
          ≡ c.outs
            ++ make_frame accept_type id (combine_pks payload.init_pk c.local)
              ∷ make_frame close_type id (placeholder_reason ∷ [])
              ∷ [])
      × (t.inbox ≡ c.inbox)
      × (listener payload.port t.pm ≡ some (record l { accept = l.accept ++ id ∷ [] }))
      × (get_tp id t ≡ some tp)
      × (tp.serving ≡ true)
unfolding run step resume serve_task start spawned task_step go_on remaining ignored after_request
    is_kept accepted_tp new_tp new_transport del_tp set_tp listener
run-early json seed seed' id ft p q c payload l u own odd there up opened room free no_request
      no_close =
    let tp = accepted_tp c payload id seed in
    let c1 = promised c payload id seed l in
    let d = del_tp id c1 in
    let c2 = record d {
      outs = d.outs ++ make_frame close_type id (placeholder_reason ∷ []) ∷ [];
    } in
    (
      set_tp id tp c2,
      tp,
      ground (
        arith,
        handle_task-queued json seed id p c payload l u own odd there up opened room,
        get_tp-promised id c payload id seed l,
      ),
      append_assoc c.outs (make_frame accept_type id (combine_pks payload.init_pk c.local) ∷ [])
          (make_frame close_type id (placeholder_reason ∷ []) ∷ []),
      refl,
      ground (
        arith,
        lookup-insert payload.port payload.port (record l { accept = l.accept ++ id ∷ [] })
            c.pm.listeners,
      ),
      ground (arith, get_tp-set_tp id id tp c2),
      refl,
    )
