-- ===== src/ClientConn.antt =====
-- client_conn.go: a client's connection with a server. `tps` is the map of transports, where
-- `none` is nil; a transport lives in its entry. `outs` is what was written to the connection by
-- these operations, in order, `inbox` the frames handed to the transports, and `closing` the
-- transports that a goroutine of close begins to close. An outer `none` is a panic, or a loop that
-- has not ended.
pub mod Ids
pub mod Requests
pub mod Queues
pub mod Dialing
pub mod Steps
use dmsg.Prelude.{
  ℕ, zero, suc, ◌+◌, ◌%◌, Bool, true, false, not, ◌&&◌, ◌||◌, Option, none, some, List, [], ◌∷◌,
  ◌++◌, map, if◌then◌else◌, ◌==◌, lookup, insert, nat_eq, bytes_beq, u16_mod, Result, ok, err,
  Error, err_client_closed, err_client_accept_maxed, err_request_check_failed,
  err_port_not_listening, write_error, ctx_done,
}
use dmsg.Frame.{
  Frame, PubKey, make_frame, request_type, close_type, placeholder_reason, is_initiator_id, ok_type,
}
use dmsg.Transport.{Transport, Addr, new_transport, serve, close_with_frame, ◌>>=◌}
use dmsg.Transport.Handshake.{
  HandshakePayload, Json, Event, write_accept, write_request, read_accept,
}
use dmsg.Listener.{Listener, Introduced, refused_closed, refused_full, queued, introduce}
use dmsg.Listener.Ports.{PortManager, listener}

pub record ClientConn : Type 0 where
  pub local : PubKey
  pub remote_srv : PubKey
  pub next_init_id : ℕ
  pub tps : List (ℕ × Option Transport)
  pub pm : PortManager
  pub done : Bool
  pub conn_closed : Bool
  pub outs : List Frame
  pub inbox : List (ℕ × Frame)
  pub closing : List (Option Transport)

-- `init_id` is what randID(true) gives.
unfoldable pub new_client_conn : PubKey → PubKey → ℕ → PortManager → ClientConn
new_client_conn local remote init_id pm = record {
  local = local;
  remote_srv = remote;
  next_init_id = init_id;
  tps = [];
  pm = pm;
  done = false;
  conn_closed = false;
  outs = [];
  inbox = [];
  closing = [];
}

unfoldable pub set_tp : ℕ → Transport → ClientConn → ClientConn
set_tp id tp c = record c { tps = insert id (some tp) c.tps }

unfoldable pub del_tp : ℕ → ClientConn → ClientConn
del_tp id c = record c { tps = insert id none c.tps }

-- setNextInitID
unfoldable pub set_next_init_id : ℕ → ClientConn → ClientConn
set_next_init_id id c = record c { next_init_id = id }

unfoldable pub live : Option (Option Transport) → Option Transport
live none = none
live (some none) = none
live (some (some tp)) = if tp.done then none else some tp

-- getTp: a transport of this id that is not closed.
unfoldable pub get_tp : ℕ → ClientConn → Option Transport
unfolding live
get_tp id c = live (lookup id c.tps)

-- The last case of the loop of getNextInitID.
unfoldable pub take_id : ClientConn → Result ℕ × ClientConn
take_id c = (
  ok c.next_init_id,
  record (del_tp c.next_init_id c) { next_init_id = (c.next_init_id + 2) % u16_mod },
)

-- getNextInitID, on fuel; `ctx` says whether the context is done when so much fuel is left. Where
-- both channels are ready, the first case is the one that is taken.
unfoldable pub get_next_init_id : (ℕ → Bool) → ℕ → ClientConn → Option (Result ℕ × ClientConn)
get_next_init_id ctx zero c = none
get_next_init_id ctx (suc fuel) c =
    let again =
      get_next_init_id ctx fuel (record c { next_init_id = (c.next_init_id + 2) % u16_mod }) in
    if c.done
    then some (err err_client_closed, c)
    else (if ctx fuel
        then some (err ctx_done, c)
        else elim (get_tp c.next_init_id c) [ none ↦ some (take_id c) | some tp ↦ again ])

-- addTp; `seed` is for the transport's RandSeq.
unfoldable pub added :
    PubKey → ℕ → ℕ → List ℕ → Result ℕ × ClientConn → Result Transport × ClientConn
added rpk lport rport seed (err e, c) = (err e, c)
added rpk lport rport seed (ok id, c) =
    let tp =
      new_transport (record { pk = c.local; port = lport }) (record { pk = rpk; port = rport }) id
        seed in
    (ok tp, set_tp id tp c)

unfoldable pub add_tp :
    (ℕ → Bool) → ℕ → PubKey → ℕ → ℕ → List ℕ → ClientConn → Option (Result Transport × ClientConn)
add_tp ctx fuel rpk lport rport seed c =
    get_next_init_id ctx fuel c >>= λ r. some (added rpk lport rport seed r)

-- readOK, from the type of the frame that was read.
unfoldable pub read_ok : Option ℕ → Bool
read_ok none = false
read_ok (some ft) = ft == ok_type

-- writeCloseFrame with the error that goes with it; `wrote` says whether the connection took it.
unfoldable pub reject : Bool → ℕ → Error → ClientConn → Result (Unit {0}) × ClientConn
reject wrote id e c =
    if wrote
    then (
      err e,
      record c { outs = c.outs ++ make_frame close_type id (placeholder_reason ∷ []) ∷ [] },
    )
    else (err write_error, c)

-- IntroduceTransport, all of it: the listener, and what becomes of the transport.
unfoldable pub after_accept : Result (Unit {0}) × Transport → Result (Unit {0}) × Transport
after_accept (ok u, tp) = (ok u, (serve tp).1)
after_accept (err e, tp) = (err e, tp)

unfoldable pub introduced : Bool → Introduced → Transport → Option (Result (Unit {0}) × Transport)
introduced wrote refused_closed tp = some (err err_client_closed, tp)
introduced wrote refused_full tp =
    close_with_frame tp >>= λ tp'. some (err err_client_accept_maxed, tp')
introduced wrote queued tp = write_accept wrote tp >>= λ r. some (after_accept r)

-- A transport that has closed has called delTp, its doneFunc.
unfoldable pub settle : Transport → ClientConn → ClientConn
settle tp c = if tp.done then del_tp tp.id c else c

-- err == nil || err == ErrClientAcceptMaxed
unfoldable pub is_kept : Result (Unit {0}) → Bool
is_kept (ok u) = true
is_kept (err err_client_accept_maxed) = true
is_kept (err e) = false

unfoldable pub keep : Result (Unit {0}) × Transport → ClientConn → Result (Unit {0}) × ClientConn
keep (r, tp) c =
    let c' = record (settle tp c) { outs = c.outs ++ tp.sent } in
    (r, if is_kept r then set_tp tp.id tp c' else c')

-- The select of handleRequestFrame, for a port with the listener l.
unfoldable pub hand_over :
    Bool → ℕ → Listener → Transport → ClientConn → Option (Result (Unit {0}) × ClientConn)
hand_over wrote port l tp c =
    if c.done
    then (close_with_frame tp >>= λ tp'. some (keep (err err_client_closed, tp') c))
    else (introduce tp.id l >>= λ x.
        let pm' = record c.pm { listeners = insert port x.1 c.pm.listeners } in
        introduced wrote x.0 tp >>= λ r. some (keep r (record c { pm = pm' })))

-- handleRequestFrame; `wrote` says whether the connection takes the frame that is written.
unfoldable pub handle_request_frame :
    Json → Bool → List ℕ → ℕ → List ℕ → ClientConn → Option (Result (Unit {0}) × ClientConn)
handle_request_frame json wrote seed id p c = elim (json.unmarshal p) [
  | none ↦ some (reject wrote id err_request_check_failed c)
  | some payload ↦
      if not (bytes_beq payload.resp_pk c.local) || is_initiator_id id
      then some (reject wrote id err_request_check_failed c)
      else elim (listener payload.port c.pm) [
        | none ↦ some (reject wrote id err_port_not_listening c)
        | some l ↦
            hand_over wrote payload.port l
              (new_transport (record { pk = c.local; port = payload.port })
                (record { pk = payload.init_pk; port = 0 }) id seed)
              c
      ]
]

-- close: whether this call closed the connection.
unfoldable pub entries : List (ℕ × Option Transport) → List (Option Transport)
entries [] = []
entries ((id, tp) ∷ m) = tp ∷ entries m

unfoldable pub close : ClientConn → Bool × ClientConn
unfolding entries
close c =
    if c.done
    then (false, c)
    else (true, record c { done = true; conn_closed = true; closing = c.closing ++ entries c.tps })

-- The goroutine of Serve around handleRequestFrame.
unfoldable pub after_request : Result (Unit {0}) × ClientConn → ClientConn
after_request (ok u, c) = c
after_request (err write_error, c) = (close c).1
after_request (err err_client_closed, c) = (close c).1
after_request (err e, c) = c

-- The default case of the switch of Serve. Where the write fails, Serve returns, and closes.
unfoldable pub ignored : Bool → ℕ → ℕ → ClientConn → Bool × ClientConn
ignored wrote ft id c =
    if ft == close_type
    then (true, c)
    else (if wrote
        then (
          true,
          record c { outs = c.outs ++ make_frame close_type id (placeholder_reason ∷ []) ∷ [] },
        )
        else (false, (close c).1))

-- One turn of the loop of Serve: whether the loop goes on.
unfoldable pub serve_frame :
    Json → Bool → List ℕ → ℕ × ℕ × List ℕ → ClientConn → Option (Bool × ClientConn)
serve_frame json wrote seed (ft, id, p) c = elim (get_tp id c) [
  | some tp ↦ some (true, record c { inbox = c.inbox ++ (id, make_frame ft id p) ∷ [] })
  | none ↦
      if ft == request_type
      then (handle_request_frame json wrote seed id p (del_tp id c) >>= λ r.
          some (true, after_request r))
      else some (ignored wrote ft id (del_tp id c))
]

-- DialTransport. What each step leaves of the transport is put into its entry.
unfoldable pub note : Transport → ClientConn → ClientConn
note tp c = settle tp (record (set_tp tp.id tp c) { outs = c.outs ++ tp.sent })

unfoldable pub dial_serve :
    ClientConn → Result (Unit {0}) × Transport → Result Transport × ClientConn
dial_serve c (err e, tp) = (err e, note tp c)
dial_serve c (ok u, tp) = let tp' = (serve tp).1 in (ok tp', note tp' c)

unfoldable pub dial_accept :
    Event → ClientConn → Result (Unit {0}) × Transport → Option (Result Transport × ClientConn)
dial_accept event c (err e, tp) = some (err e, note tp c)
dial_accept event c (ok u, tp) = read_accept event tp >>= λ r. some (dial_serve c r)

unfoldable pub dial_request :
    Json → Bool → ℕ → Event → Result Transport × ClientConn → Option (Result Transport × ClientConn)
dial_request json wrote port event (err e, c) = some (err e, c)
dial_request json wrote port event (ok tp, c) =
    write_request json wrote port tp >>= dial_accept event c

unfoldable pub dial_transport :
    Json
    → (ℕ → Bool)
    → ℕ
    → Bool
    → Event
    → PubKey
    → ℕ
    → List ℕ
    → ClientConn
    → Option (Result Transport × ClientConn)
dial_transport json ctx fuel wrote event client_pk port seed c =
    add_tp ctx fuel client_pk 0 port seed c >>= dial_request json wrote port event
