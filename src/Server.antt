-- ===== src/Server.antt =====
-- server.go: the connections of a server with its clients, and the routes between them. A ServerConn
-- is named by a number, its place in `conn`; `outs` is what was written, in order, with the
-- connection that it was written to, and `closing` the connections that a
-- failed write has begun to close. Each operation runs under the locks that it takes.
pub mod Ids
pub mod Routes
pub mod Closes
pub mod Unrouted
pub mod Pairs
pub mod Same
pub mod Lifecycle
pub mod Clients
pub mod Shutdown
use dmsg.Prelude.{
  ℕ, zero, suc, ◌+◌, ◌%◌, Bool, true, false, not, ◌||◌, Option, none, some, List, [], ◌∷◌, ◌++◌,
  if◌then◌else◌, ◌==◌, lookup, insert, delete, nat_eq, bytes_eq, bytes_beq, u16_mod,
}
use dmsg.Frame.{
  Frame, PubKey, make_frame, ok_type, request_type, accept_type, fwd_type, ack_type, close_type,
}
use dmsg.Transport.Handshake.{HandshakePayload, Json}

pub record NextConn : Type 0 where
  pub conn : ℕ
  pub id : ℕ

pub record ServerConn : Type 0 where
  pub remote_client : PubKey
  pub next_resp_id : ℕ
  pub next_conns : List (ℕ × NextConn)

-- NewServerConn; `resp_id` is what randID(false) gives.
unfoldable pub new_server_conn : PubKey → ℕ → ServerConn
new_server_conn pk resp_id = record { remote_client = pk; next_resp_id = resp_id; next_conns = [] }

-- A server: its ServerConns, the map from public keys to them, and the writes so far.
pub record Server : Type 0 where
  pub conn : ℕ → ServerConn
  pub conns : List (PubKey × ℕ)
  pub outs : List (ℕ × Frame)
  pub closing : List ℕ

-- The mutation of one ServerConn.
abbrev pub put : ℕ → ServerConn → Server → Server
put c sc s = record s { conn = λ j. if c == j then sc else s.conn j }

-- getConn, setConn, delConn
unfoldable pub get_conn : PubKey → Server → Option ℕ
get_conn pk s = lookup pk s.conns

unfoldable pub set_conn : ℕ → Server → Server
set_conn c s = record s { conns = insert (s.conn c).remote_client c s.conns }

unfoldable pub del_conn : PubKey → Server → Server
del_conn pk s = record s { conns = delete pk s.conns }

unfoldable pub get_next : ℕ → ℕ → Server → Option NextConn
get_next c id s = lookup id (s.conn c).next_conns

unfoldable pub set_next : ℕ → ℕ → NextConn → Server → Server
set_next c id r s = put c (record (s.conn c) { next_conns = insert id r (s.conn c).next_conns }) s

unfoldable pub del_next : ℕ → ℕ → Server → Server
del_next c id s = put c (record (s.conn c) { next_conns = delete id (s.conn c).next_conns }) s

-- A write of a frame to a connection; `alive` says which connections take writes.
unfoldable pub write_frame : (ℕ → Bool) → ℕ → Frame → Server → Bool × Server
write_frame alive c f s =
    if alive c then (true, record s { outs = s.outs ++ (c, f) ∷ [] }) else (false, s)

-- NextConn.writeFrame: a failed write closes the connection that it was for.
unfoldable pub close_failed : ℕ → Bool × Server → Bool × Server
close_failed c (true, s) = (true, s)
close_failed c (false, s) = (false, record s { closing = s.closing ++ c ∷ [] })

unfoldable pub write_next : (ℕ → Bool) → NextConn → ℕ → List ℕ → Server → Bool × Server
write_next alive r ft p s = close_failed r.conn (write_frame alive r.conn (make_frame ft r.id p) s)

-- The loop of addNext, on fuel: the id found free, and the id to go on with. `ctx` says whether the
-- context is done when so much fuel is left. An inner `none` is the context's error.
unfoldable pub probe : (ℕ → Bool) → ℕ → List (ℕ × NextConn) → ℕ → Option (Option ℕ × ℕ)
probe ctx zero m id = none
probe ctx (suc fuel) m id =
    let again = probe ctx fuel m ((id + 2) % u16_mod) in
    elim (lookup id m) [
      | none ↦ some (some id, (id + 2) % u16_mod)
      | some r ↦ if ctx fuel then some (none, (id + 2) % u16_mod) else again
    ]

unfoldable pub added : ℕ → NextConn → Option ℕ × ℕ → Server → Option ℕ × Server
added c r (none, next) s = (none, put c (record (s.conn c) { next_resp_id = next }) s)
added c r (some id, next) s = (
  some id,
  put c (record (s.conn c) { next_resp_id = next; next_conns = insert id r (s.conn c).next_conns })
      s,
)

-- addNext; the outer `none` is a loop that has not ended.
unfoldable pub add_next : (ℕ → Bool) → ℕ → ℕ → NextConn → Server → Option (Option ℕ × Server)
add_next ctx fuel c r s = elim (probe ctx fuel (s.conn c).next_conns (s.conn c).next_resp_id) [
  | none ↦ none
  | some found ↦ some (added c r found s)
]

unfoldable pub forward_frame :
    (ℕ → Bool) → ℕ → ℕ → ℕ → List ℕ → Server → Option NextConn × Bool × Server
forward_frame alive c ft id p s = elim (get_next c id s) [
  | none ↦ (none, false, s)
  | some r ↦ let (wrote, s') = write_next alive r ft p s in (some r, wrote, s')
]

-- handleRequest behind its checks: both routes, then the REQUEST to the responding client.
unfoldable pub link : (ℕ → Bool) → ℕ → ℕ → ℕ → List ℕ → Option ℕ × Server → Bool × Server
link alive c id resp p (none, s) = (false, s)
link alive c id resp p (some resp_id, s) =
    let next : NextConn = record { conn = resp; id = resp_id } in
    write_next alive next request_type p (set_next c id next s)

unfoldable pub handle_request :
    Json → (ℕ → Bool) → (ℕ → Bool) → ℕ → ℕ → ℕ → List ℕ → Server → Option (Bool × Server)
handle_request json alive ctx fuel c id p s = elim (json.unmarshal p) [
  | none ↦ some (false, s)
  | some payload ↦
      if not (bytes_beq payload.init_pk (s.conn c).remote_client)
      then some (false, s)
      else elim (get_conn payload.resp_pk s) [
        | none ↦ some (false, s)
        | some resp ↦ elim (add_next ctx fuel resp (record { conn = c; id = id }) s) [
          | none ↦ none
          | some r ↦ some (link alive c id resp p r)
        ]
      ]
]

-- delChan: whether the CLOSE frame was written.
unfoldable pub del_chan : (ℕ → Bool) → ℕ → ℕ → ℕ → Server → Bool × Server
del_chan alive c id why s =
    write_frame alive c (make_frame close_type id (why ∷ [])) (del_next c id s)

-- One turn of the loop of Serve: whether the loop goes on.
unfoldable pub after_request : (ℕ → Bool) → ℕ → ℕ → Bool × Server → Bool × Server
after_request alive c id (true, s) = (true, s)
after_request alive c id (false, s) = del_chan alive c id 0 s

unfoldable pub after_forward :
    (ℕ → Bool) → ℕ → ℕ → ℕ → Option NextConn × Bool × Server → Bool × Server
after_forward alive c ft id (some r, true, s) =
    (true, if ft == close_type then del_next r.conn r.id (del_next c id s) else s)
after_forward alive c ft id (some r, false, s) = del_chan alive c id 0 s
after_forward alive c ft id (none, wrote, s) = del_chan alive c id 0 s

unfoldable pub is_forwarded : ℕ → Bool
is_forwarded ft = ft == accept_type || (ft == fwd_type || (ft == ack_type || ft == close_type))

unfoldable pub serve_frame :
    Json → (ℕ → Bool) → (ℕ → Bool) → ℕ → ℕ → ℕ × ℕ × List ℕ → Server → Option (Bool × Server)
serve_frame json alive ctx fuel c (ft, id, p) s =
    let request = handle_request json alive ctx fuel c id p s in
    if ft == request_type
    then elim request [ none ↦ none | some r ↦ some (after_request alive c id r) ]
    else (if is_forwarded ft
        then some (after_forward alive c ft id (forward_frame alive c ft id p s))
        else some (false, s))

-- writeOK, before the loop of Serve.
unfoldable pub write_ok : (ℕ → Bool) → ℕ → Server → Bool × Server
write_ok alive c s = write_frame alive c (make_frame ok_type 0 []) s

-- When the loop has ended, each transport of the connection gets a CLOSE at its other end.
unfoldable pub close_routes : (ℕ → Bool) → List (ℕ × NextConn) → Server → Server
close_routes alive [] s = s
close_routes alive ((id, r) ∷ m) s =
    close_routes alive m (write_next alive r close_type (0 ∷ []) s).1

unfoldable pub finish_serving : (ℕ → Bool) → ℕ → Server → Server
finish_serving alive c s =
    let t = close_routes alive (s.conn c).next_conns s in record t { closing = t.closing ++ c ∷ [] }
