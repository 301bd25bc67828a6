-- ===== src/Server/Routes.antt =====
-- server.go: the two routes of a transport, one at each client's connection, and the frames that
-- follow them.
use dmsg.Prelude.{
  ℕ, ◌+◌, ◌*◌, ◌%◌, ◌<◌, ◌≡◌, refl, Bool, true, false, ◌&&◌, none, some, List, [], ◌∷◌, ◌++◌,
  if◌then◌else◌, arith, ◌==◌, lookup, lookup-insert, lookup-delete, nat_eq, bytes_beq_refl, u16_mod,
  ap,
}
use dmsg.Frame.{make_frame, request_type, close_type}
use dmsg.Transport.Handshake.{HandshakePayload, Json}
use dmsg.Server.{
  NextConn, Server, get_conn, get_next, set_next, del_next, close_failed, write_frame, write_next,
  probe, added, add_next, forward_frame, link, handle_request, after_forward, is_forwarded,
  serve_frame,
}
use dmsg.Server.Ids.{probe_finds, probe_sound}

abbrev pub route : ℕ → ℕ → NextConn
route c id = record { conn = c; id = id }

get_next-set_next :
    (c id j k : ℕ) (r : NextConn) (s : Server)
    → get_next j k (set_next c id r s) ≡ (if c == j && id == k then some r else get_next j k s)
unfolding get_next set_next
get_next-set_next c id j k r s =
    ground
      (arith, lookup-insert id k r (s.conn c).next_conns, ap (λ i. lookup k (s.conn i).next_conns))

pub get_next-del_next :
    (c id j k : ℕ) (s : Server)
    → get_next j k (del_next c id s) ≡ (if c == j && id == k then none else get_next j k s)
unfolding get_next del_next
get_next-del_next c id j k s = ground (arith, lookup-delete id k (s.conn c).next_conns)

get_next-added :
    (c id next j k : ℕ) (r : NextConn) (s : Server)
    → get_next j k (added c r (some id, next) s).1
      ≡ (if c == j && id == k then some r else get_next j k s)
unfolding get_next added
get_next-added c id next j k r s = ground (arith, lookup-insert id k r (s.conn c).next_conns)

-- A frame that arrives on a route leaves on it, of the same type and payload and under the id of
-- the other end, if that end takes writes. A CLOSE takes both routes away; no other frame changes
-- anything else.
pub serve_frame-forward :
    (json : Json) (alive ctx : ℕ → Bool) (fuel a i b j ft : ℕ) (p : List ℕ) (s : Server)
    → is_forwarded ft ≡ true
    → alive b ≡ true
    → get_next a i s ≡ some (record { conn = b; id = j })
    → let sent = record s { outs = s.outs ++ (b, make_frame ft j p) ∷ [] } in
      serve_frame json alive ctx fuel a (ft, i, p) s
      ≡ some (true, if ft == close_type then del_next b j (del_next a i sent) else sent)
unfolding serve_frame is_forwarded after_forward forward_frame write_next write_frame close_failed
serve_frame-forward json alive ctx fuel a i b j ft p s f l r = ground arith

-- The server behind addNext and setNext: the routes of c under id and of resp under resp_id are
-- each other's.
unfoldable pub linked : ℕ → ℕ → ℕ → ℕ → ℕ → Server → Server
linked c id resp resp_id next s =
    set_next c id (route resp resp_id) (added resp (route c id) (some resp_id, next) s).1

pub get_next-linked :
    (c id resp resp_id next j k : ℕ) (s : Server)
    → get_next j k (linked c id resp resp_id next s) ≡ (
        if c == j && id == k
        then some (route resp resp_id)
        else (if resp == j && resp_id == k then some (route c id) else get_next j k s))
unfolding linked
get_next-linked c id resp resp_id next j k s = ground (
  arith,
  get_next-set_next c id j k (route resp resp_id)
      (added resp (route c id) (some resp_id, next) s).1,
  get_next-added resp resp_id next j k (route c id) s,
)

outs-linked :
    (c id resp resp_id next : ℕ) (s : Server) → (linked c id resp resp_id next s).outs ≡ s.outs
unfolding linked set_next added
outs-linked c id resp resp_id next s = refl

-- What handleRequest does once its checks have passed and the loop of addNext has found an id.
handle_request_found :
    (json : Json) (alive ctx : ℕ → Bool) (fuel c id resp resp_id next : ℕ) (p : List ℕ)
    (payload : HandshakePayload) (s : Server)
    → json.unmarshal p ≡ some payload
    → payload.init_pk ≡ (s.conn c).remote_client
    → get_conn payload.resp_pk s ≡ some resp
    → alive resp ≡ true
    → probe ctx fuel (s.conn resp).next_conns (s.conn resp).next_resp_id ≡ some (some resp_id, next)
    → let t = linked c id resp resp_id next s in
      handle_request json alive ctx fuel c id p s
      ≡ some (true, record t { outs = t.outs ++ (resp, make_frame request_type resp_id p) ∷ [] })
unfolding handle_request add_next link linked write_next write_frame close_failed added
handle_request_found json alive ctx fuel c id resp resp_id next p payload s u own there l found =
    ground (arith, bytes_beq_refl (s.conn c).remote_client)

-- A REQUEST from the client that it names, to a client that is connected, while one of the next
-- `fuel` ids for that client is free and the context lasts: handleRequest succeeds. It finds a
-- free 16-bit id of the parity that the responder's ids have, makes the routes (c, id) and
-- (resp, resp_id) each other's, changes no other route, and writes one REQUEST frame, with the same
-- payload and under the id found, to the responder.
pub handle_request-links :
    (json : Json) (alive ctx : ℕ → Bool) (fuel c id resp j : ℕ) (p : List ℕ)
    (payload : HandshakePayload) (s : Server)
    → json.unmarshal p ≡ some payload
    → payload.init_pk ≡ (s.conn c).remote_client
    → get_conn payload.resp_pk s ≡ some resp
    → alive resp ≡ true
    → ((i : ℕ) → ctx i ≡ false)
    → (s.conn resp).next_resp_id < u16_mod
    → j < fuel
    → get_next resp (((s.conn resp).next_resp_id + 2 * j) % u16_mod) s ≡ none
    → (resp_id : ℕ) × (t : Server) × (handle_request json alive ctx fuel c id p s ≡ some (true, t))
      × (get_next resp resp_id s ≡ none)
      × (resp_id < u16_mod)
      × (resp_id % 2 ≡ (s.conn resp).next_resp_id % 2)
      × ((a i : ℕ)
          → get_next a i t ≡ (
              if c == a && id == i
              then some (record { conn = resp; id = resp_id })
              else (if resp == a && resp_id == i
                  then some (record { conn = c; id = id })
                  else get_next a i s)))
      × (t.outs ≡ s.outs ++ (resp, make_frame request_type resp_id p) ∷ [])
unfolding get_next
handle_request-links json alive ctx fuel c id resp j p payload s u own there l lasts word enough
      free =
    let (resp_id, found) =
      probe_finds ctx fuel j (s.conn resp).next_conns (s.conn resp).next_resp_id lasts word enough
        free in
    let next = (resp_id + 2) % u16_mod in
    let t = linked c id resp resp_id next s in
    let sound =
      probe_sound ctx fuel (s.conn resp).next_conns (s.conn resp).next_resp_id resp_id next word
        found in
    (
      resp_id,
      record t { outs = t.outs ++ (resp, make_frame request_type resp_id p) ∷ [] },
      handle_request_found json alive ctx fuel c id resp resp_id next p payload s u own there l
          found,
      sound.0,
      sound.1,
      sound.2,
      (λ a i. get_next-linked c id resp resp_id next a i s),
      ap (λ o. o ++ (resp, make_frame request_type resp_id p) ∷ [])
          (outs-linked c id resp resp_id next s),
    )
