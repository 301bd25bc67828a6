-- ===== src/Tests/Servers.antt =====
-- Concrete runs of a server, with three clients.
use dmsg.Prelude.{
  ℕ, zero, suc, bytes_beq, ◌%◌, ◌<◌, ◌≡◌, refl, Bool, true, false, none, some, [], ◌∷◌, ◌++◌, arith,
  u16_mod, if◌then◌else◌, lookup, nat_eq, bytes_eq, ◌==◌, ◌&&◌,
}
use dmsg.Frame.{PubKey, make_frame, request_type}
use dmsg.Transport.Handshake.{HandshakePayload, Json, payload_version}
use dmsg.Server.{
  ServerConn, Server, get_conn, get_next, probe, handle_request, serve_frame, add_next, added, link,
  set_next, write_next, write_frame, close_failed, after_request,
}
use dmsg.Server.Routes.{linked, handle_request-links}
use dmsg.Server.Pairs.{IsOrderly, HasOddIds, serve_frame-IsOrderly}

abbrev alice : PubKey
alice = 1 ∷ []

abbrev bob : PubKey
bob = 2 ∷ []

abbrev request : HandshakePayload
request = record { version = payload_version; init_pk = alice; resp_pk = bob; port = 80 }

abbrev json : Json
json = record { marshal = λ p. p.init_pk ++ p.resp_pk; unmarshal = λ b. some request }

abbrev alive : ℕ → Bool
alive c = true

abbrev lasts : ℕ → Bool
lasts i = false

abbrev client : ℕ → ServerConn
client zero = record { remote_client = alice; next_resp_id = 1; next_conns = [] }
client (suc zero) = record {
  remote_client = bob;
  next_resp_id = 65535;
  next_conns = (65535, record { conn = 2; id = 6 }) ∷ [];
}
client (suc (suc c)) = record {
  remote_client = 3 ∷ [];
  next_resp_id = 1;
  next_conns = (6, record { conn = 1; id = 65535 }) ∷ [];
}

abbrev server : Server
server = record { conn = client; conns = (alice, 0) ∷ (bob, 1) ∷ []; outs = []; closing = [] }

handle_request-links_example :
    (resp_id : ℕ) × (t : Server) × (handle_request json alive lasts 2 0 6 (7 ∷ []) server
      ≡ some (true, t))
    × (get_next 1 resp_id server ≡ none)
    × (resp_id < u16_mod)
    × (resp_id % 2 ≡ 65535 % 2)
    × ((a i : ℕ)
        → get_next a i t ≡ (
            if 0 == a && 6 == i
            then some (record { conn = 1; id = resp_id })
            else (if 1 == a && resp_id == i
                then some (record { conn = 0; id = 6 })
                else get_next a i server)))
    × (t.outs ≡ server.outs ++ (1, make_frame request_type resp_id (7 ∷ [])) ∷ [])
handle_request-links_example =
    handle_request-links json alive lasts 2 0 6 1 1 (7 ∷ []) request server refl refl
      (unfold get_conn lookup bytes_beq in refl) refl (λ i. refl) (omega arith) (omega arith)
      (unfold get_next lookup in refl)

-- The same clients before any transport between them.
abbrev idle : ℕ → ServerConn
idle zero = record { remote_client = alice; next_resp_id = 1; next_conns = [] }
idle (suc c) = record { remote_client = bob; next_resp_id = 65535; next_conns = [] }

abbrev start : Server
start = record { conn = idle; conns = (alice, 0) ∷ (bob, 1) ∷ []; outs = []; closing = [] }

start-IsOrderly : IsOrderly start
unfolding IsOrderly get_next lookup
start-IsOrderly = (no_routes, odd)
  where
    no_routes :
        (a i b j : ℕ)
        → lookup i (idle a).next_conns ≡ some (record { conn = b; id = j })
        → lookup j (idle b).next_conns ≡ some (record { conn = a; id = i })
    no_routes zero i b j e = cc
    no_routes (suc a) i b j e = cc

    odd : HasOddIds start
    odd zero = (refl, omega arith)
    odd (suc c) = (refl, omega arith)

abbrev routed : Server
routed = record (linked 0 6 1 65535 1 start) {
  outs = (1, make_frame request_type 65535 (7 ∷ [])) ∷ [];
}

start-routed :
    serve_frame json alive lasts 2 0 (request_type, 6, 7 ∷ []) start ≡ some (true, routed)
unfolding serve_frame handle_request get_conn lookup bytes_beq add_next probe added link set_next
    linked write_next write_frame close_failed after_request
start-routed = refl

serve_frame-IsOrderly_example : IsOrderly routed
serve_frame-IsOrderly_example =
    serve_frame-IsOrderly alive (λ b. refl) lasts 2 json 0 request_type 6 (7 ∷ []) start routed true
      start-IsOrderly (λ e. (refl, unfold get_next lookup in refl)) start-routed
