-- ===== src/Tests/Networks.antt =====
-- Concrete runs of two transports over a server, and of the life of a server.
use dmsg.Prelude.{
  Error, ℕ, zero, suc, ◌≡◌, ◌≢◌, ◌↔◌, Option, refl, Bool, true, false, none, some, List, [], ◌∷◌,
  ◌++◌, arith, lookup, insert, delete, nat_eq, bytes_eq, bytes_beq, ok, err, already_closed,
}
use dmsg.Frame.{PubKey}
use dmsg.Transport.{Addr}
use dmsg.Transport.Handshake.{HandshakePayload, Json, payload_version}
use dmsg.Server.{Server, ServerConn, new_server_conn, get_conn, get_next, set_conn}
use dmsg.Server.Lifecycle.{
  Host, fails, accepts, accept, finish, close, close_result, accepted, ended, closed, run,
  is_served, step,
}
use dmsg.Server.Clients.{KnowsServed, run-KnowsServed, finish-accept}
use dmsg.Server.Shutdown.{ends, close-run}
use dmsg.Network.{Network, act, reads, writes, flushes, arrives, at_a, at_b, serves_a, serves_b}
use dmsg.Network.Fresh.{fresh, run-Delivers}

abbrev alice : PubKey
alice = 1 ∷ []

abbrev bob : PubKey
bob = 2 ∷ []

abbrev addr_a : Addr
addr_a = record { pk = alice; port = 0 }

abbrev addr_b : Addr
addr_b = record { pk = bob; port = 80 }

abbrev request : HandshakePayload
request = record { version = payload_version; init_pk = alice; resp_pk = bob; port = 80 }

abbrev json : Json
json = record { marshal = λ p. p.init_pk ++ p.resp_pk; unmarshal = λ b. some request }

abbrev alive : ℕ → Bool
alive c = true

abbrev lasts : ℕ → Bool
lasts i = false

-- The server with the routes of a transport between the connections 0, under 6, and 1, under 3.
abbrev client : ℕ → ServerConn
client zero = record {
  remote_client = alice;
  next_resp_id = 1;
  next_conns = (6, record { conn = 1; id = 3 }) ∷ [];
}
client (suc c) = record {
  remote_client = bob;
  next_resp_id = 5;
  next_conns = (3, record { conn = 0; id = 6 }) ∷ [];
}

abbrev server : Server
server = record { conn = client; conns = (alice, 0) ∷ (bob, 1) ∷ []; outs = []; closing = [] }

-- Alice writes three bytes, which Bob reads in two reads, and acknowledges.
abbrev talk : List dmsg.Network.Call
talk =
    at_a (writes (7 ∷ 8 ∷ 9 ∷ []))
    ∷ serves_a
    ∷ at_b arrives
    ∷ at_b (reads 2)
    ∷ at_b (reads 2)
    ∷ at_b (flushes 0)
    ∷ serves_b
    ∷ at_a arrives
    ∷ []

run-Delivers_example :
    (n : Network) × (dmsg.Network.run json alive lasts 2 0 1 talk (
        fresh json alive lasts 2 0 1 addr_a addr_b addr_b addr_a 6 3
          (0 ∷ 0 ∷ [])
          (0 ∷ 1 ∷ [])
          server)
      ≡ some n)
    × ((rest : List ℕ) × (n.b.got ++ rest ≡ n.a.wrote))
    × ((rest : List ℕ) × (n.a.got ++ rest ≡ n.b.wrote))
run-Delivers_example =
    run-Delivers json alive lasts 2 0 1 addr_a addr_b addr_b addr_a 6 3 (0 ∷ 0 ∷ []) (0 ∷ 1 ∷ [])
      server talk (λ c. refl) (omega arith) (omega arith) (omega arith)
      (unfold get_next lookup in refl) (unfold get_next lookup in refl) refl
      (omega arith, (tt, (tt, (tt, (tt, (tt, (tt, (tt, tt))))))))

-- A new server, and the same once Alice has connected, and twice.
abbrev empty : Host
empty = record {
  pk = 9 ∷ [];
  sk = [];
  addr = [];
  routes = record { conn = λ c. new_server_conn [] 1; conns = []; outs = []; closing = [] };
  made = 0;
  serving = [];
  lis_done = false;
}

empty-KnowsServed : KnowsServed empty
unfolding get_conn lookup is_served
empty-KnowsServed = record {
  known = λ pk c k. absurd (ground (arith, k));
  made = λ c k. absurd (ground (arith, k));
}

abbrev once : Host
once = (accept (accepts alice 1) empty).1

abbrev twice : Host
twice = (accept (accepts alice 3) once).1

once-KnowsServed : KnowsServed once
once-KnowsServed =
    run-KnowsServed json alive lasts 2 (accepted (accepts alice 1) ∷ []) empty once
      empty-KnowsServed (unfold run step in refl)

run-KnowsServed_example : KnowsServed (close none (finish alive 0 twice)).1
run-KnowsServed_example =
    run-KnowsServed json alive lasts 2
      (accepted (accepts alice 1) ∷ accepted (accepts alice 3) ∷ ended 0 ∷ closed none ∷ []) empty
      (close none (finish alive 0 twice)).1 empty-KnowsServed
      (unfold run step accept is_served in refl)

finish-accept_example :
    (get_conn alice (accept (accepts alice 3) once).1.routes ≡ some 1)
    × (get_conn alice (finish alive 0 (accept (accepts alice 3) once).1).routes ≡ none)
    × (is_served 1 (finish alive 0 (accept (accepts alice 3) once).1).serving ≡ true)
unfolding accept
finish-accept_example =
    finish-accept alive 0 3 alice once once-KnowsServed
      (unfold get_conn accept set_conn lookup insert delete new_server_conn bytes_beq in refl)

-- Close while one connection is served, which then ends.
close-run_example :
    ((pk : PubKey) → get_conn pk (close none once).1.routes ≡ none)
    × ((close_result (close none once).1.serving (close none once).0 ≡ none)
        ↔ ((close none once).1.serving ≢ []))
    × ((u : Host) × (run json alive lasts 2 (ends (close none once).1.serving) (close none once).1
          ≡ some u)
        × (close_result u.serving (close none once).0 ≡ some (ok tt)))
    × ((o : Option Error)
        → (close o (close none once).1 ≡ ((false, none), (close none once).1))
          × (close_result (close none once).1.serving (close o (close none once).1).0
              ≡ some (err already_closed)))
    × (accept fails (close none once).1 ≡ (some (ok tt), (close none once).1))
close-run_example =
    close-run json alive lasts 2 [] once (close none once).1 (unfold accept in refl)
      (unfold run in refl)
