-- ===== src/Tests/Dials.antt =====
-- A concrete DialTransport over a server, and a run of the transport that it gives.
use dmsg.Prelude.{
  ℕ, zero, suc, ◌≡◌, refl, Bool, true, false, some, List, [], ◌∷◌, ◌++◌, arith, lookup, nat_eq,
  bytes_eq, bytes_beq, replicate,
}
use dmsg.Frame.{PubKey, is_initiator_id}
use dmsg.Transport.{Addr}
use dmsg.Transport.Handshake.{HandshakePayload, Json, payload_version}
use dmsg.Listener.{Listener, new_listener}
use dmsg.Listener.Ports.{listener}
use dmsg.ClientConn.{ClientConn, new_client_conn, get_tp, live}
use dmsg.Server.{Server, ServerConn, new_server_conn, get_conn, get_next}
use dmsg.Network.{Network, act, reads, writes, flushes, arrives, at_a, at_b, serves_a, serves_b}
use dmsg.Network.Fresh.{Delivers}
use dmsg.Network.Dial.{Dialled, dial}
use dmsg.Network.Dial.Connects.{IsConnected, joined, dial-run-Delivers}

abbrev alice : PubKey
alice = replicate 33 1

abbrev bob : PubKey
bob = replicate 33 2

abbrev addr_a : Addr
addr_a = record { pk = alice; port = 0 }

abbrev addr_b : Addr
addr_b = record { pk = bob; port = 80 }

abbrev request : HandshakePayload
request = record { version = payload_version; init_pk = alice; resp_pk = bob; port = 80 }

abbrev json : Json
json = record { marshal = λ p. p.init_pk ++ p.resp_pk; unmarshal = λ b. some request }

abbrev alive : ℕ → Bool
alive c = true

abbrev lasts : ℕ → Bool
lasts i = false

-- The server's connections with Alice, 0, and with Bob, 1, without a route.
abbrev client : ℕ → ServerConn
client zero = new_server_conn alice 1
client (suc c) = new_server_conn bob 65535

abbrev server : Server
server = record { conn = client; conns = (alice, 0) ∷ (bob, 1) ∷ []; outs = []; closing = [] }

-- Bob listens on port 80.
abbrev at_80 : Listener
at_80 = new_listener bob 80

abbrev conn_a : ClientConn
conn_a = new_client_conn alice (9 ∷ []) 6 (record { listeners = [] })

abbrev conn_b : ClientConn
conn_b = new_client_conn bob (9 ∷ []) 4 (record { listeners = (80, at_80) ∷ [] })

-- Alice writes three bytes, which Bob reads in two reads.
abbrev talk : List dmsg.Network.Call
talk =
    at_a (writes (7 ∷ 8 ∷ 9 ∷ []))
    ∷ serves_a
    ∷ at_b arrives
    ∷ at_b (reads 2)
    ∷ at_b (reads 2)
    ∷ at_b (flushes 0)
    ∷ serves_b
    ∷ at_a arrives
    ∷ []

dial-run-Delivers_example :
    (d : Dialled) × (id : ℕ) × (rid : ℕ) × (n : Network) × (dial json alive lasts 1 0 1 80
        (0 ∷ 0 ∷ [])
        (0 ∷ 1 ∷ [])
        conn_a
        conn_b
        server
      ≡ some d)
    × (c : IsConnected 0 1 id rid addr_a addr_b (0 ∷ 0 ∷ []) (0 ∷ 1 ∷ []) d) × (dmsg.Network.run
          json alive lasts 1 0 1 talk
          (joined c.tp_a c.tp_b d.server)
        ≡ some n)
    × Delivers n
unfolding new_client_conn new_server_conn new_listener get_tp live lookup get_conn get_next
    is_initiator_id listener bytes_beq
dial-run-Delivers_example =
    dial-run-Delivers json alive lasts 1 0 1 80 (0 ∷ 0 ∷ []) (0 ∷ 1 ∷ []) conn_a conn_b server at_80
      0 0 (λ c. refl) (λ n. refl) (omega arith) refl (omega arith) refl refl refl (omega arith) refl
      (omega arith) refl refl refl (omega arith) refl (omega arith) refl (λ n e. refl) refl refl
      refl refl refl (omega arith) talk (omega arith, (tt, (tt, (tt, (tt, (tt, (tt, (tt, tt))))))))
