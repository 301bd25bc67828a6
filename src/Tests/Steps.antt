-- ===== src/Tests/Steps.antt =====
-- Concrete steps of the goroutines that a client starts for REQUESTs.
use mathlib.Core.Path.{subst}
use dmsg.Prelude.{ℕ, ◌≡◌, refl, true, false, some, [], ◌∷◌, ◌++◌, arith, lookup, nat_eq}
use dmsg.Frame.{PubKey, request_type}
use dmsg.Transport.Inv.{Holds}
use dmsg.Transport.Handshake.{HandshakePayload, Json, payload_version}
use dmsg.Listener.{Listener, new_listener}
use dmsg.Listener.Ports.{listener}
use dmsg.ClientConn.{ClientConn, new_client_conn}
use dmsg.Listener.Queue.{Inv, new_listener-Inv}
use dmsg.ClientConn.Queues.{HasQueues}
use dmsg.ClientConn.Steps.{Serving, arrives, goes, run}
use dmsg.ClientConn.Steps.Runs.{IsSound, run-IsSound}

abbrev alice : PubKey
alice = 1 ∷ []

abbrev bob : PubKey
bob = 2 ∷ []

abbrev request : HandshakePayload
request = record { version = payload_version; init_pk = alice; resp_pk = bob; port = 80 }

abbrev json : Json
json = record { marshal = λ p. p.init_pk ++ p.resp_pk; unmarshal = λ b. some request }

abbrev shop : Listener
shop = new_listener bob 80

abbrev conn : ClientConn
conn = new_client_conn bob (9 ∷ []) 4 (record { listeners = (80, shop) ∷ [] })

abbrev idle : Serving
idle = record { conn = conn; tasks = [] }

shop-HasQueues : HasQueues conn.pm
unfolding HasQueues new_client_conn listener lookup
shop-HasQueues port l e = subst Inv (found port l e) (new_listener-Inv bob 80)
  where
    found :
        (port : ℕ) (l : Listener)
        → listener port (record { listeners = (80, shop) ∷ [] }) ≡ some l
        → shop ≡ l
    found port l e = ground (arith, e)

idle-IsSound : IsSound idle
unfolding new_client_conn lookup
idle-IsSound = record {
  conn = record { keyed = λ id tp e. absurd (ground arith); shut = refl; queues = shop-HasQueues };
  tasks = tt;
}

-- Two REQUESTs under one id, whose goroutines pass one another.
run-IsSound_example : Holds IsSound (
    run json
      (arrives true [] (request_type, 3, [])
        ∷ arrives false [] (request_type, 3, [])
        ∷ goes true 1
        ∷ goes false 0
        ∷ goes true 1
        ∷ goes true 0
        ∷ goes true 0
        ∷ [])
      idle)
run-IsSound_example =
    run-IsSound json
      (arrives true [] (request_type, 3, [])
        ∷ arrives false [] (request_type, 3, [])
        ∷ goes true 1
        ∷ goes false 0
        ∷ goes true 1
        ∷ goes true 0
        ∷ goes true 0
        ∷ [])
      idle idle-IsSound
