-- ===== src/Tests/Endings.antt =====
-- A concrete close of a transport, from one end to the other.
use dmsg.Prelude.{
  ℕ, zero, suc, ◌≡◌, refl, Bool, true, false, ◌&&◌, ◌||◌, none, some, [], ◌∷◌, ◌++◌, arith, lookup,
  nat_eq, if◌then◌else◌, ◌==◌,
}
use dmsg.Frame.{PubKey}
use dmsg.Transport.{Addr}
use dmsg.Transport.Handshake.{Json}
use dmsg.Server.{Server, ServerConn, NextConn, get_next}
use dmsg.Network.{End, Network, run, serves_a, at_b, arrives}
use dmsg.Network.Fresh.{fresh, fresh-Connected}
use dmsg.Network.Closing.{hang_up, hang_up-run}

abbrev alice : PubKey
alice = 1 ∷ []

abbrev bob : PubKey
bob = 2 ∷ []

abbrev json : Json
json = record { marshal = λ p. p.init_pk ++ p.resp_pk; unmarshal = λ b. none }

abbrev lasts : ℕ → Bool
lasts i = false

-- Only the connection 0 takes writes.
abbrev half : ℕ → Bool
half zero = true
half (suc c) = false

abbrev all : ℕ → Bool
all c = true

abbrev to_b : NextConn
to_b = record { conn = 1; id = 3 }

abbrev to_c : NextConn
to_c = record { conn = 2; id = 5 }

abbrev client : ℕ → ServerConn
client zero = record {
  remote_client = alice;
  next_resp_id = 1;
  next_conns = (6, to_b) ∷ (8, to_c) ∷ [];
}
client (suc c) = record {
  remote_client = bob;
  next_resp_id = 5;
  next_conns = (3, record { conn = 0; id = 6 }) ∷ [];
}

abbrev server : Server
server = record { conn = client; conns = (alice, 0) ∷ (bob, 1) ∷ []; outs = []; closing = [] }

abbrev addr_a : Addr
addr_a = record { pk = alice; port = 0 }

abbrev addr_b : Addr
addr_b = record { pk = bob; port = 80 }

abbrev talk : Network
talk = fresh json all lasts 2 0 1 addr_a addr_b addr_b addr_a 6 3 (0 ∷ 0 ∷ []) (0 ∷ 1 ∷ []) server

hang_up-run_example :
    (a : End) × (t : Network) × (hang_up talk.a ≡ some a)
    × (run json all lasts 2 0 1 (serves_a ∷ at_b arrives ∷ []) (record talk { a = a }) ≡ some t)
    × (a.tp.done ≡ true)
    × (t.b.tp.done ≡ true)
    × (t.b.tp.buf ≡ talk.b.tp.buf)
    × (t.b.up ≡ talk.b.up)
    × (t.a.down ≡ talk.a.down)
    × ((c i : ℕ)
        → get_next c i t.server ≡ (
            if (0 == c && talk.a.tp.id == i) || (1 == c && talk.b.tp.id == i)
            then none
            else get_next c i talk.server))
unfolding get_next lookup dmsg.Network.Fresh.fresh_end
hang_up-run_example =
    hang_up-run json all lasts 2 0 1 (λ c. refl) talk (omega arith)
      (fresh-Connected json all lasts 2 0 1 addr_a addr_b addr_b addr_a 6 3 (0 ∷ 0 ∷ [])
        (0 ∷ 1 ∷ []) server (omega arith) (omega arith) refl refl refl)
      refl refl
