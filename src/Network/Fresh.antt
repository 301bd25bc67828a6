-- ===== src/Network/Fresh.antt =====
-- The network of two transports that have just been set up, and what its runs deliver.
use dmsg.Prelude.{
  ℕ, ◌<◌, ◌≡◌, ◌≢◌, refl, ap, Bool, true, Option, none, some, List, [], ◌++◌, concat, u16_mod,
}
use dmsg.Transport.{Transport, Addr, new_transport, serve}
use dmsg.Transport.Handshake.{Json}
use dmsg.Transport.Inv.{Holds}
use dmsg.Transport.Safety.{new_transport-Inv}
use dmsg.Server.{Server, get_next}
use dmsg.Network.{End, Network, Call, run}
use dmsg.Network.Wire.{wire, pays}
use dmsg.Network.Ends.{IsOpen}
use dmsg.Network.Flow.{Flow}
use dmsg.Server.Routes.{route}
use dmsg.Network.Connected.{Connected, AllShort, run-Connected}

-- A transport that is set up, its handshake sent, and served.
unfoldable pub set_up : Addr → Addr → ℕ → List ℕ → Transport
set_up local remote id seed = (serve (new_transport local remote id seed)).1

unfoldable pub fresh_end : Transport → End
fresh_end tp = record { tp = tp; up = []; down = []; wrote = []; got = [] }

set_up-IsOpen :
    (local remote : Addr) (id : ℕ) (seed : List ℕ)
    → id < u16_mod
    → IsOpen (set_up local remote id seed)
unfolding set_up serve new_transport wire
set_up-IsOpen local remote id seed l =
    let v = new_transport-Inv local remote id seed in
    record {
      inv = record {
        size = v.size;
        held = v.held;
        waiter = v.waiter;
        buf_ch = v.buf_ch;
        in_ch = v.in_ch;
        served = λ e. refl;
        removed = v.removed;
      };
      is_open = refl;
      unsent = refl;
      word = l;
      spawned = tt;
      held = ([], tt, refl);
    }

fresh-Flow : (t u : Transport) → u.buf ≡ [] → Flow (fresh_end t) (fresh_end u)
unfolding fresh_end wire pays
fresh-Flow t u e = record {
  up = [];
  down = [];
  up_fit = tt;
  down_fit = tt;
  up_bytes = refl;
  down_bytes = refl;
  kept = ap (λ b. concat b ++ []) e;
}

-- What a run leaves at the two ends.
unfoldable pub Delivers : Network → Type 0
Delivers n =
    ((rest : List ℕ) × (n.b.got ++ rest ≡ n.a.wrote))
    × ((rest : List ℕ) × (n.a.got ++ rest ≡ n.b.wrote))

Connected-Delivers : (ca cb : ℕ) (n : Network) → Connected ca cb n → Delivers n
unfolding Delivers
Connected-Delivers ca cb n v = ((_, v.a_to_b.kept), (_, v.b_to_a.kept))

Holds-some {ℓ} :
    {A : Type ℓ} (P : A → Type 0) (m : Option A) → Holds P m → (a : A) × (m ≡ some a) × P a
Holds-some P none h = absurd h
Holds-some P (some a) h = (a, refl, h)

module _ (json : Json) (alive ctx : ℕ → Bool) (fuel ca cb : ℕ)
    (local_a remote_a local_b remote_b : Addr) (id_a id_b : ℕ) (seed_a seed_b : List ℕ)
    (s : Server) where
  -- The network of two transports with ids id_a and id_b, just set up, over the server s.
  abbrev pub fresh : Network
  fresh = record {
    a = fresh_end (set_up local_a remote_a id_a seed_a);
    b = fresh_end (set_up local_b remote_b id_b seed_b);
    server = s;
  }

  pub fresh-Connected :
      id_a < u16_mod
      → id_b < u16_mod
      → get_next ca id_a s ≡ some (route cb id_b)
      → get_next cb id_b s ≡ some (route ca id_a)
      → s.outs ≡ []
      → Connected ca cb fresh
  unfolding fresh_end set_up serve new_transport
  fresh-Connected la lb ra rb quiet = record {
    a_open = set_up-IsOpen local_a remote_a id_a seed_a la;
    b_open = set_up-IsOpen local_b remote_b id_b seed_b lb;
    a_to_b =
        fresh-Flow (set_up local_a remote_a id_a seed_a) (set_up local_b remote_b id_b seed_b) refl;
    b_to_a =
        fresh-Flow (set_up local_b remote_b id_b seed_b) (set_up local_a remote_a id_a seed_a) refl;
    route_a = ra;
    route_b = rb;
    quiet = quiet;
  }

  -- Two transports that have just been set up, under 16-bit ids that the server has routes for from
  -- each to the other, on different connections that take writes. Whatever the order of their steps
  -- and the server's, in which no end is closed and each Write fits into a frame, the run does not
  -- panic or stop, and at each end the bytes that have been read are the first of the bytes that have
  -- been written at the other end, in order.
  pub run-Delivers :
      (calls : List Call)
      → ((c : ℕ) → alive c ≡ true)
      → ca ≢ cb
      → id_a < u16_mod
      → id_b < u16_mod
      → get_next ca id_a s ≡ some (route cb id_b)
      → get_next cb id_b s ≡ some (route ca id_a)
      → s.outs ≡ []
      → AllShort calls
      → (n : Network) × (run json alive ctx fuel ca cb calls fresh ≡ some n)
        × ((rest : List ℕ) × (n.b.got ++ rest ≡ n.a.wrote))
        × ((rest : List ℕ) × (n.a.got ++ rest ≡ n.b.wrote))
  unfolding Delivers
  run-Delivers calls all apart la lb ra rb quiet short =
      let v = fresh-Connected la lb ra rb quiet in
      let (n, e, w) =
        Holds-some (Connected ca cb) (run json alive ctx fuel ca cb calls fresh)
          (run-Connected json alive ctx fuel ca cb all apart calls fresh short v) in
      let (to_b, to_a) = Connected-Delivers ca cb n w in (n, e, to_b, to_a)
