-- ===== src/Network/Connected.antt =====
-- A transport that is open at both ends, with its two routes at the server.
use mathlib.Core.Path.{subst}
use dmsg.Prelude.{
  ℕ, ◌<◌, ◌≡◌, ◌≢◌, inl, inr, refl, sym, ap, ◌∙◌, Bool, true, false, none, some, List, [], ◌∷◌,
  ◌++◌, ◌==◌, arith, append-nil, u16_mod,
}
use dmsg.Frame.{make_frame, close_type}
use dmsg.Frame.Codec.{disassemble-make_frame}
use dmsg.Transport.Inv.{Holds, Holds-bind}
use dmsg.Transport.Handshake.{Json}
use dmsg.Server.{Server, get_next, is_forwarded}
use dmsg.Server.Routes.{serve_frame-forward, route}
use dmsg.Network.{
  End, Network, act, written_to, deliver, served, serve_turn, left, Call, at_a, at_b, serves_a,
  serves_b, step, run,
}
use dmsg.Network.Wire.{Piece, wire, IsFit, AllFit, read_frame-wire, read_frame_empty}
use dmsg.Network.Ends.{IsOpen}
use dmsg.Network.Acted.{Acted}
use dmsg.Network.Acts.{act-Acted, IsShort}
use dmsg.Network.Flow.{Flow, Flow-source, Flow-target, Flow-passed, Flow-beside}

-- Both ends are open, the routes lead to each other, the server has written all that it had to, and
-- each direction has lost nothing.
pub record Connected (ca cb : ℕ) (n : Network) : Type 0 where
  pub a_open : IsOpen n.a.tp
  pub b_open : IsOpen n.b.tp
  pub a_to_b : Flow n.a n.b
  pub b_to_a : Flow n.b n.a
  pub route_a : get_next ca n.a.tp.id n.server ≡ some (route cb n.b.tp.id)
  pub route_b : get_next cb n.b.tp.id n.server ≡ some (route ca n.a.tp.id)
  pub quiet : n.server.outs ≡ []

module _ (ca cb : ℕ) where
  a-Connected :
      (n : Network) (e : End) (v : Connected ca cb n)
      → Acted v.b_to_a.down n.a e
      → Connected ca cb (record n { a = e })
  a-Connected n e v h = record {
    a_open = h.tp_open;
    b_open = v.b_open;
    a_to_b = Flow-source n.a e n.b v.a_to_b v.b_to_a.down h;
    b_to_a = Flow-target n.b n.a e v.b_to_a h;
    route_a = ap (λ i. get_next ca i n.server) h.id ∙ v.route_a;
    route_b = v.route_b ∙ ap (λ i. some (route ca i)) (sym h.id);
    quiet = v.quiet;
  }

  b-Connected :
      (n : Network) (e : End) (v : Connected ca cb n)
      → Acted v.a_to_b.down n.b e
      → Connected ca cb (record n { b = e })
  b-Connected n e v h = record {
    a_open = v.a_open;
    b_open = h.tp_open;
    a_to_b = Flow-target n.a n.b e v.a_to_b h;
    b_to_a = Flow-source n.b e n.a v.b_to_a v.a_to_b.down h;
    route_a = v.route_a ∙ ap (λ i. some (route cb i)) (sym h.id);
    route_b = ap (λ i. get_next cb i n.server) h.id ∙ v.route_b;
    quiet = v.quiet;
  }

abbrev pub IsShortCall : Call → Type 0
IsShortCall (at_a c) = IsShort c
IsShortCall (at_b c) = IsShort c
IsShortCall _ = Unit {0}

abbrev pub AllShort : List Call → Type 0
AllShort [] = Unit {0}
AllShort (c ∷ cs) = IsShortCall c × AllShort cs

-- A piece is one of the frames that the server passes on, and not a CLOSE.
fit_types :
    (ft : ℕ) (p : List ℕ) → IsFit (ft, p) → (is_forwarded ft ≡ true) × ((ft == close_type) ≡ false)
unfolding is_forwarded
fit_types ft p (l, inl (e, k)) = ground arith
fit_types ft p (l, inr (e, k)) = ground arith

module _ (json : Json) (alive ctx : ℕ → Bool) (fuel ca cb : ℕ) (all : (c : ℕ) → alive c ≡ true)
    (apart : ca ≢ cb) where
  -- The server's turn for a stream that is empty, and for one that is not.
  served_none :
      (c id : ℕ) (s : Server)
      → serve_turn json alive ctx fuel ca cb c (wire id []) s ≡ some (s, none)
  unfolding serve_turn served
  served_none c id s = ground (arith, read_frame_empty id)

  served_one :
      (c id d other ft : ℕ) (p : List ℕ) (rest : List Piece) (s : Server)
      → id < u16_mod
      → IsFit (ft, p)
      → get_next c id s ≡ some (route d other)
      → serve_turn json alive ctx fuel ca cb c (wire id ((ft, p) ∷ rest)) s
        ≡ some (record s { outs = s.outs ++ (d, make_frame ft other p) ∷ [] }, some (wire id rest))
  unfolding serve_turn served
  served_one c id d other ft p rest s word fit r =
      let (passed, stays) = fit_types ft p fit in
      ground (
        arith,
        read_frame-wire id ft p rest fit,
        disassemble-make_frame ft id p word,
        serve_frame-forward json alive ctx fuel c id d other ft p s passed (all d) r,
        stays,
      )

  passed_a :
      (n : Network) (ft : ℕ) (p : List ℕ) (rest : List Piece)
      → Connected ca cb n
      → n.a.up ≡ wire n.a.tp.id ((ft, p) ∷ rest)
      → IsFit (ft, p)
      → step json alive ctx fuel ca cb serves_a n
        ≡ some (record n {
          a = record n.a { up = wire n.a.tp.id rest };
          b = record n.b { down = n.b.down ++ make_frame ft n.b.tp.id p };
          server = record n.server { outs = [] };
        })
  unfolding step deliver left written_to
  passed_a n ft p rest v here fit = ground (
    arith,
    ap (λ x. serve_turn json alive ctx fuel ca cb ca x n.server) here,
    served_one ca n.a.tp.id cb n.b.tp.id ft p rest n.server v.a_open.word fit v.route_a,
    v.quiet,
    append-nil n.a.down,
    append-nil (make_frame ft n.b.tp.id p),
  )

  empty_a :
      (n : Network)
      → Connected ca cb n
      → n.a.up ≡ wire n.a.tp.id []
      → step json alive ctx fuel ca cb serves_a n ≡ some n
  unfolding step deliver left written_to
  empty_a n v here = ground (
    arith,
    ap (λ x. serve_turn json alive ctx fuel ca cb ca x n.server) here,
    served_none ca n.a.tp.id n.server,
    v.quiet,
    append-nil n.a.down,
    append-nil n.b.down,
  )

  passed_b :
      (n : Network) (ft : ℕ) (p : List ℕ) (rest : List Piece)
      → Connected ca cb n
      → n.b.up ≡ wire n.b.tp.id ((ft, p) ∷ rest)
      → IsFit (ft, p)
      → step json alive ctx fuel ca cb serves_b n
        ≡ some (record n {
          b = record n.b { up = wire n.b.tp.id rest };
          a = record n.a { down = n.a.down ++ make_frame ft n.a.tp.id p };
          server = record n.server { outs = [] };
        })
  unfolding step deliver left written_to
  passed_b n ft p rest v here fit = ground (
    arith,
    ap (λ x. serve_turn json alive ctx fuel ca cb cb x n.server) here,
    served_one cb n.b.tp.id ca n.a.tp.id ft p rest n.server v.b_open.word fit v.route_b,
    v.quiet,
    append-nil n.b.down,
    append-nil (make_frame ft n.a.tp.id p),
  )

  empty_b :
      (n : Network)
      → Connected ca cb n
      → n.b.up ≡ wire n.b.tp.id []
      → step json alive ctx fuel ca cb serves_b n ≡ some n
  unfolding step deliver left written_to
  empty_b n v here = ground (
    arith,
    ap (λ x. serve_turn json alive ctx fuel ca cb cb x n.server) here,
    served_none cb n.b.tp.id n.server,
    v.quiet,
    append-nil n.b.down,
    append-nil n.a.down,
  )

  get_next-quiet : (c i : ℕ) (s : Server) → get_next c i (record s { outs = [] }) ≡ get_next c i s
  unfolding get_next
  get_next-quiet c i s = refl

  passed_a-Connected :
      (n : Network) (v : Connected ca cb n) (ups : List Piece)
      → v.a_to_b.up ≡ ups
      → Holds (Connected ca cb) (step json alive ctx fuel ca cb serves_a n)
  passed_a-Connected n v [] k = rw (empty_a n v (v.a_to_b.up_bytes ∙ ap (wire n.a.tp.id) k)) v
  passed_a-Connected n v ((ft, p) ∷ rest) k =
      let fits : AllFit ((ft, p) ∷ rest) = subst AllFit k v.a_to_b.up_fit in
      rw (passed_a n ft p rest v (v.a_to_b.up_bytes ∙ ap (wire n.a.tp.id) k) fits.0) (record {
        a_open = v.a_open;
        b_open = v.b_open;
        a_to_b = Flow-passed n.a n.b v.a_to_b ft p rest k;
        b_to_a =
            Flow-beside n.b n.a (n.b.down ++ make_frame ft n.b.tp.id p) (wire n.a.tp.id rest)
              v.b_to_a;
        route_a = get_next-quiet ca n.a.tp.id n.server ∙ v.route_a;
        route_b = get_next-quiet cb n.b.tp.id n.server ∙ v.route_b;
        quiet = refl;
      })

  passed_b-Connected :
      (n : Network) (v : Connected ca cb n) (ups : List Piece)
      → v.b_to_a.up ≡ ups
      → Holds (Connected ca cb) (step json alive ctx fuel ca cb serves_b n)
  passed_b-Connected n v [] k = rw (empty_b n v (v.b_to_a.up_bytes ∙ ap (wire n.b.tp.id) k)) v
  passed_b-Connected n v ((ft, p) ∷ rest) k =
      let fits : AllFit ((ft, p) ∷ rest) = subst AllFit k v.b_to_a.up_fit in
      rw (passed_b n ft p rest v (v.b_to_a.up_bytes ∙ ap (wire n.b.tp.id) k) fits.0) (record {
        a_open = v.a_open;
        b_open = v.b_open;
        a_to_b =
            Flow-beside n.a n.b (n.a.down ++ make_frame ft n.a.tp.id p) (wire n.b.tp.id rest)
              v.a_to_b;
        b_to_a = Flow-passed n.b n.a v.b_to_a ft p rest k;
        route_a = get_next-quiet ca n.a.tp.id n.server ∙ v.route_a;
        route_b = get_next-quiet cb n.b.tp.id n.server ∙ v.route_b;
        quiet = refl;
      })

  step-Connected :
      (c : Call) (n : Network)
      → IsShortCall c
      → Connected ca cb n
      → Holds (Connected ca cb) (step json alive ctx fuel ca cb c n)
  step-Connected (at_a c) n h v =
      unfold step in
      Holds-bind (Acted v.b_to_a.down n.a) (Connected ca cb) (act c n.a)
        (λ e. some (record n { a = e }))
        (act-Acted c v.b_to_a.down n.a h v.a_open v.b_to_a.down_fit v.b_to_a.down_bytes)
        (λ e k. a-Connected ca cb n e v k)
  step-Connected (at_b c) n h v =
      unfold step in
      Holds-bind (Acted v.a_to_b.down n.b) (Connected ca cb) (act c n.b)
        (λ e. some (record n { b = e }))
        (act-Acted c v.a_to_b.down n.b h v.b_open v.a_to_b.down_fit v.a_to_b.down_bytes)
        (λ e k. b-Connected ca cb n e v k)
  step-Connected serves_a n h v = passed_a-Connected n v v.a_to_b.up refl
  step-Connected serves_b n h v = passed_b-Connected n v v.b_to_a.up refl

  -- In any order of steps of the two clients and the server, in which no end is closed and each Write
  -- fits into a frame, nothing panics, neither end closes, and the routes stay. At each end the bytes
  -- read so far, those in the read buffer and those of the frames still on their way are together the
  -- bytes written at the other end: in order, none lost and none doubled.
  pub run-Connected :
      (cs : List Call) (n : Network)
      → AllShort cs
      → Connected ca cb n
      → Holds (Connected ca cb) (run json alive ctx fuel ca cb cs n)
  unfolding run
  run-Connected [] n h v = v
  run-Connected (c ∷ cs) n h v =
      Holds-bind (Connected ca cb) (Connected ca cb) (step json alive ctx fuel ca cb c n)
        (run json alive ctx fuel ca cb cs) (step-Connected c n h.0 v)
        (λ m k. run-Connected cs m h.1 k)
