-- ===== src/Server/Clients.antt =====
-- server.go: the clients that a server can forward to, over its life.
use dmsg.Prelude.{
  ℕ, ◌<◌, ◌≡◌, sym, ap, ◌∙◌, inl, inr, arith, Bool, true, false, Bool-cases, Option-cases, Option,
  none, some, List, [], ◌∷◌, if◌then◌else◌, ◌==◌, lookup, lookup-insert, lookup-delete, nat_eq,
  bytes_eq, bytes_beq, bytes_beq_sound, bytes_beq_refl, Error,
}
use mathlib.Core.Path.{subst}
use dmsg.Frame.{make_frame, ok_type, PubKey, make_frame}
use dmsg.Transport.Handshake.{Json}
use dmsg.Server.{
  Server, new_server_conn, put, get_conn, set_conn, del_conn, serve_frame, write_ok, finish_serving,
}
use dmsg.Server.Lifecycle.{
  Host, Accepted, fails, accepts, accept, without, finish, go_on, begin, frame, close, Call,
  accepted, begun, framed, ended, closed, step, run, is_served,
}
use dmsg.Server.Same.{Same, write_frame-Same, serve_frame-Same, finish_serving-Same}

-- Each client that the server can forward to has a connection that is its own and is served; each
-- connection that is served has been made.
pub record KnowsServed (h : Host) : Type 0 where
  pub known :
      (pk : PubKey) (c : ℕ)
      → get_conn pk h.routes ≡ some c
      → (is_served c h.serving ≡ true) × ((h.routes.conn c).remote_client ≡ pk)
  pub made : (c : ℕ) → is_served c h.serving ≡ true → c < h.made

Same-KnowsServed :
    (h : Host) (s : Server)
    → Same h.routes s
    → KnowsServed h
    → KnowsServed (record h { routes = s })
unfolding get_conn
Same-KnowsServed h s e v = record {
  known = λ pk c k.
      let (a, b) = v.known pk c (ap (λ x. lookup pk x) (sym e.conns) ∙ k) in
      (a, e.remote_client c ∙ b);
  made = v.made;
}

pub is_served-without :
    (c d : ℕ) (ds : List ℕ)
    → is_served d (without c ds) ≡ (if c == d then false else is_served d ds)
unfolding is_served without
is_served-without c d [] = ground arith
is_served-without c d (i ∷ ds) = ground (arith, is_served-without c d ds)

finish-KnowsServed :
    (alive : ℕ → Bool) (c : ℕ) (h : Host) → KnowsServed h → KnowsServed (finish alive c h)
unfolding finish del_conn get_conn
finish-KnowsServed alive c h v =
    let e = finish_serving-Same alive c h.routes in
    record {
      known = λ pk d k.
          let t = finish_serving alive c h.routes in
          let gone = (h.routes.conn c).remote_client in
          let del = lookup-delete gone pk t.conns in
          elim (Bool-cases (bytes_beq gone pk)) [
            | inl b ↦ absurd (ground (arith, k, del, b))
            | inr b ↦
                let (sv, rc) =
                  v.known pk d (ap (λ x. lookup pk x) (sym e.conns) ∙ ground (arith, k, del, b)) in
                elim (Bool-cases (c == d)) [
                  | inl q ↦
                      let at_d : gone ≡ pk =
                        ap (λ x. (h.routes.conn x).remote_client) (ground (arith, q)) ∙ rc in
                      absurd (ground (arith, b, bytes_beq_refl pk, ap (λ x. bytes_beq x pk) at_d))
                  | inr q ↦ (
                    ground (arith, q, sv, is_served-without c d h.serving),
                    e.remote_client d ∙ rc,
                  )
                ]
          ];
      made = λ d k. v.made d (ground (arith, k, is_served-without c d h.serving));
    }

accept-KnowsServed : (a : Accepted) (h : Host) → KnowsServed h → KnowsServed (accept a h).1
unfolding accept set_conn get_conn new_server_conn is_served
accept-KnowsServed fails h v = v
accept-KnowsServed (accepts pk resp_id) h v = record {
  known = λ q d k.
      let s = put h.made (new_server_conn pk resp_id) h.routes in
      let ins = lookup-insert (s.conn h.made).remote_client q h.made s.conns in
      elim (Bool-cases (bytes_beq pk q)) [
        | inl b ↦ (ground (arith, k, ins, b), ground (arith, k, ins, b, bytes_beq_sound pk q))
        | inr b ↦
            let (sv, rc) = v.known q d (ground (arith, k, ins, b)) in
            (ground (arith, sv), ground (arith, sv, rc, v.made d))
      ];
  made = λ d k. ground (arith, k, v.made d);
}

go_on-KnowsServed :
    (alive : ℕ → Bool) (c : ℕ) (h : Host) (r : Bool × Server)
    → Same h.routes r.1
    → KnowsServed h
    → KnowsServed (go_on alive c h r)
unfolding go_on
go_on-KnowsServed alive c h (true, s) e v = Same-KnowsServed h s e v
go_on-KnowsServed alive c h (false, s) e v =
    finish-KnowsServed alive c (record h { routes = s }) (Same-KnowsServed h s e v)

close-KnowsServed : (e : Option Error) (h : Host) → KnowsServed h → KnowsServed (close e h).1
unfolding close get_conn lookup
close-KnowsServed none h v = elim (Bool-cases h.lis_done) [
  | inl b ↦ record {
    known = λ pk c k. ground (arith, b, k, v.known pk c);
    made = λ c k. ground (arith, b, k, v.made c);
  }
  | inr b ↦ record {
    known = λ pk c k. absurd (ground (arith, b, k));
    made = λ c k. ground (arith, b, k, v.made c);
  }
]
close-KnowsServed (some e) h v = elim (Bool-cases h.lis_done) [
  | inl b ↦ record {
    known = λ pk c k. ground (arith, b, k, v.known pk c);
    made = λ c k. ground (arith, b, k, v.made c);
  }
  | inr b ↦ record {
    known = λ pk c k. ground (arith, b, k, v.known pk c);
    made = λ c k. ground (arith, b, k, v.made c);
  }
]

module _ (json : Json) (alive ctx : ℕ → Bool) (fuel : ℕ) where
  step-KnowsServed :
      (call : Call) (h t : Host)
      → KnowsServed h
      → step json alive ctx fuel call h ≡ some t
      → KnowsServed t
  unfolding step begin frame write_ok
  step-KnowsServed (accepted a) h t v e =
      subst KnowsServed (ground (arith, e)) (accept-KnowsServed a h v)
  step-KnowsServed (begun c) h t v e = elim (Bool-cases (is_served c h.serving)) [
    | inl b ↦ subst KnowsServed (ground (arith, e, b)) (
        go_on-KnowsServed alive c h (write_ok alive c h.routes)
          (write_frame-Same alive c (make_frame ok_type 0 []) h.routes) v)
    | inr b ↦ subst KnowsServed (ground (arith, e, b)) v
  ]
  step-KnowsServed (framed c f) h t v e = elim (Bool-cases (is_served c h.serving)) [
    | inr b ↦ subst KnowsServed (ground (arith, e, b)) v
    | inl b ↦ elim (Option-cases (serve_frame json alive ctx fuel c f h.routes)) [
      | inl n ↦ absurd (ground (arith, e, b, n))
      | inr (r, n) ↦
          subst KnowsServed (ground (arith, e, b, n)) (
            go_on-KnowsServed alive c h r (serve_frame-Same json alive ctx fuel c f h.routes r n) v)
    ]
  ]
  step-KnowsServed (ended c) h t v e = elim (Bool-cases (is_served c h.serving)) [
    | inl b ↦ subst KnowsServed (ground (arith, e, b)) (finish-KnowsServed alive c h v)
    | inr b ↦ subst KnowsServed (ground (arith, e, b)) v
  ]
  step-KnowsServed (closed o) h t v e =
      subst KnowsServed (ground (arith, e)) (close-KnowsServed o h v)

  -- Over the life of a server, every client that it can forward to, by the key of the client, has a
  -- connection of its own that is served: whatever connections are accepted, frames are served and
  -- writes fail, and connections end, and also once the server is closed.
  pub run-KnowsServed :
      (calls : List Call) (h t : Host)
      → KnowsServed h
      → run json alive ctx fuel calls h ≡ some t
      → KnowsServed t
  unfolding run
  run-KnowsServed [] h t v e = subst KnowsServed (ground (arith, e)) v
  run-KnowsServed (call ∷ calls) h t v e = elim (Option-cases (step json alive ctx fuel call h)) [
    | inl n ↦ absurd (ground (arith, e, n))
    | inr (u, n) ↦ run-KnowsServed calls u t (step-KnowsServed call h u v n) (ground (arith, e, n))
  ]

get_conn-finish :
    (alive : ℕ → Bool) (c : ℕ) (pk : PubKey) (h : Host)
    → get_conn pk (finish alive c h).routes
      ≡ (if bytes_beq (h.routes.conn c).remote_client pk then none else get_conn pk h.routes)
unfolding finish del_conn get_conn
get_conn-finish alive c pk h =
    let e = finish_serving-Same alive c h.routes in
    ground (
      arith,
      lookup-delete (h.routes.conn c).remote_client pk (finish_serving alive c h.routes).conns,
      ap (λ x. lookup pk x) e.conns,
    )

-- A client that connects again before its old connection has ended: at first the server forwards to
-- the new connection, and then the end of the old one takes the client away, though the new
-- connection is still served.
pub finish-accept :
    (alive : ℕ → Bool) (c resp_id : ℕ) (pk : PubKey) (h : Host)
    → KnowsServed h
    → get_conn pk h.routes ≡ some c
    → (get_conn pk (accept (accepts pk resp_id) h).1.routes ≡ some h.made)
      × (get_conn pk (finish alive c (accept (accepts pk resp_id) h).1).routes ≡ none)
      × (is_served h.made (finish alive c (accept (accepts pk resp_id) h).1).serving ≡ true)
unfolding finish accept set_conn del_conn get_conn new_server_conn is_served
finish-accept alive c resp_id pk h v k =
    let (sv, rc) = v.known pk c k in
    let s = put h.made (new_server_conn pk resp_id) h.routes in
    let ins = lookup-insert (s.conn h.made).remote_client pk h.made s.conns in
    let del = get_conn-finish alive c pk (accept (accepts pk resp_id) h).1 in
    (
      ground (arith, ins, bytes_beq_refl pk),
      ground (arith, del, rc, bytes_beq_refl pk),
      ground (arith, v.made c sv, is_served-without c h.made (h.made ∷ h.serving)),
    )
