-- ===== src/Server/Same.antt =====
-- server.go: what the frames that a server serves leave of its connections.
use dmsg.Prelude.{
  ℕ, ◌≡◌, refl, sym, ap, ◌∙◌, inl, inr, arith, Bool, true, false, Bool-cases, Option-cases, Option,
  none, some, List, [], ◌∷◌, if◌then◌else◌, ◌==◌, insert, delete, nat_eq, bytes_eq, bytes_beq,
}
use dmsg.Frame.{Frame, make_frame, request_type, close_type}
use dmsg.Transport.Handshake.{Json}
use dmsg.Server.{
  Server, ServerConn, NextConn, put, get_conn, get_next, set_next, del_next, write_frame,
  close_failed, write_next, probe, added, add_next, forward_frame, link, handle_request, del_chan,
  after_request, after_forward, is_forwarded, serve_frame, close_routes, finish_serving,
}

-- The same connections, each with its client.
pub record Same (s t : Server) : Type 0 where
  pub conns : t.conns ≡ s.conns
  pub remote_client : (c : ℕ) → (t.conn c).remote_client ≡ (s.conn c).remote_client

Same-trans : (s t u : Server) → Same s t → Same t u → Same s u
Same-trans s t u a b = record {
  conns = b.conns ∙ a.conns;
  remote_client = λ c. b.remote_client c ∙ a.remote_client c;
}

Same-refl : (s : Server) → Same s s
Same-refl s = record { conns = refl; remote_client = λ c. refl }

put-Same :
    (c : ℕ) (sc : ServerConn) (s : Server)
    → sc.remote_client ≡ (s.conn c).remote_client
    → Same s (put c sc s)
put-Same c sc s e = record {
  conns = refl;
  remote_client = λ d. ground (arith, e, ap (λ x. (s.conn x).remote_client));
}

set_next-Same : (c id : ℕ) (r : NextConn) (s : Server) → Same s (set_next c id r s)
unfolding set_next
set_next-Same c id r s =
    put-Same c (record (s.conn c) { next_conns = insert id r (s.conn c).next_conns }) s refl

del_next-Same : (c id : ℕ) (s : Server) → Same s (del_next c id s)
unfolding del_next
del_next-Same c id s =
    put-Same c (record (s.conn c) { next_conns = delete id (s.conn c).next_conns }) s refl

pub write_frame-Same :
    (alive : ℕ → Bool) (c : ℕ) (f : Frame) (s : Server) → Same s (write_frame alive c f s).1
unfolding write_frame
write_frame-Same alive c f s = elim (Bool-cases (alive c)) [
  | inl b ↦ record { conns = ground (arith, b); remote_client = λ d. ground (arith, b) }
  | inr b ↦ record { conns = ground (arith, b); remote_client = λ d. ground (arith, b) }
]

close_failed-Same :
    (c : ℕ) (s : Server) (r : Bool × Server) → Same s r.1 → Same s (close_failed c r).1
unfolding close_failed
close_failed-Same c s (true, t) h = h
close_failed-Same c s (false, t) h = record { conns = h.conns; remote_client = h.remote_client }

write_next-Same :
    (alive : ℕ → Bool) (r : NextConn) (ft : ℕ) (p : List ℕ) (s : Server)
    → Same s (write_next alive r ft p s).1
unfolding write_next
write_next-Same alive r ft p s =
    close_failed-Same r.conn s (write_frame alive r.conn (make_frame ft r.id p) s)
      (write_frame-Same alive r.conn (make_frame ft r.id p) s)

added-Same :
    (c : ℕ) (r : NextConn) (found : Option ℕ × ℕ) (s : Server) → Same s (added c r found s).1
unfolding added
added-Same c r (none, next) s = put-Same c (record (s.conn c) { next_resp_id = next }) s refl
added-Same c r (some id, next) s =
    put-Same c
      (record (s.conn c) { next_resp_id = next; next_conns = insert id r (s.conn c).next_conns }) s
      refl

link-Same :
    (alive : ℕ → Bool) (c id resp : ℕ) (p : List ℕ) (s : Server) (r : Option ℕ × Server)
    → Same s r.1
    → Same s (link alive c id resp p r).1
unfolding link
link-Same alive c id resp p s (none, t) h = h
link-Same alive c id resp p s (some i, t) h =
    let next : NextConn = record { conn = resp; id = i } in
    Same-trans s t _ h (
      Same-trans t (set_next c id next t) _ (set_next-Same c id next t)
        (write_next-Same alive next request_type p (set_next c id next t)))

del_chan-Same :
    (alive : ℕ → Bool) (c id why : ℕ) (s : Server) → Same s (del_chan alive c id why s).1
unfolding del_chan
del_chan-Same alive c id why s =
    Same-trans s (del_next c id s) _ (del_next-Same c id s)
      (write_frame-Same alive c (make_frame close_type id (why ∷ [])) (del_next c id s))

after_request-Same :
    (alive : ℕ → Bool) (c id : ℕ) (s : Server) (r : Bool × Server)
    → Same s r.1
    → Same s (after_request alive c id r).1
unfolding after_request
after_request-Same alive c id s (true, t) h = h
after_request-Same alive c id s (false, t) h = Same-trans s t _ h (del_chan-Same alive c id 0 t)

closed-Same :
    (b : Bool) (c id d i : ℕ) (s : Server)
    → Same s (if b then del_next d i (del_next c id s) else s)
closed-Same true c id d i s =
    Same-trans s (del_next c id s) _ (del_next-Same c id s) (del_next-Same d i (del_next c id s))
closed-Same false c id d i s = Same-refl s

after_forward-Same :
    (alive : ℕ → Bool) (c ft id : ℕ) (s : Server) (r : Option NextConn × Bool × Server)
    → Same s r.2
    → Same s (after_forward alive c ft id r).1
unfolding after_forward
after_forward-Same alive c ft id s (some r, true, t) h =
    Same-trans s t _ h (closed-Same (ft == close_type) c id r.conn r.id t)
after_forward-Same alive c ft id s (some r, false, t) h =
    Same-trans s t _ h (del_chan-Same alive c id 0 t)
after_forward-Same alive c ft id s (none, wrote, t) h =
    Same-trans s t _ h (del_chan-Same alive c id 0 t)

forward_frame-Same :
    (alive : ℕ → Bool) (c ft id : ℕ) (p : List ℕ) (s : Server)
    → Same s (forward_frame alive c ft id p s).2
unfolding forward_frame
forward_frame-Same alive c ft id p s = elim (Option-cases (get_next c id s)) [
  | inl n ↦ rw (n, forward_frame) (Same-refl s)
  | inr (r, n) ↦ rw (n, forward_frame) (write_next-Same alive r ft p s)
]

-- The second state of a result that has been computed.
Same-to : {A : Type 0} (s : Server) (a r : A × Server) → Same s a.1 → a ≡ r → Same s r.1
Same-to s a r h e = record {
  conns = ap (λ x. x.1.conns) (sym e) ∙ h.conns;
  remote_client = λ c. ap (λ x. (x.1.conn c).remote_client) (sym e) ∙ h.remote_client c;
}

module _ (json : Json) (alive ctx : ℕ → Bool) (fuel c : ℕ) where
  handle_request-Same :
      (id : ℕ) (p : List ℕ) (s : Server) (r : Bool × Server)
      → handle_request json alive ctx fuel c id p s ≡ some r
      → Same s r.1
  unfolding handle_request add_next
  handle_request-Same id p s r h = elim (Option-cases (json.unmarshal p)) [
    | inl n ↦ Same-to s (false, s) r (Same-refl s) (ground (arith, n, h))
    | inr (q, n) ↦ elim (Bool-cases (bytes_beq q.init_pk (s.conn c).remote_client)) [
      | inr b ↦ Same-to s (false, s) r (Same-refl s) (ground (arith, n, b, h))
      | inl b ↦ elim (Option-cases (get_conn q.resp_pk s)) [
        | inl g ↦ Same-to s (false, s) r (Same-refl s) (ground (arith, n, b, g, h))
        | inr (resp, g) ↦
            elim (Option-cases
              (probe ctx fuel (s.conn resp).next_conns (s.conn resp).next_resp_id)) [
                | inl k ↦ absurd (ground (arith, n, b, g, k, h))
                | inr (found, k) ↦
                    let a = added resp (record { conn = c; id = id }) found s in
                    Same-to s (link alive c id resp p a) r
                      (link-Same alive c id resp p s a
                        (added-Same resp (record { conn = c; id = id }) found s))
                      (ground (arith, n, b, g, k, h))
              ]
      ]
    ]
  ]

  pub serve_frame-Same :
      (f : ℕ × ℕ × List ℕ) (s : Server) (r : Bool × Server)
      → serve_frame json alive ctx fuel c f s ≡ some r
      → Same s r.1
  unfolding serve_frame
  serve_frame-Same (ft, id, p) s r h = elim (Bool-cases (ft == request_type)) [
    | inl b ↦ elim (Option-cases (handle_request json alive ctx fuel c id p s)) [
      | inl n ↦ absurd (ground (arith, b, n, h))
      | inr (a, n) ↦
          Same-to s (after_request alive c id a) r
            (after_request-Same alive c id s a (handle_request-Same id p s a n))
            (ground (arith, b, n, h))
    ]
    | inr b ↦ elim (Bool-cases (is_forwarded ft)) [
      | inl k ↦
          let a = forward_frame alive c ft id p s in
          Same-to s (after_forward alive c ft id a) r
            (after_forward-Same alive c ft id s a (forward_frame-Same alive c ft id p s))
            (ground (arith, b, k, h))
      | inr k ↦ Same-to s (false, s) r (Same-refl s) (ground (arith, b, k, h))
    ]
  ]

close_routes-Same :
    (alive : ℕ → Bool) (m : List (ℕ × NextConn)) (s : Server) → Same s (close_routes alive m s)
unfolding close_routes
close_routes-Same alive [] s = Same-refl s
close_routes-Same alive ((id, r) ∷ m) s =
    Same-trans s (write_next alive r close_type (0 ∷ []) s).1 _
      (write_next-Same alive r close_type (0 ∷ []) s)
      (close_routes-Same alive m (write_next alive r close_type (0 ∷ []) s).1)

pub finish_serving-Same :
    (alive : ℕ → Bool) (c : ℕ) (s : Server) → Same s (finish_serving alive c s)
unfolding finish_serving
finish_serving-Same alive c s =
    let h = close_routes-Same alive (s.conn c).next_conns s in
    record { conns = h.conns; remote_client = h.remote_client }
