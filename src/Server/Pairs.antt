-- ===== src/Server/Pairs.antt =====
-- server.go: the routes that a server holds lead back to each other.
use mathlib.Core.Path.{subst}
use dmsg.Prelude.{
  ◌⊎◌, ℕ, zero, suc, ◌+◌, ◌%◌, ◌<◌, ◌≡◌, ◌≢◌, refl, Bool, true, false, Option, none, some, List, [],
  ◌∷◌, ◌++◌, if◌then◌else◌, arith, ◌==◌, lookup, nat_eq, bytes_beq, u16_mod, Option-cases,
  Bool-cases, inl, inr, sym,
}
use dmsg.Frame.{Frame, make_frame, request_type, close_type}
use dmsg.Transport.Handshake.{Json}
use dmsg.Server.{
  NextConn, Server, put, get_conn, get_next, set_next, del_next, close_failed, write_frame,
  write_next, probe, added, add_next, forward_frame, link, handle_request, del_chan, after_request,
  after_forward, serve_frame,
}
use dmsg.Server.Ids.{probe_sound}
use dmsg.Server.Routes.{route, get_next-linked, get_next-del_next, linked}

-- Every route leads back: the end that it leads to has the route to where it starts.
abbrev pub IsPaired : Server → Type 0
IsPaired s =
    (a i b j : ℕ)
    → get_next a i s ≡ some (record { conn = b; id = j })
    → get_next b j s ≡ some (record { conn = a; id = i })

-- The ids that the server gives are odd, and have sixteen bits.
abbrev pub HasOddIds : Server → Type 0
HasOddIds s = (c : ℕ) → ((s.conn c).next_resp_id % 2 ≡ 1) × ((s.conn c).next_resp_id < u16_mod)

fresh_route :
    (s : Server) (c id : ℕ) → lookup id (s.conn c).next_conns ≡ none → get_next c id s ≡ none
unfolding get_next
fresh_route s c id e = e

linked-IsPaired :
    (c id resp resp_id next : ℕ) (s : Server)
    → IsPaired s
    → get_next c id s ≡ none
    → get_next resp resp_id s ≡ none
    → id ≢ resp_id
    → IsPaired (linked c id resp resp_id next s)
linked-IsPaired c id resp resp_id next s P free fresh apart a i b j r = ground (
  arith,
  P a i b j,
  get_next-linked c id resp resp_id next a i s,
  get_next-linked c id resp resp_id next b j s,
)

del_next_both-IsPaired :
    (c id b j : ℕ) (s : Server)
    → IsPaired s
    → get_next c id s ≡ some (record { conn = b; id = j })
    → IsPaired (del_next b j (del_next c id s))
del_next_both-IsPaired c id b j s P here a i d k r = ground (
  arith,
  here,
  P c id b j here,
  P a i d k,
  get_next-del_next b j a i (del_next c id s),
  get_next-del_next c id a i s,
  get_next-del_next b j d k (del_next c id s),
  get_next-del_next c id d k s,
)

del_next_absent-IsPaired :
    (c id : ℕ) (s : Server) → IsPaired s → get_next c id s ≡ none → IsPaired (del_next c id s)
del_next_absent-IsPaired c id s P absent a i d k r =
    ground (arith, P a i d k, get_next-del_next c id a i s, get_next-del_next c id d k s)

-- What the server keeps of its routes.
unfoldable pub IsOrderly : Server → Type 0
IsOrderly s = IsPaired s × HasOddIds s

del_next-HasOddIds : (c id : ℕ) (s : Server) → HasOddIds s → HasOddIds (del_next c id s)
unfolding del_next
del_next-HasOddIds c id s O k = ground (arith, O k)

linked-HasOddIds :
    (c id resp resp_id next : ℕ) (s : Server)
    → HasOddIds s
    → next % 2 ≡ 1
    → next < u16_mod
    → HasOddIds (linked c id resp resp_id next s)
unfolding linked set_next added
linked-HasOddIds c id resp resp_id next s O odd word k = ground (arith, O k)

-- What addNext with an error leaves: the next id has moved on.
moved : ℕ → ℕ → Server → Server
moved c next s = put c (record (s.conn c) { next_resp_id = next }) s

moved-IsOrderly :
    (c next : ℕ) (s : Server)
    → IsOrderly s
    → next % 2 ≡ 1
    → next < u16_mod
    → IsOrderly (moved c next s)
unfolding moved get_next IsOrderly
moved-IsOrderly c next s (P, O) odd word =
    ((λ a i b j r. ground (arith, P a i b j)), (λ k. ground (arith, O k)))

probe_next :
    (ctx : ℕ → Bool) (fuel : ℕ) (m : List (ℕ × NextConn)) (id next : ℕ) (found : Option ℕ)
    → id % 2 ≡ 1
    → id < u16_mod
    → probe ctx fuel m id ≡ some (found, next)
    → (next % 2 ≡ 1) × (next < u16_mod)
unfolding probe
probe_next ctx zero m id next found odd word e = absurd (ground arith)
probe_next ctx (suc fuel) m id next found odd word e =
    ground (arith, probe_next ctx fuel m ((id + 2) % u16_mod) next found)

get_next-moved :
    (c id resp next : ℕ) (s : Server)
    → get_next c id s ≡ none
    → get_next c id (moved resp next s) ≡ none
unfolding moved get_next
get_next-moved c id resp next s free = ground arith

sent-IsOrderly :
    (s : Server) (o : List (ℕ × Frame)) → IsOrderly s → IsOrderly (record s { outs = o })
unfolding get_next IsOrderly
sent-IsOrderly s o k = k

write_next-alive :
    (alive : ℕ → Bool) (r : NextConn) (ft : ℕ) (p : List ℕ) (s : Server)
    → alive r.conn ≡ true
    → write_next alive r ft p s
      ≡ (true, record s { outs = s.outs ++ (r.conn, make_frame ft r.id p) ∷ [] })
unfolding write_next write_frame close_failed
write_next-alive alive r ft p s e = ground arith

get_next-sent :
    (c id : ℕ) (r : NextConn) (s : Server) (o : List (ℕ × Frame))
    → get_next c id s ≡ some r
    → get_next c id (record s { outs = o }) ≡ some r
unfolding get_next
get_next-sent c id r s o e = e

write_frame-IsOrderly :
    (alive : ℕ → Bool) (c : ℕ) (f : Frame) (s : Server)
    → IsOrderly s
    → IsOrderly (write_frame alive c f s).1
unfolding write_frame
write_frame-IsOrderly alive c f s o = go (alive c)
  where
    go :
        (b : Bool)
        → IsOrderly
            (if◌then◌else◌ {A = Bool × Server} b
              (true, record s { outs = s.outs ++ (c, f) ∷ [] })
              (false, s)).1
    go true = sent-IsOrderly s (s.outs ++ (c, f) ∷ []) o
    go false = o

del_next_absent-IsOrderly :
    (c id : ℕ) (s : Server) → IsOrderly s → get_next c id s ≡ none → IsOrderly (del_next c id s)
unfolding IsOrderly
del_next_absent-IsOrderly c id s (P, O) free =
    (del_next_absent-IsPaired c id s P free, del_next-HasOddIds c id s O)

forwarded-IsOrderly :
    (c ft id : ℕ) (r : NextConn) (s : Server)
    → IsOrderly s
    → get_next c id s ≡ some r
    → IsOrderly (if ft == close_type then del_next r.conn r.id (del_next c id s) else s)
unfolding IsOrderly
forwarded-IsOrderly c ft id r s (P, O) e =
    elim (ft == close_type)
      as (λ b. IsOrderly (if b then del_next r.conn r.id (del_next c id s) else s)) [
        | true ↦ (
          del_next_both-IsPaired c id r.conn r.id s P e,
          del_next-HasOddIds r.conn r.id (del_next c id s) (del_next-HasOddIds c id s O),
        )
        | false ↦ (P, O)
      ]

-- A request's routes, and what a failed one leaves.
Linked : ℕ → ℕ → Bool × Server → Type 0
Linked c id r = IsOrderly r.1 × (r.0 ≡ true ⊎ (get_next c id r.1 ≡ none))

unlinked : (c id : ℕ) (s : Server) → IsOrderly s → get_next c id s ≡ none → Linked c id (false, s)
unfolding Linked
unlinked c id s o free = (o, inr free)

module _ (alive : ℕ → Bool) (all : (b : ℕ) → alive b ≡ true) (ctx : ℕ → Bool) (fuel : ℕ) where
  link-IsOrderly :
      (c id resp next : ℕ) (p : List ℕ) (found : Option ℕ) (s : Server)
      → IsOrderly s
      → id % 2 ≡ 0
      → get_next c id s ≡ none
      → probe ctx fuel (s.conn resp).next_conns (s.conn resp).next_resp_id ≡ some (found, next)
      → Linked c id (link alive c id resp p (added resp (route c id) (found, next) s))
  unfolding link added Linked moved set_next linked IsOrderly
  link-IsOrderly c id resp next p none s o even free e =
      let (odd, word) =
        probe_next ctx fuel (s.conn resp).next_conns (s.conn resp).next_resp_id next none
          (o.1 resp).0 (o.1 resp).1 e in
      (moved-IsOrderly resp next s o odd word, inr (get_next-moved c id resp next s free))
  link-IsOrderly c id resp next p (some resp_id) s o even free e =
      let (odd, word) =
        probe_next ctx fuel (s.conn resp).next_conns (s.conn resp).next_resp_id next (some resp_id)
          (o.1 resp).0 (o.1 resp).1 e in
      let (fresh, bound, parity, step) =
        probe_sound ctx fuel (s.conn resp).next_conns (s.conn resp).next_resp_id resp_id next
          (o.1 resp).1 e in
      let t = linked c id resp resp_id next s in
      let pairs =
        linked-IsPaired c id resp resp_id next s o.0 free (fresh_route s resp resp_id fresh)
          (ground (arith, o.1 resp)) in
      subst (Linked c id)
        (sym (write_next-alive alive (route resp resp_id) request_type p t (all resp)))
        (
          sent-IsOrderly t (t.outs ++ (resp, make_frame request_type resp_id p) ∷ [])
              (pairs, linked-HasOddIds c id resp resp_id next s o.1 odd word),
          inl refl,
        )

  handle_request-IsOrderly :
      (json : Json) (c id : ℕ) (p : List ℕ) (s : Server) (r : Bool × Server)
      → IsOrderly s
      → id % 2 ≡ 0
      → get_next c id s ≡ none
      → handle_request json alive ctx fuel c id p s ≡ some r
      → Linked c id r
  unfolding handle_request add_next
  handle_request-IsOrderly json c id p s r o even free e =
      let refused = unlinked c id s o free in
      elim (Option-cases (json.unmarshal p)) [
        | inl e1 ↦ ground (arith, refused)
        | inr (payload, e1) ↦
            elim (Bool-cases (bytes_beq payload.init_pk (s.conn c).remote_client)) [
              | inr e2 ↦ ground (arith, refused)
              | inl e2 ↦ elim (Option-cases (get_conn payload.resp_pk s)) [
                | inl e3 ↦ ground (arith, refused)
                | inr (resp, e3) ↦
                    elim (Option-cases
                      (probe ctx fuel (s.conn resp).next_conns (s.conn resp).next_resp_id)) [
                        | inl e4 ↦ absurd (ground arith)
                        | inr ((found, next), e4) ↦
                            ground (arith, link-IsOrderly c id resp next p found s o even free e4)
                      ]
              ]
            ]
      ]

  del_chan-IsOrderly :
      (c id why : ℕ) (s : Server)
      → IsOrderly s
      → get_next c id s ≡ none
      → IsOrderly (del_chan alive c id why s).1
  unfolding del_chan
  del_chan-IsOrderly c id why s o free =
      write_frame-IsOrderly alive c (make_frame close_type id (why ∷ [])) (del_next c id s)
        (del_next_absent-IsOrderly c id s o free)

  after_request-IsOrderly :
      (c id : ℕ) (r : Bool × Server) → Linked c id r → IsOrderly (after_request alive c id r).1
  unfolding after_request Linked
  after_request-IsOrderly c id (true, s) (o, h) = o
  after_request-IsOrderly c id (false, s) (o, inl h) = absurd (ground arith)
  after_request-IsOrderly c id (false, s) (o, inr h) = del_chan-IsOrderly c id 0 s o h

  after_forward-IsOrderly :
      (c ft id : ℕ) (p : List ℕ) (s : Server)
      → IsOrderly s
      → IsOrderly (after_forward alive c ft id (forward_frame alive c ft id p s)).1
  unfolding forward_frame after_forward
  after_forward-IsOrderly c ft id p s o = go (get_next c id s) refl
    where
      go :
          (n : Option NextConn)
          → get_next c id s ≡ n
          → IsOrderly
              (after_forward alive c ft id (elim n [
                | none ↦ (none, false, s)
                | some r ↦ let (wrote, s') = write_next alive r ft p s in (some r, wrote, s')
              ])).1
      go none e = del_chan-IsOrderly c id 0 s o e
      go (some r) e =
          subst (λ w. IsOrderly (after_forward alive c ft id (some r, w.0, w.1)).1)
            (sym (write_next-alive alive r ft p s (all r.conn)))
            (forwarded-IsOrderly c ft id r
              (record s { outs = s.outs ++ (r.conn, make_frame ft r.id p) ∷ [] })
              (sent-IsOrderly s (s.outs ++ (r.conn, make_frame ft r.id p) ∷ []) o)
              (get_next-sent c id r s (s.outs ++ (r.conn, make_frame ft r.id p) ∷ []) e))

  -- Every frame that a client sends keeps the server's routes in order, as long as the connections
  -- take writes: whatever way it has gone, each route still leads back, and the next ids are odd.
  -- The client has to send a REQUEST under an even id that has no route yet.
  pub serve_frame-IsOrderly :
      (json : Json) (c ft id : ℕ) (p : List ℕ) (s t : Server) (goes_on : Bool)
      → IsOrderly s
      → (ft ≡ request_type → (id % 2 ≡ 0) × (get_next c id s ≡ none))
      → serve_frame json alive ctx fuel c (ft, id, p) s ≡ some (goes_on, t)
      → IsOrderly t
  unfolding serve_frame
  serve_frame-IsOrderly json c ft id p s t goes_on o request e =
      elim (Bool-cases (ft == request_type)) [
        | inl e1 ↦ elim (Option-cases (handle_request json alive ctx fuel c id p s)) [
          | inl e2 ↦ absurd (ground arith)
          | inr (r, e2) ↦
              let (even, free) = request (ground arith) in
              ground (
                arith,
                after_request-IsOrderly c id r
                    (handle_request-IsOrderly json c id p s r o even free e2),
              )
        ]
        | inr e1 ↦ ground (arith, after_forward-IsOrderly c ft id p s o)
      ]
