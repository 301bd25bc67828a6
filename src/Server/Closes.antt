-- ===== src/Server/Closes.antt =====
-- server.go: the CLOSE frames when a connection has ended. The routes are a Go map, which is ranged
-- over in no given order.
use mathlib.Core.List.{filter, Perm}
use mathlib.Core.List.Perm as Perm
use mathlib.Core.Bool.{Bool-discrete}
use mathlib.Core.Path.{subst}
use dmsg.Prelude.{
  ℕ, ◌≡◌, sym, ap, Bool, true, false, List, [], ◌∷◌, ◌++◌, map, append_assoc, append-nil, arith,
  Bool-cases, inl, inr,
}
use dmsg.Frame.{Frame, make_frame, close_type}
use dmsg.Server.{
  NextConn, Server, write_frame, write_next, close_failed, put, close_routes, finish_serving,
}

abbrev pub takes : (alive : ℕ → Bool) (x : ℕ × NextConn) → Dec (alive x.1.conn ≡ true)
takes alive x = Bool-discrete (alive x.1.conn) true

abbrev pub refuses : (alive : ℕ → Bool) (x : ℕ × NextConn) → Dec (alive x.1.conn ≡ false)
refuses alive x = Bool-discrete (alive x.1.conn) false

-- The CLOSE for the other end of a route.
abbrev pub close_of : ℕ × NextConn → ℕ × Frame
close_of (id, r) = (r.conn, make_frame close_type r.id (0 ∷ []))

abbrev pub conn_of : ℕ × NextConn → ℕ
conn_of (id, r) = r.conn

close_routes_lem :
    (alive : ℕ → Bool) (m : List (ℕ × NextConn)) (s : Server)
    → close_routes alive m s ≡ record s {
      outs = s.outs ++ map close_of (filter (takes alive) m);
      closing = s.closing ++ map conn_of (filter (refuses alive) m);
    }
unfolding close_routes write_next write_frame close_failed
close_routes_lem alive [] s = ground (arith, append-nil s.outs, append-nil s.closing)
close_routes_lem alive ((id, r) ∷ m) s = elim (Bool-cases (alive r.conn)) [
  | inl b ↦ ground (
    arith,
    b,
    close_routes_lem alive m (record s { outs = s.outs ++ close_of (id, r) ∷ [] }),
    append_assoc s.outs (close_of (id, r) ∷ []) (map close_of (filter (takes alive) m)),
  )
  | inr b ↦ ground (
    arith,
    b,
    close_routes_lem alive m (record s { closing = s.closing ++ r.conn ∷ [] }),
    append_assoc s.closing (r.conn ∷ []) (map conn_of (filter (refuses alive) m)),
  )
]

-- When the loop of Serve ends, the other end of each route whose connection takes writes gets one
-- CLOSE, under its own id, the connections of the other routes begin to close, and then the
-- connection itself; the routes stay.
pub finish_serving_lem :
    (alive : ℕ → Bool) (c : ℕ) (s : Server)
    → let m = (s.conn c).next_conns in
      finish_serving alive c s ≡ record s {
        outs = s.outs ++ map close_of (filter (takes alive) m);
        closing = (s.closing ++ map conn_of (filter (refuses alive) m)) ++ c ∷ [];
      }
unfolding finish_serving
finish_serving_lem alive c s =
    ap {A = Server} (λ t. record t { closing = t.closing ++ c ∷ [] })
      (close_routes_lem alive (s.conn c).next_conns s)

-- Whatever the order in which the map of routes is ranged over, the end of Serve writes the same
-- CLOSE frames to the same connections, and begins to close the same connections, up to their order.
pub finish_serving-Perm :
    (alive : ℕ → Bool) (c : ℕ) (n : List (ℕ × NextConn)) (s : Server)
    → Perm (s.conn c).next_conns n
    → let t = put c (record (s.conn c) { next_conns = n }) s in
      Perm (finish_serving alive c s).outs (finish_serving alive c t).outs
      × Perm (finish_serving alive c s).closing (finish_serving alive c t).closing
finish_serving-Perm alive c n s h =
    let t = put c (record (s.conn c) { next_conns = n }) s in
    let same : (t.conn c).next_conns ≡ n = ground arith in
    let p : Perm (s.conn c).next_conns (t.conn c).next_conns =
      subst (Perm (s.conn c).next_conns) (sym same) h in
    rw (finish_serving_lem alive c s, finish_serving_lem alive c t)
      (
        Perm.append_left s.outs (Perm.map close_of (Perm.filter (takes alive) p)),
        Perm.append_right (c ∷ [])
            (Perm.append_left s.closing (Perm.map conn_of (Perm.filter (refuses alive) p))),
      )
