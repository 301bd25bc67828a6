-- ===== src/Server/Unrouted.antt =====
-- server.go: the frames that cannot be delivered.
use dmsg.Prelude.{
  ℕ, ◌≡◌, ◌⊎◌, inl, inr, refl, sym, ◌∙◌, Bool, true, false, ◌&&◌, none, some, List, [], ◌∷◌, ◌++◌,
  if◌then◌else◌, ◌==◌, arith, append-nil,
}
use dmsg.Frame.{make_frame, close_type}
use dmsg.Transport.Handshake.{Json}
use dmsg.Server.{
  NextConn, Server, get_next, del_next, close_failed, write_frame, write_next, forward_frame,
  after_forward, del_chan, is_forwarded, serve_frame,
}
use dmsg.Server.Routes.{get_next-del_next}

-- delChan writes a CLOSE, if it can, and takes one route away.
del_chan_lem :
    (alive : ℕ → Bool) (a i : ℕ) (s : Server)
    → (t : Server) × (del_chan alive a i 0 s ≡ (alive a, t))
      × (t.outs ≡ s.outs ++ (if alive a then (a, make_frame close_type i (0 ∷ [])) ∷ [] else []))
      × (t.conns ≡ s.conns)
      × (t.closing ≡ s.closing)
      × ((b j : ℕ) → get_next b j t ≡ (if a == b && i == j then none else get_next b j s))
unfolding del_chan write_frame del_next get_next
del_chan_lem alive a i s =
    let closed = (a, make_frame close_type i (0 ∷ [])) ∷ [] in
    let d = del_next a i s in
    (
      record d { outs = s.outs ++ (if alive a then closed else []) },
      ground (arith, append-nil s.outs),
      refl,
      refl,
      refl,
      (λ b j. get_next-del_next a i b j s),
    )

-- A frame of an established transport that cannot be delivered, as its sender's connection has no
-- route for its id, or one to a connection that takes no writes: the sender's route for the id is
-- taken away, and no other route; the only thing written is a CLOSE under that id to the sender, if
-- its own connection takes writes; and where it does not, the loop of Serve ends. The map of the
-- connections stays, and no connection that had begun to close is forgotten.
pub serve_frame-unrouted :
    (json : Json) (alive ctx : ℕ → Bool) (fuel a i ft : ℕ) (p : List ℕ) (s : Server)
    → is_forwarded ft ≡ true
    → (get_next a i s ≡ none)
      ⊎ ((r : NextConn) × (get_next a i s ≡ some r) × (alive r.conn ≡ false))
    → (t : Server) × (serve_frame json alive ctx fuel a (ft, i, p) s ≡ some (alive a, t))
      × (t.outs ≡ s.outs ++ (if alive a then (a, make_frame close_type i (0 ∷ [])) ∷ [] else []))
      × (t.conns ≡ s.conns)
      × ((more : List ℕ) × (t.closing ≡ s.closing ++ more))
      × ((b j : ℕ) → get_next b j t ≡ (if a == b && i == j then none else get_next b j s))
unfolding serve_frame is_forwarded after_forward forward_frame write_next write_frame close_failed
    get_next
serve_frame-unrouted json alive ctx fuel a i ft p s f (inl e) =
    let (t, d, outs, conns, closing, routes) = del_chan_lem alive a i s in
    (t, ground (arith, d, e), outs, conns, ([], closing ∙ sym (append-nil s.closing)), routes)
serve_frame-unrouted json alive ctx fuel a i ft p s f (inr (r, e, dead)) =
    let u = record s { closing = s.closing ++ r.conn ∷ [] } in
    let (t, d, outs, conns, closing, routes) = del_chan_lem alive a i u in
    (t, ground (arith, d, e, dead), outs, conns, (r.conn ∷ [], closing), routes)
