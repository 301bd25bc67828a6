-- ===== src/Server/Shutdown.antt =====
-- server.go: Close of a server, and what follows it.
use dmsg.Prelude.{
  ℕ, ◌≡◌, ◌≢◌, ◌↔◌, refl, inl, inr, arith, Bool, true, false, Bool-cases, Option-cases, Option,
  none, some, List, [], ◌∷◌, map, lookup, ok, err, Error, already_closed,
}
use dmsg.Frame.{PubKey}
use dmsg.Transport.Handshake.{Json}
use dmsg.Server as Server
use dmsg.Server.{get_conn, serve_frame}
use dmsg.Server.Lifecycle.{
  Host, fails, accepts, accept, finish, go_on, begin, frame, close, close_result, Call, accepted,
  begun, framed, ended, closed, step, run, is_served,
}
use dmsg.Server.Clients.{is_served-without}

-- The end of each of these connections.
abbrev pub ends : List ℕ → List Call
ends cs = map ended cs

IsServedIn : List ℕ → List ℕ → Type 0
IsServedIn ds cs = (d : ℕ) → is_served d ds ≡ true → is_served d cs ≡ true

IsServedIn-nil : (ds : List ℕ) → IsServedIn ds [] → ds ≡ []
unfolding IsServedIn is_served
IsServedIn-nil [] h = refl
IsServedIn-nil (d ∷ ds) h = absurd (ground (arith, h d))

lis_done-go_on :
    (alive : ℕ → Bool) (c : ℕ) (h : Host) (r : Bool × Server.Server)
    → (go_on alive c h r).lis_done ≡ h.lis_done
unfolding go_on finish
lis_done-go_on alive c h (true, s) = refl
lis_done-go_on alive c h (false, s) = refl

-- A closed server stays as it is when it is closed again, and its Serve returns no error.
closed_again :
    (o : Option Error) (t : Host)
    → t.lis_done ≡ true
    → (close o t ≡ ((false, none), t)) × (accept fails t ≡ (some (ok tt), t))
unfolding close accept
closed_again none t d = (ground (arith, d), ground (arith, d))
closed_again (some e) t d = (ground (arith, d), ground (arith, d))

-- A Close that has closed the server still waits exactly while a connection is served.
waits :
    (ds : List ℕ) (h : Host)
    → h.lis_done ≡ false
    → (close_result ds (close none h).0 ≡ none) ↔ (ds ≢ [])
unfolding close close_result
waits [] h d = ((λ e. absurd (ground (arith, d, e))), (λ k. absurd (k refl)))
waits (c ∷ cs) h d = ((λ e k. ground (arith, k)), (λ k. ground (arith, d)))

module _ (json : Json) (alive ctx : ℕ → Bool) (fuel : ℕ) where
  step-lis_done :
      (call : Call) (h t : Host)
      → h.lis_done ≡ true
      → step json alive ctx fuel call h ≡ some t
      → t.lis_done ≡ true
  unfolding step begin frame accept close
  step-lis_done (accepted fails) h t d e = ground (arith, d, e)
  step-lis_done (accepted (accepts pk id)) h t d e = ground (arith, d, e)
  step-lis_done (begun c) h t d e =
      ground (arith, d, e, lis_done-go_on alive c h (Server.write_ok alive c h.routes))
  step-lis_done (framed c f) h t d e = elim (Bool-cases (is_served c h.serving)) [
    | inr b ↦ ground (arith, d, e, b)
    | inl b ↦ elim (Option-cases (serve_frame json alive ctx fuel c f h.routes)) [
      | inl n ↦ absurd (ground (arith, e, b, n))
      | inr (r, n) ↦ ground (arith, d, e, b, n, lis_done-go_on alive c h r)
    ]
  ]
  step-lis_done (ended c) h t d e = unfold finish in ground (arith, d, e)
  step-lis_done (closed none) h t d e = ground (arith, d, e)
  step-lis_done (closed (some o)) h t d e = ground (arith, d, e)

  run-lis_done :
      (calls : List Call) (h t : Host)
      → h.lis_done ≡ true
      → run json alive ctx fuel calls h ≡ some t
      → t.lis_done ≡ true
  unfolding run
  run-lis_done [] h t d e = ground (arith, d, e)
  run-lis_done (call ∷ calls) h t d e = elim (Option-cases (step json alive ctx fuel call h)) [
    | inl n ↦ absurd (ground (arith, e, n))
    | inr (u, n) ↦ run-lis_done calls u t (step-lis_done call h u d n) (ground (arith, e, n))
  ]

  -- Once all connections that are served have ended, none is served.
  run-ends :
      (cs : List ℕ) (h : Host)
      → IsServedIn h.serving cs
      → (u : Host) × (run json alive ctx fuel (ends cs) h ≡ some u) × (u.serving ≡ [])
  unfolding run step
  run-ends [] h all = (h, refl, IsServedIn-nil h.serving all)
  run-ends (c ∷ cs) h all = elim (Bool-cases (is_served c h.serving)) [
    | inl b ↦
        let (u, e, none_left) = run-ends cs (finish alive c h) (
          unfold IsServedIn finish in
          λ d k. unfold is_served in ground (arith, k, all d, is_served-without c d h.serving)) in
        (u, ground (arith, b, e), none_left)
    | inr b ↦
        let (u, e, none_left) =
          run-ends cs h
            (unfold IsServedIn in λ d k. unfold is_served in ground (arith, k, b, all d)) in
        (u, ground (arith, b, e), none_left)
  ]

  -- After a Close whose listener closes, of a server that was open, the server forwards to no client;
  -- and in every state that any steps lead to from there, the Close still waits exactly if a
  -- connection is served, and it returns without an error once each of those connections has ended;
  -- every other Close reports that the server is closed and changes nothing; and Serve returns no
  -- error.
  pub close-run :
      (calls : List Call) (h t : Host)
      → h.lis_done ≡ false
      → run json alive ctx fuel calls (close none h).1 ≡ some t
      → ((pk : PubKey) → get_conn pk (close none h).1.routes ≡ none)
        × ((close_result t.serving (close none h).0 ≡ none) ↔ (t.serving ≢ []))
        × ((u : Host) × (run json alive ctx fuel (ends t.serving) t ≡ some u)
            × (close_result u.serving (close none h).0 ≡ some (ok tt)))
        × ((o : Option Error)
            → (close o t ≡ ((false, none), t))
              × (close_result t.serving (close o t).0 ≡ some (err already_closed)))
        × (accept fails t ≡ (some (ok tt), t))
  close-run calls h t d e =
      let down : (close none h).1.lis_done ≡ true = unfold close in ground (arith, d) in
      let shut = run-lis_done calls (close none h).1 t down e in
      let (u, ran, left) = run-ends t.serving t (unfold IsServedIn in λ c k. k) in
      (
        (λ pk. unfold close get_conn lookup in ground (arith, d)),
        waits t.serving h d,
        (u, ran, unfold close close_result in ground (arith, left, d)),
        (λ o.
            let again = closed_again o t shut in
            (again.0, unfold close_result in ground (arith, again.0))),
        (closed_again none t shut).1,
      )
