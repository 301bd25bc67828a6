-- ===== src/ClientConn/Queues.antt =====
-- client_conn.go: whatever REQUEST comes, handleRequestFrame returns, and the accept queues keep
-- their bounds.
use mathlib.Core.Path.{subst}
use dmsg.Prelude.{
  ℕ, ◌≡◌, refl, sym, Bool, true, false, not, ◌||◌, some, List, [], ◌∷◌, ◌++◌, arith, ◌==◌, insert,
  lookup-insert, nat_eq, bytes_beq, Option-cases, Bool-cases, inl, inr, Result, ok, err, Error,
  err_client_closed, err_client_accept_maxed, err_request_check_failed, err_port_not_listening,
  write_error,
}
use dmsg.Frame.{is_initiator_id}
use dmsg.Transport.{Transport, new_transport, close_with_frame, write_close_frame}
use dmsg.Transport.Handshake.{Json, write_accept, write_or_close, accept_frame}
use dmsg.Transport.Inv.{Inv, closing, close_lem}
use dmsg.Transport.Safety.{new_transport-Inv}
use dmsg.Listener.{Listener, Introduced, refused_closed, refused_full, queued}
use dmsg.Listener.Queue as Queue
use dmsg.Listener.Queue.{introduce_total}
use dmsg.Listener.Ports.{PortManager, listener}
use dmsg.ClientConn.{
  ClientConn, set_tp, del_tp, reject, introduced, settle, keep, hand_over, handle_request_frame,
  after_accept,
}

close_with_frame_lem : (tp : Transport) → Inv tp → (t : Transport) × (close_with_frame tp ≡ some t)
unfolding close_with_frame
close_with_frame_lem tp v =
    let (w, i, e, closes) = close_lem tp v in
    (write_close_frame (not tp.done, closing w tp), ground (arith, closes))

introduced_lem :
    (wrote : Bool) (i : Introduced) (tp : Transport)
    → Inv tp
    → (r : Result (Unit {0}) × Transport) × (introduced wrote i tp ≡ some r)
unfolding introduced write_accept write_or_close
introduced_lem wrote refused_closed tp v = ((err err_client_closed, tp), refl)
introduced_lem wrote refused_full tp v =
    let (t, e) = close_with_frame_lem tp v in ((err err_client_accept_maxed, t), ground (arith, e))
introduced_lem true queued tp v =
    (after_accept (ok tt, record tp { sent = tp.sent ++ accept_frame tp ∷ [] }), refl)
introduced_lem false queued tp v =
    let (w, i, e, closes) = close_lem tp v in
    (after_accept (err write_error, closing w tp), ground (arith, closes))

-- At most 20 transports wait at each listener, and none at a closed one.
unfoldable pub HasQueues : PortManager → Type 0
HasQueues pm = (port : ℕ) (l : Listener) → listener port pm ≡ some l → Queue.Inv l

pub insert-HasQueues :
    (port : ℕ) (l : Listener) (pm : PortManager)
    → Queue.Inv l
    → HasQueues pm
    → HasQueues (record pm { listeners = insert port l pm.listeners })
unfolding HasQueues listener
insert-HasQueues port l pm v vs j m e = elim (Bool-cases (port == j)) [
  | inl b ↦ subst Queue.Inv (ground (arith, e, b, lookup-insert port j l pm.listeners)) v
  | inr b ↦ vs j m (ground (arith, e, b, lookup-insert port j l pm.listeners))
]

keep-pm : (r : Result (Unit {0}) × Transport) (c : ClientConn) → (keep r c).1.pm ≡ c.pm
unfolding keep settle set_tp del_tp
keep-pm (r, tp) c = ground arith

reject-pm : (wrote : Bool) (id : ℕ) (e : Error) (c : ClientConn) → (reject wrote id e c).1.pm ≡ c.pm
unfolding reject
reject-pm wrote id e c = ground arith

hand_over_lem :
    (wrote : Bool) (port : ℕ) (l : Listener) (tp : Transport) (c : ClientConn)
    → Inv tp
    → listener port c.pm ≡ some l
    → HasQueues c.pm
    → (r : Result (Unit {0}) × ClientConn) × (hand_over wrote port l tp c ≡ some r)
      × HasQueues r.1.pm
unfolding hand_over
hand_over_lem wrote port l tp c v there qs =
    let (x, n, kept) = introduce_total tp.id l in
    let c' = record c { pm = record c.pm { listeners = insert port x.1 c.pm.listeners } } in
    let (t, closes) = close_with_frame_lem tp v in
    let (r, e) = introduced_lem wrote x.0 tp v in
    elim (Bool-cases c.done) [
      | inl d ↦ (
        keep (err err_client_closed, t) c,
        ground (arith, closes),
        subst HasQueues (sym (keep-pm (err err_client_closed, t) c)) qs,
      )
      | inr d ↦ (
        keep r c',
        ground (arith, n, e),
        subst HasQueues (sym (keep-pm r c'))
            (insert-HasQueues port x.1 c.pm (kept (unfold HasQueues in qs port l there)) qs),
      )
    ]

-- While at most 20 transports wait at each listener, and none at a closed one, handleRequestFrame
-- returns without a panic, of a send on a closed channel or of closing one twice, whatever the
-- payload and the state of the connection, and whether or not the write succeeds; and it keeps those
-- bounds at each listener.
pub handle_request_frame-HasQueues :
    (json : Json) (wrote : Bool) (seed : List ℕ) (id : ℕ) (p : List ℕ) (c : ClientConn)
    → HasQueues c.pm
    → (r : Result (Unit {0}) × ClientConn) × (handle_request_frame json wrote seed id p c ≡ some r)
      × HasQueues r.1.pm
unfolding handle_request_frame
handle_request_frame-HasQueues json wrote seed id p c qs = elim (Option-cases (json.unmarshal p)) [
  | inl e ↦ refused err_request_check_failed (ground (arith, e))
  | inr (payload, e) ↦
      elim (Bool-cases (not (bytes_beq payload.resp_pk c.local) || is_initiator_id id)) [
        | inl b ↦ refused err_request_check_failed (ground (arith, e, b))
        | inr b ↦ elim (Option-cases (listener payload.port c.pm)) [
          | inl n ↦ refused err_port_not_listening (ground (arith, e, b, n))
          | inr (l, h) ↦
              let tp =
                new_transport (record { pk = c.local; port = payload.port })
                  (record { pk = payload.init_pk; port = 0 }) id seed in
              let (r, k, rs) =
                hand_over_lem wrote payload.port l tp c
                  (new_transport-Inv (record { pk = c.local; port = payload.port })
                    (record { pk = payload.init_pk; port = 0 }) id seed)
                  h qs in
              (r, ground (arith, e, b, h, k), rs)
        ]
      ]
]
  where
    refused :
        (e : Error)
        → handle_request_frame json wrote seed id p c ≡ some (reject wrote id e c)
        → (r : Result (Unit {0}) × ClientConn) × (handle_request_frame json wrote seed id p c
            ≡ some r)
          × HasQueues r.1.pm
    refused e h = (reject wrote id e c, h, subst HasQueues (sym (reject-pm wrote id e c)) qs)
