-- ===== src/ClientConn/Dialing.antt =====
-- client_conn.go: the transport that DialTransport returns.
use dmsg.Prelude.{
  zero, suc, err_closed_pipe, ctx_done, err_accept_check_failed, err_request_rejected, ℕ, ◌≡◌, sym,
  ap, ◌∙◌, inl, inr, arith, Bool, true, false, Bool-cases, Option-cases, some, List, [], ◌∷◌,
  lookup, insert, nat_eq, bytes_eq, Result, u16_mod, ◌+◌, ◌%◌, ok, err, Error,
}
use dmsg.Frame.{PubKey, Frame, make_frame, request_type, disassemble}
use dmsg.Transport.{Transport, new_transport, serve, close, close_with_frame}
use dmsg.Transport.Handshake.{
  Json, Event, is_done, ctx_ends, in_ch_closed, receives, read_accept, check_accept, fail_closed,
  fail_with_frame, write_request, write_or_close, request_payload,
}
use dmsg.ClientConn.{
  ClientConn, set_tp, del_tp, get_tp, live, settle, note, dial_serve, dial_accept, dial_request,
  dial_transport, add_tp, added, get_next_init_id, take_id,
}

fail_closed-ok : (e : Error) (tp t : Transport) → fail_closed e tp ≡ some (ok tt, t) → ⊥
unfolding fail_closed
fail_closed-ok e tp t h = elim (Option-cases (close tp)) [
  | inl n ↦ ground (arith, n)
  | inr (r, n) ↦ ground (arith, n)
]

fail_with_frame-ok : (e : Error) (tp t : Transport) → fail_with_frame e tp ≡ some (ok tt, t) → ⊥
unfolding fail_with_frame
fail_with_frame-ok e tp t h = elim (Option-cases (close_with_frame tp)) [
  | inl n ↦ ground (arith, n)
  | inr (r, n) ↦ ground (arith, n)
]

-- ReadAccept returns no error only with the transport as it was.
read_accept_ok :
    (event : Event) (tp t : Transport) → read_accept event tp ≡ some (ok tt, t) → t ≡ tp
unfolding read_accept check_accept
read_accept_ok is_done tp t h = absurd (fail_closed-ok err_closed_pipe tp t h)
read_accept_ok ctx_ends tp t h = absurd (fail_with_frame-ok ctx_done tp t h)
read_accept_ok in_ch_closed tp t h = absurd (fail_closed-ok err_closed_pipe tp t h)
read_accept_ok (receives f) tp t h = elim (Option-cases (disassemble f)) [
  | inl n ↦ absurd (ground (arith, n))
  | inr ((ft, id, p), n) ↦ ground (
    arith,
    n,
    fail_with_frame-ok err_accept_check_failed tp t,
    fail_closed-ok err_request_rejected tp t,
  )
]

-- A transport that DialTransport gives is new but for the REQUEST that it has sent, and serves.
unfoldable pub Fresh : PubKey → PubKey → ℕ → Transport → Type 0
Fresh local remote port tp =
    (id : ℕ) × (seed : List ℕ) × (sent : List Frame) × (tp
      ≡ record (new_transport (record { pk = local; port = 0 })
          (record { pk = remote; port = port }) id seed) { sent = sent; serving = true })

get_tp-note :
    (tp : Transport) (c : ClientConn) → tp.done ≡ false → get_tp tp.id (note tp c) ≡ some tp
unfolding get_tp live note settle set_tp insert lookup
get_tp-note tp c h = ground (arith, h)

module _ (json : Json) (wrote : Bool) (port : ℕ) (event : Event) where
  dial_request-ok :
      (local remote : PubKey) (rport id : ℕ) (seed : List ℕ) (tp : Transport) (c c' : ClientConn)
      → dial_request json wrote port event (
        ok (
            new_transport
              (record { pk = local; port = 0 })
              (record { pk = remote; port = rport })
              id
              seed),
        c,
      )
        ≡ some (ok tp, c')
      → Fresh local remote rport tp × (get_tp tp.id c' ≡ some tp)
  unfolding dial_request write_request write_or_close dial_accept dial_serve Fresh new_transport
      serve
  dial_request-ok local remote rport id seed tp c c' h = elim (Bool-cases wrote) [
    | inr b ↦
        elim (Option-cases (
          close (
            new_transport (record { pk = local; port = 0 }) (record { pk = remote; port = rport })
              id seed))) [
                | inl n ↦ absurd (ground (arith, b, n))
                | inr (r, n) ↦ absurd (ground (arith, b, n))
              ]
    | inl b ↦
        let tp0 =
          new_transport (record { pk = local; port = 0 }) (record { pk = remote; port = rport }) id
            seed in
        let served : Transport → Transport = λ x. record x { serving = true } in
        let fs = make_frame request_type id (json.marshal (request_payload port tp0)) ∷ [] in
        let tp1 = record tp0 { sent = fs } in
        elim (Option-cases (read_accept event tp1)) [
          | inl n ↦ absurd (ground (arith, b, n))
          | inr ((err e, t), n) ↦ absurd (ground (arith, b, n))
          | inr ((ok u, t), n) ↦
              let same : t ≡ tp1 = read_accept_ok event tp1 t n in
              let tp_is : tp ≡ record t { serving = true } = ground (arith, b, n) in
              let c_is : c' ≡ note (record t { serving = true }) c = ground (arith, b, n) in
              let fresh : tp ≡ record tp1 { serving = true } = tp_is ∙ ap served same in
              (
                (id, seed, fs, fresh),
                ap (λ x. get_tp tp.id x) c_is
                    ∙ ap (λ x. get_tp x.id (note (record t { serving = true }) c)) tp_is
                    ∙ get_tp-note (record t { serving = true }) c (ap (λ x. x.done) same)
                    ∙ ap some (sym tp_is),
              )
        ]
  ]

  added-ok :
      (remote : PubKey) (rport : ℕ) (seed : List ℕ) (tp : Transport) (c' : ClientConn)
      (r : Result ℕ × ClientConn)
      → dial_request json wrote port event (added remote 0 rport seed r) ≡ some (ok tp, c')
      → Fresh r.1.local remote rport tp × (get_tp tp.id c' ≡ some tp)
  unfolding added dial_request
  added-ok remote rport seed tp c' (err e, k) h = absurd (ground arith)
  added-ok remote rport seed tp c' (ok id, k) h =
      let tp0 =
        new_transport (record { pk = k.local; port = 0 }) (record { pk = remote; port = rport }) id
          seed in
      dial_request-ok k.local remote rport id seed tp (set_tp id tp0 k) c' h

pub get_next_init_id-local :
    (ctx : ℕ → Bool) (fuel : ℕ) (c c' : ClientConn) (r : Result ℕ)
    → get_next_init_id ctx fuel c ≡ some (r, c')
    → c'.local ≡ c.local
unfolding get_next_init_id take_id del_tp
get_next_init_id-local ctx zero c c' r h = absurd (ground arith)
get_next_init_id-local ctx (suc fuel) c c' r h = ground (
  arith,
  get_next_init_id-local ctx fuel (record c { next_init_id = (c.next_init_id + 2) % u16_mod }) c' r,
)

-- DialTransport gives a transport to the peer that was asked for, which serves, and which the
-- connection has under its id.
pub dial_transport_ok :
    (json : Json) (ctx : ℕ → Bool) (fuel : ℕ) (wrote : Bool) (event : Event) (remote : PubKey)
    (port : ℕ) (seed : List ℕ) (tp : Transport) (c c' : ClientConn)
    → dial_transport json ctx fuel wrote event remote port seed c ≡ some (ok tp, c')
    → Fresh c.local remote port tp × (get_tp tp.id c' ≡ some tp)
unfolding dial_transport add_tp
dial_transport_ok json ctx fuel wrote event remote port seed tp c c' h =
    elim (Option-cases (get_next_init_id ctx fuel c)) [
      | inl n ↦ absurd (ground (arith, n))
      | inr ((r, k), n) ↦
          let (f, g) =
            added-ok json wrote port event remote port seed tp c' (r, k) (ground (arith, n)) in
          (
            ground (
              arith,
              f,
              ap (λ x. Fresh x remote port tp) (get_next_init_id-local ctx fuel c k r n),
            ),
            g,
          )
    ]
