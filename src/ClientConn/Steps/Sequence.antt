-- ===== src/ClientConn/Steps/Sequence.antt =====
-- client_conn.go: a REQUEST whose goroutine runs through at once.
use dmsg.Prelude.{
  ℕ, ◌≡◌, refl, inl, inr, Bool, not, ◌||◌, ◌==◌, Option, some, List, [], ◌∷◌, arith, insert, nat_eq,
  bytes_beq, Bool-cases, Option-cases, Result, err, err_client_closed, err_request_check_failed,
  err_port_not_listening,
}
use dmsg.Frame.{request_type, is_initiator_id}
use dmsg.Transport.{Transport, new_transport, close_with_frame, ◌>>=◌}
use dmsg.Transport.Handshake.{Json}
use dmsg.Listener.{Listener}
use dmsg.Listener.Queue.{introduce_total}
use dmsg.Listener.Ports.{listener}
use dmsg.ClientConn.{
  ClientConn, reject, introduced, keep, is_kept, hand_over, handle_request_frame, after_request,
  serve_frame, get_tp, del_tp,
}
use dmsg.ClientConn.Steps.{
  Task, holds, returns, settled, hand_task, rejected, handle_task, go_on, task_step, spawned,
  serve_task, Serving, start, remaining, resume, arrives, goes, step, run,
}

-- What a goroutine still does, run to its end without a break.
abbrev rest : Json → Bool → Task × ClientConn → Option Serving
rest json wrote (t, c) =
    run json (goes wrote 0 ∷ goes wrote 0 ∷ []) (record { conn = c; tasks = t ∷ [] })

alone : ClientConn → Serving
alone c = record { conn = c; tasks = [] }

rest-returns :
    (json : Json) (wrote : Bool) (r : Result (Unit {0})) (c : ClientConn)
    → rest json wrote (returns r, c) ≡ some (alone (after_request (r, c)))
unfolding run step resume task_step remaining alone
rest-returns json wrote r c = refl

rest-rejected :
    (json : Json) (wrote : Bool) (x : Result (Unit {0}) × ClientConn)
    → rest json wrote (rejected x) ≡ some (alone (after_request x))
unfolding rejected
rest-rejected json wrote (r, c) = rest-returns json wrote r c

rest-holds :
    (json : Json) (wrote : Bool) (r : Result (Unit {0}) × Transport) (c : ClientConn)
    → rest json wrote (holds r.0 r.1, settled r.1 c) ≡ some (alone (after_request (keep r c)))
unfolding run step resume task_step remaining alone keep settled
rest-holds json wrote (r, tp) c = refl

hand_task-hand_over :
    (json : Json) (wrote : Bool) (port : ℕ) (l : Listener) (tp : Transport) (c : ClientConn)
    → (hand_task wrote port l tp c >>= rest json wrote)
      ≡ (hand_over wrote port l tp c >>= λ r. some (alone (after_request r)))
unfolding hand_task hand_over keep is_kept settled
hand_task-hand_over json wrote port l tp c = elim (Bool-cases c.done) [
  | inl b ↦ elim (Option-cases (close_with_frame tp)) [
    | inl n ↦ ground (arith, b, n)
    | inr (tp', n) ↦
        ground (arith, b, n, rest-returns json wrote (err err_client_closed) (settled tp' c))
  ]
  | inr b ↦
      let (x, m, kept) = introduce_total tp.id l in
      let d = record c { pm = record c.pm { listeners = insert port x.1 c.pm.listeners } } in
      elim (Option-cases (introduced wrote x.0 tp)) [
        | inl n ↦ ground (arith, b, m, n)
        | inr (r, n) ↦ ground (arith, b, m, n, rest-holds json wrote r d)
      ]
]

handle_task-handle_request_frame :
    (json : Json) (wrote : Bool) (seed : List ℕ) (id : ℕ) (p : List ℕ) (c : ClientConn)
    → (handle_task json wrote seed id p c >>= rest json wrote)
      ≡ (handle_request_frame json wrote seed id p c >>= λ r. some (alone (after_request r)))
unfolding handle_task handle_request_frame
handle_task-handle_request_frame json wrote seed id p c = elim (Option-cases (json.unmarshal p)) [
  | inl n ↦ ground (arith, n, rest-rejected json wrote (reject wrote id err_request_check_failed c))
  | inr (payload, n) ↦
      elim (Bool-cases (not (bytes_beq payload.resp_pk c.local) || is_initiator_id id)) [
        | inl b ↦
            ground
              (arith, n, b, rest-rejected json wrote (reject wrote id err_request_check_failed c))
        | inr b ↦ elim (Option-cases (listener payload.port c.pm)) [
          | inl m ↦
              ground (
                arith,
                n,
                b,
                m,
                rest-rejected json wrote (reject wrote id err_port_not_listening c),
              )
          | inr (l, m) ↦ ground (
            arith,
            n,
            b,
            m,
            hand_task-hand_over json wrote payload.port l
                (new_transport (record { pk = c.local; port = payload.port })
                  (record { pk = payload.init_pk; port = 0 }) id seed)
                c,
          )
        ]
      ]
]

-- One turn of the loop of Serve as a single step, is the turn in which the
-- goroutine of a REQUEST, if the frame starts one, makes its three steps before the next frame comes.
-- A panic of the one is a panic of the other.
pub run-serve_frame :
    (json : Json) (wrote : Bool) (seed : List ℕ) (parts : ℕ × ℕ × List ℕ) (c : ClientConn)
    → run json
        (arrives wrote seed parts ∷ goes wrote 0 ∷ goes wrote 0 ∷ goes wrote 0 ∷ [])
        (record { conn = c; tasks = [] })
      ≡ (serve_frame json wrote seed parts c >>= λ r. some (record { conn = r.1; tasks = [] }))
unfolding run step resume serve_task start spawned serve_frame task_step go_on remaining alone
run-serve_frame json wrote seed (ft, id, p) c = elim (Option-cases (get_tp id c)) [
  | inr (tp, n) ↦ ground (arith, n)
  | inl n ↦ elim (Bool-cases (ft == request_type)) [
    | inr b ↦ ground (arith, n, b)
    | inl b ↦
        ground (arith, n, b, handle_task-handle_request_frame json wrote seed id p (del_tp id c))
  ]
]
