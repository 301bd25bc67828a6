-- ===== src/ClientConn/Steps/Keyed.antt =====
-- client_conn.go: what every interleaving of the goroutines of the REQUESTs with the loop of Serve
-- keeps.
use mathlib.Core.Path.{subst}
use dmsg.Prelude.{
  ℕ, ◌≡◌, refl, sym, inl, inr, Bool, true, false, not, ◌||◌, ◌==◌, Option, none, some, List, [],
  ◌∷◌, ◌++◌, arith, insert, lookup, lookup-insert, nat_eq, bytes_beq, Bool-cases, Option-cases,
  Result, ok, err, Error, write_error, err_client_closed, err_request_check_failed,
  err_port_not_listening, if◌then◌else◌,
}
use dmsg.Frame.{is_initiator_id}
use dmsg.Transport.{Transport, new_transport, serve, close_with_frame}
use dmsg.Transport.Handshake.{Json, write_accept}
use dmsg.Transport.Inv.{Inv, Holds, Holds-bind}
use dmsg.Transport.Kept.{Kept, Keeps, close_with_frame-Kept, write_or_close-Kept}
use dmsg.Transport.Safety.{new_transport-Inv}
use dmsg.Listener.{Listener, Introduced, refused_closed, refused_full, queued}
use dmsg.Listener.Queue.{introduce_total}
use dmsg.Listener.Ports.{listener}
use dmsg.ClientConn as Conn
use dmsg.ClientConn.{
  ClientConn, entries, set_tp, del_tp, get_tp, reject, introduced, after_accept, settle, is_kept,
  after_request, ignored,
}
use dmsg.ClientConn.Queues.{HasQueues, insert-HasQueues}
use dmsg.ClientConn.Steps.{
  Task, handles, holds, returns, settled, hand_task, rejected, handle_task, go_on, task_step,
}

-- Each transport of the map has the id that it stands under and keeps a transport's invariant, the
-- connection is closed just when it is done, and the accept queues keep their bounds.
pub record IsKeyed (c : ClientConn) : Type 0 where
  pub keyed : (id : ℕ) (tp : Transport) → lookup id c.tps ≡ some (some tp) → (tp.id ≡ id) × Inv tp
  pub shut : c.done ≡ c.conn_closed
  pub queues : HasQueues c.pm

abbrev pub TaskInv : Task → Type 0
TaskInv (handles id p seed) = Unit {0}
TaskInv (holds r tp) = Inv tp
TaskInv (returns r) = Unit {0}

abbrev pub AllInv : List Task → Type 0
AllInv [] = Unit {0}
AllInv (t ∷ ts) = TaskInv t × AllInv ts

set_tp-IsKeyed :
    (tp : Transport) (c : ClientConn) → Inv tp → IsKeyed c → IsKeyed (set_tp tp.id tp c)
unfolding set_tp
set_tp-IsKeyed tp c i v = record {
  keyed = λ id u e. elim (Bool-cases (tp.id == id)) [
    | inl b ↦
        let same : tp ≡ u = ground (arith, e, b, lookup-insert tp.id id (some tp) c.tps) in
        (ground (arith, b, same), subst Inv same i)
    | inr b ↦ v.keyed id u (ground (arith, e, b, lookup-insert tp.id id (some tp) c.tps))
  ];
  shut = v.shut;
  queues = v.queues;
}

abbrev no_tp : Option Transport
no_tp = none

pub del_tp-IsKeyed : (id : ℕ) (c : ClientConn) → IsKeyed c → IsKeyed (del_tp id c)
unfolding del_tp
del_tp-IsKeyed id c v = record {
  keyed = λ j u e. v.keyed j u (ground (arith, e, lookup-insert id j no_tp c.tps));
  shut = v.shut;
  queues = v.queues;
}

settled-IsKeyed : (tp : Transport) (c : ClientConn) → IsKeyed c → IsKeyed (settled tp c)
unfolding settled settle
settled-IsKeyed tp c v =
    let w = del_tp-IsKeyed tp.id c v in
    elim (Bool-cases tp.done) [
      | inl b ↦ rw b (record { keyed = w.keyed; shut = w.shut; queues = w.queues })
      | inr b ↦ rw b (record { keyed = v.keyed; shut = v.shut; queues = v.queues })
    ]

reject-IsKeyed :
    (wrote : Bool) (id : ℕ) (e : Error) (c : ClientConn)
    → IsKeyed c
    → IsKeyed (reject wrote id e c).1
unfolding reject
reject-IsKeyed true id e c v = record { keyed = v.keyed; shut = v.shut; queues = v.queues }
reject-IsKeyed false id e c v = v

pub if_case {ℓ κ} :
    {A : Type ℓ} (P : A → Type κ) (b : Bool) {x y : A} → P x → P y → P (if b then x else y)
if_case P true h k = h
if_case P false h k = k

pub close-IsKeyed : (c : ClientConn) → IsKeyed c → IsKeyed (Conn.close c).1
unfolding Conn.close
close-IsKeyed c v =
    let shut : ClientConn = record c {
      done = true;
      conn_closed = true;
      closing = c.closing ++ entries c.tps;
    } in
    if_case (λ (r : Bool × ClientConn). IsKeyed r.1) c.done {x = (false, c)} {y = (true, shut)} v
      (record { keyed = v.keyed; shut = refl; queues = v.queues })

serve-Inv : (tp : Transport) → Inv tp → Inv (serve tp).1
unfolding serve
serve-Inv tp v = record {
  size = v.size;
  held = v.held;
  waiter = v.waiter;
  buf_ch = v.buf_ch;
  in_ch = v.in_ch;
  served = λ e. refl;
  removed = v.removed;
}

after_accept-Inv : (r : Result (Unit {0}) × Transport) → Inv r.1 → Inv (after_accept r).1
unfolding after_accept
after_accept-Inv (ok u, tp) v = serve-Inv tp v
after_accept-Inv (err e, tp) v = v

introduced-Inv :
    (wrote : Bool) (i : Introduced) (tp : Transport)
    → Inv tp
    → Holds (λ r. Inv r.1) (introduced wrote i tp)
unfolding introduced write_accept
introduced-Inv wrote refused_closed tp v = v
introduced-Inv wrote refused_full tp v =
    Holds-bind (Kept tp) (λ r. Inv r.1) (close_with_frame tp) _ (close_with_frame-Kept tp v)
      (λ t k. k.inv)
introduced-Inv wrote queued tp v =
    Holds-bind (Keeps tp) (λ r. Inv r.1) (write_accept wrote tp) _
      (write_or_close-Kept tp v wrote _) (λ r k. after_accept-Inv r k.inv)

-- A step of a goroutine that leaves a task, or has ended.
abbrev Goes : Task × ClientConn → Type 0
Goes r = TaskInv r.0 × IsKeyed r.1

abbrev pub LeftInv : Option Task → Type 0
LeftInv none = Unit {0}
LeftInv (some t) = TaskInv t

abbrev pub Leaves : Option Task × ClientConn → Type 0
Leaves r = LeftInv r.0 × IsKeyed r.1

hand_task-Goes :
    (wrote : Bool) (port : ℕ) (l : Listener) (tp : Transport) (c : ClientConn)
    → Inv tp
    → listener port c.pm ≡ some l
    → IsKeyed c
    → Holds Goes (hand_task wrote port l tp c)
unfolding hand_task
hand_task-Goes wrote port l tp c i there v =
    let (x, m, kept) = introduce_total tp.id l in
    let pm' = record c.pm { listeners = insert port x.1 c.pm.listeners } in
    let d = record c { pm = pm' } in
    let w : IsKeyed d = record {
      keyed = v.keyed;
      shut = v.shut;
      queues =
          insert-HasQueues port x.1 c.pm (kept (unfold HasQueues in v.queues port l there))
            v.queues;
    } in
    if_case (Holds Goes) c.done
      (Holds-bind (Kept tp) Goes (close_with_frame tp) _ (close_with_frame-Kept tp i)
        (λ t k. (tt, settled-IsKeyed t c v)))
      (rw m (
        Holds-bind (λ r. Inv r.1) Goes (introduced wrote x.0 tp) _ (introduced-Inv wrote x.0 tp i)
          (λ r k. (k, settled-IsKeyed r.1 d w))))

rejected-Goes : (r : Result (Unit {0}) × ClientConn) → IsKeyed r.1 → Goes (rejected r)
unfolding rejected
rejected-Goes (r, c) v = (tt, v)

handle_task-Goes :
    (json : Json) (wrote : Bool) (seed : List ℕ) (id : ℕ) (p : List ℕ) (c : ClientConn)
    → IsKeyed c
    → Holds Goes (handle_task json wrote seed id p c)
unfolding handle_task
handle_task-Goes json wrote seed id p c v = elim (Option-cases (json.unmarshal p)) [
  | inl n ↦ refused err_request_check_failed (ground (arith, n))
  | inr (payload, n) ↦
      elim (Bool-cases (not (bytes_beq payload.resp_pk c.local) || is_initiator_id id)) [
        | inl b ↦ refused err_request_check_failed (ground (arith, n, b))
        | inr b ↦ elim (Option-cases (listener payload.port c.pm)) [
          | inl m ↦ refused err_port_not_listening (ground (arith, n, b, m))
          | inr (l, m) ↦
              let tp =
                new_transport (record { pk = c.local; port = payload.port })
                  (record { pk = payload.init_pk; port = 0 }) id seed in
              let e : handle_task json wrote seed id p c ≡ hand_task wrote payload.port l tp c =
                ground (arith, n, b, m) in
              subst (Holds Goes) (sym e) (
                hand_task-Goes wrote payload.port l tp c
                  (new_transport-Inv (record { pk = c.local; port = payload.port })
                    (record { pk = payload.init_pk; port = 0 }) id seed)
                  m v)
        ]
      ]
]
  where
    refused :
        (e : Error)
        → handle_task json wrote seed id p c ≡ some (rejected (reject wrote id e c))
        → Holds Goes (handle_task json wrote seed id p c)
    refused e h =
        subst (Holds Goes) (sym h)
          (rejected-Goes (reject wrote id e c) (reject-IsKeyed wrote id e c v))

after_request-IsKeyed :
    (r : Result (Unit {0})) (c : ClientConn) → IsKeyed c → IsKeyed (after_request (r, c))
unfolding after_request
after_request-IsKeyed (ok u) c v = v
after_request-IsKeyed (err write_error) c v = close-IsKeyed c v
after_request-IsKeyed (err err_client_closed) c v = close-IsKeyed c v
after_request-IsKeyed (err e) c v = v

pub task_step-Leaves :
    (json : Json) (wrote : Bool) (t : Task) (c : ClientConn)
    → TaskInv t
    → IsKeyed c
    → Holds Leaves (task_step json wrote t c)
unfolding task_step go_on
task_step-Leaves json wrote (handles id p seed) c i v =
    Holds-bind Goes Leaves (handle_task json wrote seed id p c) _
      (handle_task-Goes json wrote seed id p c v) (λ r k. k)
task_step-Leaves json wrote (holds r tp) c i v = elim (Bool-cases (is_kept r)) [
  | inl b ↦ (tt, rw b (set_tp-IsKeyed tp c i v))
  | inr b ↦ (tt, rw b v)
]
task_step-Leaves json wrote (returns r) c i v = (tt, after_request-IsKeyed r c v)
