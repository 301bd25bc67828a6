-- ===== src/ClientConn/Steps/Runs.antt =====
-- client_conn.go: the runs of the loop of Serve and of the goroutines of the REQUESTs.
use dmsg.Prelude.{ℕ, zero, suc, Bool, ◌==◌, Option, none, some, List, [], ◌∷◌, ◌++◌}
use dmsg.Frame.{make_frame, request_type, close_type, placeholder_reason}
use dmsg.Transport.{◌>>=◌}
use dmsg.Transport.Handshake.{Json}
use dmsg.Transport.Inv.{Holds, Holds-bind}
use dmsg.ClientConn.{ClientConn, del_tp, get_tp, ignored}
use dmsg.ClientConn.Steps.{
  Task, task_step, spawned, serve_task, Serving, start, remaining, resume, Event, arrives, goes,
  step, run,
}
use dmsg.ClientConn.Steps.Keyed.{
  IsKeyed, TaskInv, AllInv, LeftInv, Leaves, if_case, del_tp-IsKeyed, close-IsKeyed,
  task_step-Leaves,
}

-- The connection is keyed, and each transport that a goroutine holds keeps a transport's invariant.
pub record IsSound (s : Serving) : Type 0 where
  pub conn : IsKeyed s.conn
  pub tasks : AllInv s.tasks

AllInv-append : (ts : List Task) (t : Task) → AllInv ts → TaskInv t → AllInv (ts ++ t ∷ [])
AllInv-append [] t h k = (k, tt)
AllInv-append (x ∷ ts) t (h, hs) k = (h, AllInv-append ts t hs k)

start-IsSound :
    (r : Option Task × ClientConn) (s : Serving) → Leaves r → IsSound s → IsSound (start r s)
unfolding start
start-IsSound (none, c) s (h, v) k = record { conn = v; tasks = k.tasks }
start-IsSound (some t, c) s (h, v) k = record {
  conn = v;
  tasks = AllInv-append s.tasks t k.tasks h;
}

ignored-Leaves :
    (wrote : Bool) (ft id : ℕ) (c : ClientConn)
    → IsKeyed c
    → Leaves (spawned (ignored wrote ft id c))
unfolding ignored spawned
ignored-Leaves wrote ft id c v =
    let answered : IsKeyed
        (record c { outs = c.outs ++ make_frame close_type id (placeholder_reason ∷ []) ∷ [] }) =
      record { keyed = v.keyed; shut = v.shut; queues = v.queues } in
    if_case (λ (r : Bool × ClientConn). Leaves (spawned r)) (ft == close_type) (tt, v)
      (if_case (λ (r : Bool × ClientConn). Leaves (spawned r)) wrote (tt, answered)
        (tt, close-IsKeyed c v))

serve_task-Leaves :
    (wrote : Bool) (seed : List ℕ) (parts : ℕ × ℕ × List ℕ) (c : ClientConn)
    → IsKeyed c
    → Leaves (serve_task wrote seed parts c)
unfolding serve_task
serve_task-Leaves wrote seed (ft, id, p) c v =
    let w = del_tp-IsKeyed id c v in
    go (get_tp id c) _
      (if_case Leaves (ft == request_type) (tt, w) (ignored-Leaves wrote ft id (del_tp id c) w))
  where
    go :
        (m : Option dmsg.Transport.Transport) (y : Option Task × ClientConn)
        → Leaves y
        → Leaves (elim m [
          | some tp ↦ (none, record c { inbox = c.inbox ++ (id, make_frame ft id p) ∷ [] })
          | none ↦ y
        ])
    go none y h = h
    go (some tp) y h = (tt, record { keyed = v.keyed; shut = v.shut; queues = v.queues })

abbrev Resumed : List Task × ClientConn → Type 0
Resumed r = AllInv r.0 × IsKeyed r.1

remaining-AllInv :
    (m : Option Task) (ts : List Task) → LeftInv m → AllInv ts → AllInv (remaining m ts)
unfolding remaining
remaining-AllInv none ts h k = k
remaining-AllInv (some t) ts h k = (h, k)

resume-Resumed :
    (json : Json) (wrote : Bool) (n : ℕ) (ts : List Task) (c : ClientConn)
    → AllInv ts
    → IsKeyed c
    → Holds Resumed (resume json wrote n ts c)
unfolding resume
resume-Resumed json wrote n [] c h v = (tt, v)
resume-Resumed json wrote zero (t ∷ ts) c (h, hs) v =
    Holds-bind Leaves Resumed (task_step json wrote t c) _ (task_step-Leaves json wrote t c h v)
      (λ r k. (remaining-AllInv r.0 ts k.0 hs, k.1))
resume-Resumed json wrote (suc n) (t ∷ ts) c (h, hs) v =
    Holds-bind Resumed Resumed (resume json wrote n ts c) _ (resume-Resumed json wrote n ts c hs v)
      (λ r k. ((h, k.0), k.1))

step-IsSound : (json : Json) (e : Event) (s : Serving) → IsSound s → Holds IsSound (step json e s)
unfolding step
step-IsSound json (arrives wrote seed parts) s v =
    start-IsSound (serve_task wrote seed parts s.conn) s
      (serve_task-Leaves wrote seed parts s.conn v.conn) v
step-IsSound json (goes wrote n) s v =
    Holds-bind Resumed IsSound (resume json wrote n s.tasks s.conn) _
      (resume-Resumed json wrote n s.tasks s.conn v.tasks v.conn)
      (λ r k. record { conn = k.1; tasks = k.0 })

-- From a sound connection with any goroutines of REQUESTs under way, in whatever order further frames
-- come and the goroutines make their steps, whether or not each write succeeds: nothing panics, and
-- the connection stays sound. That is, each transport in the map has the id that it stands under and,
-- as those that a goroutine still holds, keeps a transport's invariant; the connection is closed just
-- when it is done; and at each listener at most 20 transports wait, and none if it is closed.
pub run-IsSound :
    (json : Json) (es : List Event) (s : Serving) → IsSound s → Holds IsSound (run json es s)
unfolding run
run-IsSound json [] s v = v
run-IsSound json (e ∷ es) s v =
    Holds-bind IsSound IsSound (step json e s) (run json es) (step-IsSound json e s v)
      (λ t k. run-IsSound json es t k)
