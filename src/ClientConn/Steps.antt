-- ===== src/ClientConn/Steps.antt =====
-- client_conn.go: the goroutines that Serve starts for the REQUEST frames, each step by step, beside
-- the loop of Serve. A step of a goroutine ends where IntroduceTransport or handleRequestFrame
-- returns.
pub mod Sequence
pub mod Race
pub mod Keyed
pub mod Runs
use dmsg.Prelude.{
  ℕ, zero, suc, Bool, true, false, not, ◌||◌, Option, none, some, List, [], ◌∷◌, ◌++◌,
  if◌then◌else◌, ◌==◌, insert, nat_eq, bytes_beq, Result, ok, err, err_client_closed,
  err_request_check_failed, err_port_not_listening,
}
use dmsg.Frame.{make_frame, request_type, is_initiator_id}
use dmsg.Transport.{Transport, new_transport, close_with_frame, ◌>>=◌}
use dmsg.Transport.Handshake.{HandshakePayload, Json}
use dmsg.Listener.{Listener, introduce}
use dmsg.Listener.Ports.{listener}
use dmsg.ClientConn.{
  ClientConn, set_tp, del_tp, get_tp, reject, introduced, settle, is_kept, after_request, ignored,
}

-- What a goroutine has still to do: all of handleRequestFrame; setTp for the transport that it has
-- introduced, with what IntroduceTransport returned; or what follows handleRequestFrame.
pub data Task : Type 0 where
  handles : ℕ → List ℕ → List ℕ → Task
  holds : Result (Unit {0}) → Transport → Task
  returns : Result (Unit {0}) → Task

-- A transport's writes, and the call of delTp where it has closed.
unfoldable pub settled : Transport → ClientConn → ClientConn
settled tp c = record (settle tp c) { outs = c.outs ++ tp.sent }

unfoldable pub hand_task : Bool → ℕ → Listener → Transport → ClientConn → Option (Task × ClientConn)
unfolding settled
hand_task wrote port l tp c =
    if c.done
    then (close_with_frame tp >>= λ tp'. some (returns (err err_client_closed), settled tp' c))
    else (introduce tp.id l >>= λ x.
        let pm' = record c.pm { listeners = insert port x.1 c.pm.listeners } in
        introduced wrote x.0 tp >>= λ r. some (holds r.0 r.1, settled r.1 (record c { pm = pm' })))

unfoldable pub rejected : Result (Unit {0}) × ClientConn → Task × ClientConn
rejected (r, c) = (returns r, c)

-- handleRequestFrame up to the return of IntroduceTransport.
unfoldable pub handle_task :
    Json → Bool → List ℕ → ℕ → List ℕ → ClientConn → Option (Task × ClientConn)
unfolding hand_task rejected
handle_task json wrote seed id p c = elim (json.unmarshal p) [
  | none ↦ some (rejected (reject wrote id err_request_check_failed c))
  | some payload ↦
      if not (bytes_beq payload.resp_pk c.local) || is_initiator_id id
      then some (rejected (reject wrote id err_request_check_failed c))
      else elim (listener payload.port c.pm) [
        | none ↦ some (rejected (reject wrote id err_port_not_listening c))
        | some l ↦
            hand_task wrote payload.port l
              (new_transport (record { pk = c.local; port = payload.port })
                (record { pk = payload.init_pk; port = 0 }) id seed)
              c
      ]
]

unfoldable pub go_on : Task × ClientConn → Option Task × ClientConn
go_on (t, c) = (some t, c)

-- The next step of a goroutine: what it has still to do, or `none` where it has ended.
unfoldable pub task_step : Json → Bool → Task → ClientConn → Option (Option Task × ClientConn)
unfolding handle_task go_on
task_step json wrote (handles id p seed) c =
    handle_task json wrote seed id p c >>= λ r. some (go_on r)
task_step json wrote (holds r tp) c =
    some (some (returns r), if is_kept r then set_tp tp.id tp c else c)
task_step json wrote (returns r) c = some (none, after_request (r, c))

unfoldable pub spawned : Bool × ClientConn → Option Task × ClientConn
spawned (go, c) = (none, c)

-- One turn of the loop of Serve: the goroutine that it starts, if any.
unfoldable pub serve_task : Bool → List ℕ → ℕ × ℕ × List ℕ → ClientConn → Option Task × ClientConn
unfolding spawned
serve_task wrote seed (ft, id, p) c = elim (get_tp id c) [
  | some tp ↦ (none, record c { inbox = c.inbox ++ (id, make_frame ft id p) ∷ [] })
  | none ↦
      if ft == request_type
      then (some (handles id p seed), del_tp id c)
      else spawned (ignored wrote ft id (del_tp id c))
]

-- A connection and the goroutines of its REQUESTs.
pub record Serving : Type 0 where
  pub conn : ClientConn
  pub tasks : List Task

unfoldable pub start : Option Task × ClientConn → Serving → Serving
start (none, c) s = record s { conn = c }
start (some t, c) s = record { conn = c; tasks = s.tasks ++ t ∷ [] }

unfoldable pub remaining : Option Task → List Task → List Task
remaining none ts = ts
remaining (some t) ts = t ∷ ts

-- The goroutine at a place in the list, and the others; where there is none, nothing happens.
unfoldable pub resume : Json → Bool → ℕ → List Task → ClientConn → Option (List Task × ClientConn)
unfolding task_step remaining
resume json wrote n [] c = some ([], c)
resume json wrote zero (t ∷ ts) c = task_step json wrote t c >>= λ r. some (remaining r.0 ts, r.1)
resume json wrote (suc n) (t ∷ ts) c = resume json wrote n ts c >>= λ r. some (t ∷ r.0, r.1)

-- A frame from the server, with whether the connection takes a write and the seed of a transport; or
-- a step of a goroutine.
pub data Event : Type 0 where
  arrives : Bool → List ℕ → ℕ × ℕ × List ℕ → Event
  goes : Bool → ℕ → Event

unfoldable pub step : Json → Event → Serving → Option Serving
unfolding start serve_task resume
step json (arrives wrote seed parts) s = some (start (serve_task wrote seed parts s.conn) s)
step json (goes wrote n) s =
    resume json wrote n s.tasks s.conn >>= λ r. some (record { conn = r.1; tasks = r.0 })

unfoldable pub run : Json → List Event → Serving → Option Serving
unfolding step
run json [] s = some s
run json (e ∷ es) s = step json e s >>= run json es
