-- ===== src/Server/Lifecycle.antt =====
-- server.go: a server's life. The goroutines that serve its connections are named like the
-- connections; the wait group counts them. The listener, the discovery and the clock are parameters:
-- what Accept and the listener's Close give, and an ApiClient over the state W.
use dmsg.Prelude.{
  ℕ, zero, suc, Bool, true, false, ◌||◌, Option, none, some, List, [], ◌∷◌, if◌then◌else◌, length,
  ◌==◌, nat_eq, Result, ok, err, Error, accept_failed, already_closed, ctx_done,
}
use dmsg.Frame.{PubKey}
use dmsg.Transport.{◌>>=◌}
use dmsg.Transport.Handshake.{Json}
use dmsg.Server.{
  ServerConn, new_server_conn, put, set_conn, del_conn, serve_frame, write_ok, finish_serving,
}
use dmsg.Disc.{Entry, Signer, sign}
use dmsg.Disc.Api.{ApiClient, new_server_entry}

-- Server, with the connections and routes as `routes`; `made` counts the connections that there were,
-- and `serving` lists those that are served.
pub record Host : Type 0 where
  pub pk : PubKey
  pub sk : List ℕ
  pub addr : List ℕ
  pub routes : dmsg.Server.Server
  pub made : ℕ
  pub serving : List ℕ
  pub lis_done : Bool

-- NewServer: `none` is ErrListenerAlreadyWrappedToNoise. `unused` is the place of no connection.
unfoldable pub new_server : PubKey → List ℕ → List ℕ → List ℕ → Bool → ServerConn → Option Host
new_server pk sk addr lis_addr is_noise unused =
    if is_noise
    then none
    else some (record {
      pk = pk;
      sk = sk;
      addr = if length addr == 0 then lis_addr else addr;
      routes = record { conn = λ c. unused; conns = []; outs = []; closing = [] };
      made = 0;
      serving = [];
      lis_done = false;
    })

-- What Accept gives: an error, or a connection with the key of its client, and the number that randID
-- gives for it.
pub data Accepted : Type 0 where
  fails : Accepted
  accepts : PubKey → ℕ → Accepted

-- One turn of the loop of Serve: the result with which it returns, or none where it goes on.
unfoldable pub accept : Accepted → Host → Option (Result (Unit {0})) × Host
accept fails h = (some (if h.lis_done then ok tt else err accept_failed), h)
accept (accepts pk resp_id) h = (
  none,
  record h {
    routes = set_conn h.made (put h.made (new_server_conn pk resp_id) h.routes);
    made = suc h.made;
    serving = h.made ∷ h.serving;
  },
)

-- The goroutine of a connection: its Serve, from writeOK on, frame by frame, to its end, and then
-- delConn with the key of the connection.
unfoldable pub without : ℕ → List ℕ → List ℕ
without c [] = []
without c (d ∷ ds) = let rest = without c ds in if c == d then rest else d ∷ rest

unfoldable pub finish : (ℕ → Bool) → ℕ → Host → Host
finish alive c h = record h {
  routes = del_conn (h.routes.conn c).remote_client (finish_serving alive c h.routes);
  serving = without c h.serving;
}

-- What Serve does with the outcome of writeOK or of a frame: it goes on or it ends.
unfoldable pub go_on : (ℕ → Bool) → ℕ → Host → Bool × dmsg.Server.Server → Host
go_on alive c h (true, s) = record h { routes = s }
go_on alive c h (false, s) = finish alive c (record h { routes = s })

unfoldable pub begin : (ℕ → Bool) → ℕ → Host → Host
begin alive c h = go_on alive c h (write_ok alive c h.routes)

unfoldable pub frame : Json → (ℕ → Bool) → (ℕ → Bool) → ℕ → ℕ → ℕ × ℕ × List ℕ → Host → Option Host
frame json alive ctx fuel c f h =
    serve_frame json alive ctx fuel c f h.routes >>= λ r. some (go_on alive c h r)

-- close: whether this call closed the server, and the error of the listener's Close.
unfoldable pub close : Option Error → Host → (Bool × Option Error) × Host
close (some e) h =
    if h.lis_done then ((false, none), h) else ((true, some e), record h { lis_done = true })
close none h =
    if h.lis_done
    then ((false, none), h)
    else ((true, none), record h { lis_done = true; routes = record h.routes { conns = [] } })

-- The exported Close, from what close has reported, where `serving` is served at its end: `none` while
-- it waits.
unfoldable pub close_result : List ℕ → Bool × Option Error → Option (Result (Unit {0}))
close_result serving (false, e) = some (err already_closed)
close_result serving (true, some e) = some (err e)
close_result [] (true, none) = some (ok tt)
close_result (c ∷ cs) (true, none) = none

module _ {W : Type 0} (api : ApiClient W) (signer : Signer) (now : ℕ) where
  unfoldable pub publish : Result (Unit {0}) × Entry → W → Result (Unit {0}) × W
  publish (err e, entry) w = (err e, w)
  publish (ok u, entry) w = api.set_entry entry w

  -- The entry that was found gets the address; one without a server is the nil pointer's panic.
  unfoldable pub republish : List ℕ → List ℕ → Entry → W → Option (Result (Unit {0}) × W)
  republish sk addr entry w = elim entry.server [
    | none ↦ none
    | some server ↦
        api.update_entry sk (record entry { server = some (record server { address = addr }) }) w
  ]

  unfoldable pub after_lookup : Host → Result Entry × W → Option (Result (Unit {0}) × W)
  after_lookup h (err e, w) =
      some (publish (sign signer h.sk (new_server_entry now h.pk 0 h.addr 10)) w)
  after_lookup h (ok entry, w) = republish h.sk h.addr entry w

  unfoldable pub update_disc_entry : Host → W → Option (Result (Unit {0}) × W)
  update_disc_entry h w = after_lookup h (api.entry h.pk w)

  -- retryUpdateEntry, on fuel; `ctx` says whether its context is done when so much fuel is left.
  unfoldable pub retried :
      Bool
      → (W → Option (Result (Unit {0}) × W))
      → Result (Unit {0}) × W
      → Option (Result (Unit {0}) × W)
  retried ended again (ok u, w) = some (ok tt, w)
  retried ended again (err e, w) = if ended then some (err ctx_done, w) else again w

  unfoldable pub retry_update_entry : (ℕ → Bool) → ℕ → Host → W → Option (Result (Unit {0}) × W)
  retry_update_entry ctx zero h w = none
  retry_update_entry ctx (suc fuel) h w =
      update_disc_entry h w >>= retried (ctx fuel) (retry_update_entry ctx fuel h)

-- What happens at a server, and a run of it. What a goroutine does that has
-- ended is nothing.
pub data Call : Type 0 where
  accepted : Accepted → Call
  begun : ℕ → Call
  framed : ℕ → ℕ × ℕ × List ℕ → Call
  ended : ℕ → Call
  closed : Option Error → Call

unfoldable pub is_served : ℕ → List ℕ → Bool
is_served c [] = false
is_served c (d ∷ ds) = c == d || is_served c ds

module _ (json : Json) (alive ctx : ℕ → Bool) (fuel : ℕ) where
  unfoldable pub step : Call → Host → Option Host
  step (accepted a) h = some (accept a h).1
  step (begun c) h = if is_served c h.serving then some (begin alive c h) else some h
  step (framed c f) h = if is_served c h.serving then frame json alive ctx fuel c f h else some h
  step (ended c) h = if is_served c h.serving then some (finish alive c h) else some h
  step (closed e) h = some (close e h).1

  unfoldable pub run : List Call → Host → Option Host
  run [] h = some h
  run (call ∷ calls) h = step call h >>= run calls
