-- ===== src/Client.antt =====
-- client.go: a client, its connections with servers, and its listeners. `conns` is the map from the
-- public keys of servers to connections; a connection lives in its entry. The port manager is the
-- client's and its connections' alike: a connection works on the client's. What the discovery does is
-- an ApiClient over the state W; what a dial of a server's address with the handshake gives is a
-- parameter. An outer `none` is a panic, or a loop that has not ended. Logging is left out.

pub mod Pool
pub mod Counts
pub mod Dialing
pub mod Closing
pub mod Registering
use dmsg.Prelude.{
  ℕ, zero, suc, Bool, true, false, ◌||◌, Option, none, some, List, [], ◌∷◌, if◌then◌else◌, length,
  leb, ◌==◌, lookup, insert, delete, bytes_eq, bytes_beq, Result, ok, err, Error, port_busy, not_ok,
  not_server, not_client, err_no_srv, servers_failed, servers_unavailable,
}
use dmsg.Frame.{PubKey}
use dmsg.Transport.{Transport, ◌>>=◌}
use dmsg.Transport.Handshake.{Json, Event}
use dmsg.Listener.{Listener}
use dmsg.Listener.Ports.{PortManager, new_port_manager, assign}
use dmsg.ClientConn.{ClientConn, new_client_conn, read_ok, dial_transport}
use dmsg.Disc.{Entry, Signer, sign}
use dmsg.Disc.Api.{ApiClient, new_client_entry}

pub record Client : Type 0 where
  pub pk : PubKey
  pub sk : List ℕ
  pub conns : List (PubKey × ClientConn)
  pub pm : PortManager
  pub done : Bool

-- NewClient
unfoldable pub new_client : PubKey → List ℕ → Client
new_client pk sk = record { pk = pk; sk = sk; conns = []; pm = new_port_manager; done = false }

-- The keys of the map of connections, in the order in which it is ranged over.
unfoldable pub server_keys : List (PubKey × ClientConn) → List PubKey
server_keys [] = []
server_keys ((srv, conn) ∷ m) = srv ∷ server_keys m

unfoldable pub get_conn : PubKey → Client → Option ClientConn
get_conn srv c = lookup srv c.conns

unfoldable pub conn_count : Client → ℕ
conn_count c = length c.conns

-- What the dial of a server's address, the handshake and the first frame read give: an error; or a
-- connection, the number that randID gives for it, and the type of the frame.
pub data Attempt : Type 0 where
  fails : Error → Attempt
  connects : ℕ → Option ℕ → Attempt

-- What a client works with: the discovery, the signing of entries, the clock, and the dials of servers
-- by their key and address.
pub record Env (W : Type 0) : Type 0 where
  pub api : ApiClient W
  pub signer : Signer
  pub now : ℕ
  pub attempt : PubKey → List ℕ → W → Attempt × W

-- The rest of a loop, in the state that a turn has left.
unfoldable pub with_rest {ℓ} :
    {W : Type 0} {A : Type ℓ} → (Client → W → Option A) → Result PubKey × Client × W → Option A
with_rest f (r, c, w) = f c w

module _ {W : Type 0} (env : Env W) where
  -- The new entry of updateDiscEntry, once Sign has been called.
  unfoldable pub publish : Result (Unit {0}) × Entry → W → Result (Unit {0}) × W
  publish (err e, entry) w = (err e, w)
  publish (ok u, entry) w = env.api.set_entry entry w

  -- The entry that was found gets the servers; one without a client is the nil pointer's panic.
  unfoldable pub republish : List ℕ → List PubKey → Entry → W → Option (Result (Unit {0}) × W)
  republish sk servers entry w = elim entry.client [
    | none ↦ none
    | some cl ↦
        env.api.update_entry sk
          (record entry { client = some (record cl { delegated_servers = servers }) }) w
  ]

  unfoldable pub after_lookup : Client → Result Entry × W → Option (Result (Unit {0}) × W)
  after_lookup c (err e, w) =
      some
        (publish (sign env.signer c.sk (new_client_entry env.now c.pk 0 (server_keys c.conns))) w)
  after_lookup c (ok entry, w) = republish c.sk (server_keys c.conns) entry w

  unfoldable pub update_disc_entry : Client → W → Option (Result (Unit {0}) × W)
  update_disc_entry c w = after_lookup c (env.api.entry c.pk w)

  -- setConn and delConn; a failed update is logged.
  unfoldable pub updated : Client → Result (Unit {0}) × W → Client × W
  updated c (r, w) = (c, w)

  unfoldable pub set_conn : ClientConn → Client → W → Option (Client × W)
  set_conn conn c w =
      let c' = record c { conns = insert conn.remote_srv conn c.conns } in
      update_disc_entry c' w >>= λ r. some (updated c' r)

  unfoldable pub del_conn : PubKey → Client → W → Option (Client × W)
  del_conn srv c w =
      let c' = record c { conns = delete srv c.conns } in
      update_disc_entry c' w >>= λ r. some (updated c' r)

  -- findOrConnectToServer. The connection that it returns is named by the key of its server.
  unfoldable pub found : PubKey → Client × W → Result PubKey × Client × W
  found srv (c, w) = (ok srv, c, w)

  unfoldable pub connected : PubKey → Client → Attempt × W → Option (Result PubKey × Client × W)
  connected srv c (fails e, w) = some (err e, c, w)
  connected srv c (connects init_id frame, w) =
      if read_ok frame
      then (set_conn (new_client_conn c.pk srv init_id c.pm) c w >>= λ r. some (found srv r))
      else some (err not_ok, c, w)

  unfoldable pub looked_up :
      PubKey → Client → Result Entry × W → Option (Result PubKey × Client × W)
  looked_up srv c (err e, w) = some (err e, c, w)
  looked_up srv c (ok entry, w) = elim entry.server [
    | none ↦ some (err not_server, c, w)
    | some server ↦ connected srv c (env.attempt srv server.address w)
  ]

  unfoldable pub find_or_connect_to_server :
      PubKey → Client → W → Option (Result PubKey × Client × W)
  find_or_connect_to_server srv c w = elim (get_conn srv c) [
    | some conn ↦ some (ok srv, c, w)
    | none ↦ looked_up srv c (env.api.entry srv w)
  ]

  -- The goroutine of findOrConnectToServer after the connection's Serve has returned: delConn, and
  -- then one turn of the reconnect logic, where `ctx` says that the context is done. It gives whether
  -- there is another turn.
  unfoldable pub retried : Result PubKey × Client × W → Bool × Client × W
  retried (ok srv, c, w) = (false, c, w)
  retried (err e, c, w) = (true, c, w)

  unfoldable pub reconnect : Bool → PubKey → Client → W → Option (Bool × Client × W)
  reconnect ctx srv c w =
      if c.done || ctx
      then some (false, c, w)
      else (find_or_connect_to_server srv c w >>= λ r. some (retried r))

  -- findServerEntries, on fuel; `ctx` says whether the context is done when so much fuel is left.
  unfoldable pub find_server_entries : (ℕ → Bool) → ℕ → W → Option (Result (List Entry) × W)
  find_server_entries ctx zero w = none
  find_server_entries ctx (suc fuel) w =
      let (found, w') = env.api.available_servers w in
      let again = find_server_entries ctx fuel w' in
      elim found [
        | ok (e ∷ es) ↦ some (ok (e ∷ es), w')
        | ok [] ↦ if ctx fuel then some (err servers_unavailable, w') else again
        | err e ↦ if ctx fuel then some (err servers_unavailable, w') else again
      ]

  -- findOrConnectToServers: the loop goes on with `rest` after a failure, and below the minimum.
  unfoldable pub enough :
      ℕ
      → Option (Result (Unit {0}) × Client × W)
      → Result PubKey × Client × W
      → Option (Result (Unit {0}) × Client × W)
  enough min rest (err e, c, w) = rest
  enough min rest (ok srv, c, w) = if leb min (conn_count c) then some (ok tt, c, w) else rest

  unfoldable pub find_or_connect_to_servers :
      List Entry → ℕ → Client → W → Option (Result (Unit {0}) × Client × W)
  find_or_connect_to_servers [] min c w = some (err servers_failed, c, w)
  find_or_connect_to_servers (e ∷ es) min c w = find_or_connect_to_server e.static c w >>= λ r.
      enough min (with_rest (find_or_connect_to_servers es min) r) r

  unfoldable pub after_find :
      ℕ → Client → Result (List Entry) × W → Option (Result (Unit {0}) × Client × W)
  after_find min c (err e, w) = some (err e, c, w)
  after_find min c (ok es, w) = find_or_connect_to_servers es min c w

  unfoldable pub initiate_server_connections :
      (ℕ → Bool) → ℕ → ℕ → Client → W → Option (Result (Unit {0}) × Client × W)
  initiate_server_connections ctx fuel min c w =
      if min == 0 then some (ok tt, c, w) else (find_server_entries ctx fuel w >>= after_find min c)

-- A method of a connection, called through the client's map: it works on the client's port manager,
-- and the connection stays in the map.
unfoldable pub put_conn : PubKey → ClientConn → Client → Client
put_conn srv conn c = record c { conns = insert srv conn c.conns; pm = conn.pm }

unfoldable pub on_conn {ℓ} :
    {A : Type ℓ} → (ClientConn → Option (A × ClientConn)) → PubKey → Client → Option (A × Client)
on_conn f srv c =
    get_conn srv c >>= λ conn. f (record conn { pm = c.pm }) >>= λ r. some (r.0, put_conn srv r.1 c)

-- What goes on at a connection that is dialled over: what DialTransport takes beside its peer.
pub record Way : Type 0 where
  pub json : Json
  pub ctx : ℕ → Bool
  pub fuel : ℕ
  pub wrote : Bool
  pub event : Event
  pub seed : List ℕ

unfoldable pub dial_over : Way → PubKey → ℕ → PubKey → Client → Option (Result Transport × Client)
dial_over way remote port srv c =
    on_conn (dial_transport way.json way.ctx way.fuel way.wrote way.event remote port way.seed) srv
      c

module _ {W : Type 0} (env : Env W) (way : Way) where
  -- Dial: the first server that can be reached is the one that is dialled over.
  unfoldable pub dialled : W → Result Transport × Client → Result Transport × Client × W
  dialled w (r, c) = (r, c, w)

  unfoldable pub reached :
      PubKey
      → ℕ
      → Option (Result Transport × Client × W)
      → Result PubKey × Client × W
      → Option (Result Transport × Client × W)
  reached remote port rest (err e, c, w) = rest
  reached remote port rest (ok srv, c, w) =
      dial_over way remote port srv c >>= λ r. some (dialled w r)

  unfoldable pub dial_servers :
      PubKey → ℕ → List PubKey → Client → W → Option (Result Transport × Client × W)
  dial_servers remote port [] c w = some (err servers_failed, c, w)
  dial_servers remote port (srv ∷ srvs) c w = find_or_connect_to_server env srv c w >>= λ r.
      reached remote port (with_rest (dial_servers remote port srvs) r) r

  unfoldable pub dial_entry :
      PubKey → ℕ → Client → Result Entry × W → Option (Result Transport × Client × W)
  dial_entry remote port c (err e, w) = some (err e, c, w)
  dial_entry remote port c (ok entry, w) = elim entry.client [
    | none ↦ some (err not_client, c, w)
    | some cl ↦
        if length cl.delegated_servers == 0
        then some (err err_no_srv, c, w)
        else dial_servers remote port cl.delegated_servers c w
  ]

  unfoldable pub dial : PubKey → ℕ → Client → W → Option (Result Transport × Client × W)
  dial remote port c w = dial_entry remote port c (env.api.entry remote w)

-- Listen
unfoldable pub listened : Client → Option Listener × PortManager → Result Listener × Client
listened c (none, pm) = (err port_busy, record c { pm = pm })
listened c (some l, pm) = (ok l, record c { pm = pm })

unfoldable pub listen : ℕ → Client → Result Listener × Client
listen port c = listened c (assign c.pk port c.pm)

-- Close: the connections that it closed, and the client. Close of a connection is its `close`, and
-- then waits for the goroutines that serve it; it only warns about one that had been closed. Every
-- listener of the port manager is closed, and stays on its port.
unfoldable pub close_conns : List (PubKey × ClientConn) → List (PubKey × ClientConn)
close_conns [] = []
close_conns ((srv, conn) ∷ m) = (srv, (dmsg.ClientConn.close conn).1) ∷ close_conns m

unfoldable pub close_listeners : List (ℕ × Listener) → List (ℕ × Listener)
close_listeners [] = []
close_listeners ((port, l) ∷ m) = (port, (dmsg.Listener.close l).1) ∷ close_listeners m

unfoldable pub close : Client → List (PubKey × ClientConn) × Client
close c = if c.done then ([], c) else (
  close_conns c.conns,
  record c { conns = []; pm = record { listeners = close_listeners c.pm.listeners }; done = true },
)
