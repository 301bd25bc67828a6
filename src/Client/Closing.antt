-- ===== src/Client/Closing.antt =====
-- client.go: Close, and what a closed client still does.
use dmsg.Prelude.{
  ℕ, ◌≡◌, refl, ap, inl, inr, arith, Bool, true, false, Bool-cases, Option-cases, none, some, List,
  [], ◌∷◌, ◌==◌, lookup, nat_eq, ok, err, err_client_closed, port_busy,
}
use dmsg.Frame.{PubKey}
use dmsg.Listener.{Listener, new_listener, accept_transport, front}
use dmsg.Listener.Ports.{listener, assign}
use dmsg.ClientConn.{ClientConn}
use dmsg.Client.{
  Client, Env, listen, listened, close, close_conns, close_listeners, server_keys, reconnect,
}

-- Every connection of a list is closed.
abbrev pub AllClosed : List (PubKey × ClientConn) → Type 0
AllClosed [] = Unit {0}
AllClosed ((srv, conn) ∷ m) = (conn.done ≡ true) × AllClosed m

close_conns-AllClosed :
    (m : List (PubKey × ClientConn))
    → AllClosed (close_conns m) × (server_keys (close_conns m) ≡ server_keys m)
unfolding close_conns server_keys dmsg.ClientConn.close
close_conns-AllClosed [] = (tt, refl)
close_conns-AllClosed ((srv, conn) ∷ m) =
    let (a, k) = close_conns-AllClosed m in ((ground arith, a), ap (λ x. srv ∷ x) k)

lookup-close_listeners :
    (port : ℕ) (m : List (ℕ × Listener))
    → lookup port (close_listeners m)
      ≡ elim (lookup port m) [ none ↦ none | some l ↦ some (dmsg.Listener.close l).1 ]
unfolding close_listeners lookup
lookup-close_listeners port [] = refl
lookup-close_listeners port ((i, l) ∷ m) = elim (Bool-cases (i == port)) [
  | inl b ↦ ground (arith, b)
  | inr b ↦ ground (arith, b, lookup-close_listeners port m)
]

-- Close of an open client closes each of its connections, with every server that it had one with,
-- and keeps none. On each port there is a listener exactly if there was one, and a listener that
-- there is accepts no transport but reports that it is closed; such a port stays busy, and on any
-- other port Listen still succeeds. The reconnect logic stops, and another Close changes nothing.
pub close-closes :
    {W : Type 0} (env : Env W) (ctx : Bool) (srv : PubKey) (w : W) (port : ℕ) (c : Client)
    → c.done ≡ false
    → AllClosed (close c).0
      × (server_keys (close c).0 ≡ server_keys c.conns)
      × ((close c).1.conns ≡ [])
      × (elim (listener port (close c).1.pm) [ none ↦ none | some l ↦ accept_transport l ]
          ≡ elim (listener port c.pm) [
            | none ↦ none
            | some l ↦ some (err err_client_closed, (dmsg.Listener.close l).1)
          ])
      × ((listen port (close c).1).0 ≡ elim (listener port c.pm) [
        | none ↦ ok (new_listener c.pk port)
        | some l ↦ err port_busy
      ])
      × (reconnect env ctx srv (close c).1 w ≡ some (false, (close c).1, w))
      × (close (close c).1 ≡ ([], (close c).1))
unfolding close listener listen listened assign accept_transport front dmsg.Listener.close reconnect
close-closes env ctx srv w port c o =
    let (a, k) = close_conns-AllClosed c.conns in
    let l = lookup-close_listeners port c.pm.listeners in
    elim (Option-cases (lookup port c.pm.listeners)) [
      | inl n ↦ (
        ground (arith, o, a),
        ground (arith, o, k),
        ground (arith, o),
        ground (arith, o, l, n),
        ground (arith, o, l, n),
        ground (arith, o),
        ground (arith, o),
      )
      | inr (q, n) ↦ (
        ground (arith, o, a),
        ground (arith, o, k),
        ground (arith, o),
        ground (arith, o, l, n),
        ground (arith, o, l, n),
        ground (arith, o),
        ground (arith, o),
      )
    ]
