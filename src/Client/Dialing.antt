-- ===== src/Client/Dialing.antt =====
-- client.go: Dial, down to the transport that it returns.
use dmsg.Prelude.{
  ℕ, ◌≡◌, refl, sym, ap, ◌∙◌, inl, inr, arith, Bool-cases, Option-cases, some, List, [], ◌∷◌, ◌++◌,
  length, ◌==◌, lookup-insert, nat_eq, bytes_eq, bytes_beq_refl, Result, ok, err,
}
use dmsg.Frame.{PubKey}
use dmsg.Transport.{Transport}
use dmsg.ClientConn.{ClientConn, get_tp, dial_transport}
use dmsg.Client.{
  Client, Env, Way, get_conn, find_or_connect_to_server, put_conn, on_conn, dial_over, dialled,
  reached, with_rest, dial_servers, dial_entry, dial,
}
use dmsg.Client.Pool.{Found-ok, IsValid, Found-IsValid, find_or_connect_to_server-Found}
use dmsg.Disc.{Entry}
use dmsg.ClientConn.Dialing.{Fresh, dial_transport_ok}

-- A transport of the client's to the peer, which one of the servers' connections has.
unfoldable pub Dialled : PubKey → PubKey → ℕ → List PubKey → Transport → Client → Type 0
Dialled pk remote port srvs tp c =
    (before : List PubKey) × (srv : PubKey) × (after : List PubKey) × (srvs ≡ before ++ srv ∷ after)
    × (conn : ClientConn) × (get_conn srv c ≡ some conn)
    × (get_tp tp.id conn ≡ some tp)
    × Fresh pk remote port tp

get_conn-put_conn :
    (srv : PubKey) (conn : ClientConn) (c : Client) → get_conn srv (put_conn srv conn c) ≡ some conn
unfolding get_conn put_conn
get_conn-put_conn srv conn c =
    ground (arith, lookup-insert srv srv conn c.conns, bytes_beq_refl srv)

dial_over_ok :
    (way : Way) (remote : PubKey) (port : ℕ) (srv : PubKey) (tp : Transport) (c c' : Client)
    → IsValid c
    → dial_over way remote port srv c ≡ some (ok tp, c')
    → (conn : ClientConn) × (get_conn srv c' ≡ some conn)
      × (get_tp tp.id conn ≡ some tp)
      × Fresh c.pk remote port tp
unfolding dial_over on_conn
dial_over_ok way remote port srv tp c c' v h = elim (Option-cases (get_conn srv c)) [
  | inl n ↦ absurd (ground (arith, n))
  | inr (conn, n) ↦
      let here : ClientConn = record conn { pm = c.pm } in
      elim (Option-cases
        (dial_transport way.json way.ctx way.fuel way.wrote way.event remote port way.seed here)) [
          | inl k ↦ absurd (ground (arith, n, k))
          | inr ((r, k), e) ↦
              let r_is : r ≡ ok tp = ground (arith, n, e) in
              let c_is : c' ≡ put_conn srv k c = ground (arith, n, e) in
              let (f, g) =
                dial_transport_ok way.json way.ctx way.fuel way.wrote way.event remote port way.seed
                  tp here k (e ∙ ap (λ x. some (x, k)) r_is) in
              (
                k,
                ap (λ x. get_conn srv x) c_is ∙ get_conn-put_conn srv k c,
                g,
                ground (arith, f, ap (λ x. Fresh x remote port tp) (v.local srv conn n)),
              )
        ]
]

module _ {W : Type 0} (env : Env W) (way : Way) (remote : PubKey) (port : ℕ) (tp : Transport) where
  later :
      (pk : PubKey) (srv : PubKey) (srvs : List PubKey) (c : Client)
      → Dialled pk remote port srvs tp c
      → Dialled pk remote port (srv ∷ srvs) tp c
  unfolding Dialled
  later pk srv srvs c (before, s, after, e, conn, g, t, f) =
      (srv ∷ before, s, after, ap (λ x. srv ∷ x) e, conn, g, t, f)

  dial_servers_ok :
      (srvs : List PubKey) (c c' : Client) (w w' : W)
      → IsValid c
      → dial_servers env way remote port srvs c w ≡ some (ok tp, c', w')
      → Dialled c.pk remote port srvs tp c'
  unfolding dial_servers reached dialled with_rest Dialled
  dial_servers_ok [] c c' w w' v h = absurd (ground arith)
  dial_servers_ok (srv ∷ srvs) c c' w w' v h =
      elim (Option-cases (find_or_connect_to_server env srv c w)) [
        | inl n ↦ absurd (ground (arith, n))
        | inr ((err e, c1, w1), n) ↦
            let (v1, p) =
              Found-IsValid srv (err e) c c1
                (find_or_connect_to_server-Found env srv c c1 (err e) w w1 n) v in
            later c.pk srv srvs c' (
              ground (
                arith,
                dial_servers_ok srvs c1 c' w1 w' v1 (ground (arith, n)),
                ap (λ x. Dialled x remote port srvs tp c') p,
              ))
        | inr ((ok s, c1, w1), n) ↦
            let found = find_or_connect_to_server-Found env srv c c1 (ok s) w w1 n in
            let (v1, p) = Found-IsValid srv (ok s) c c1 found v in
            elim (Option-cases (dial_over way remote port s c1)) [
              | inl k ↦ absurd (ground (arith, n, k))
              | inr ((r, c2), k) ↦
                  let r_is : r ≡ ok tp = ground (arith, n, k) in
                  let c_is : c2 ≡ c' = ground (arith, n, k) in
                  let (conn, g, t, f) =
                    dial_over_ok way remote port s tp c1 c2 v1 (k ∙ ap (λ x. some (x, c2)) r_is) in
                  (
                    [],
                    s,
                    srvs,
                    ap (λ x. x ∷ srvs) (sym (Found-ok srv s c c1 found)),
                    conn,
                    ap (λ x. get_conn s x) (sym c_is) ∙ g,
                    t,
                    ground (arith, f, ap (λ x. Fresh x remote port tp) p),
                  )
            ]
      ]

  dial_entry_ok :
      (o : Result Entry) (c c' : Client) (w w' : W)
      → IsValid c
      → dial_entry env way remote port c (o, w) ≡ some (ok tp, c', w')
      → (entry : Entry) × (peer : dmsg.Disc.Client) × (o ≡ ok entry)
        × (entry.client ≡ some peer)
        × Dialled c.pk remote port peer.delegated_servers tp c'
  unfolding dial_entry
  dial_entry_ok (err e) c c' w w' v h = absurd (ground arith)
  dial_entry_ok (ok entry) c c' w w' v h = elim (Option-cases entry.client) [
    | inl n ↦ absurd (ground (arith, n))
    | inr (peer, n) ↦ elim (Bool-cases (length peer.delegated_servers == 0)) [
      | inl b ↦ absurd (ground (arith, n, b))
      | inr b ↦ (
        entry,
        peer,
        refl,
        n,
        dial_servers_ok peer.delegated_servers c c' w w' v (ground (arith, n, b)),
      )
    ]
  ]

  -- Where Dial succeeds, the discovery had an entry of the peer as a client, and the transport runs
  -- over the connection with one of the servers that this entry delegates to, which the client has
  -- and which has the transport under its id. The transport's ends are the client and the peer's port
  -- that was asked for; it serves, is open, and nothing has been read from it.
  pub dial-Dialled :
      (c c' : Client) (w w' : W)
      → IsValid c
      → dial env way remote port c w ≡ some (ok tp, c', w')
      → (entry : Entry) × (peer : dmsg.Disc.Client) × ((env.api.entry remote w).0 ≡ ok entry)
        × (entry.client ≡ some peer)
        × Dialled c.pk remote port peer.delegated_servers tp c'
  unfolding dial
  dial-Dialled c c' w w' v h =
      let (o, w1) = env.api.entry remote w in dial_entry_ok o c c' w1 w' v h
