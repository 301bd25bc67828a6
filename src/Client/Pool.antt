-- ===== src/Client/Pool.antt =====
-- client.go: the connections that a client keeps.
use dmsg.Prelude.{
  ℕ, ◌≡◌, ◌⊎◌, inl, inr, refl, sym, ap, ◌∙◌, arith, Bool-cases, Option-cases, none, some, lookup,
  insert, lookup-insert, bytes_eq, bytes_beq_sound, Result, ok, err, Error, not_ok, not_server,
}
use dmsg.Frame.{PubKey}
use dmsg.Client.{
  Client, Env, Attempt, fails, connects, get_conn, update_disc_entry, updated, set_conn, found,
  connected, looked_up, find_or_connect_to_server,
}
use dmsg.ClientConn.{ClientConn, new_client_conn, read_ok}
use dmsg.Disc.{Entry}

-- What findOrConnectToServer makes of the map, and its result: a connection that was there; a new one;
-- or an error, and the map as it was.
unfoldable pub Found : PubKey → Client → Result PubKey → Client → Type 0
Found srv c r c' =
    ((r ≡ ok srv) × (c' ≡ c) × (conn : ClientConn) × (get_conn srv c ≡ some conn))
    ⊎ (((r ≡ ok srv)
          × (get_conn srv c ≡ none)
          × (init_id : ℕ) × (c'
              ≡ record c { conns = insert srv (new_client_conn c.pk srv init_id c.pm) c.conns }))
        ⊎ ((e : Error) × (r ≡ err e) × (get_conn srv c ≡ none) × (c' ≡ c)))

module _ {W : Type 0} (env : Env W) where
  set_conn-conns :
      (conn : ClientConn) (c c' : Client) (w w' : W)
      → set_conn env conn c w ≡ some (c', w')
      → c' ≡ record c { conns = insert conn.remote_srv conn c.conns }
  unfolding set_conn updated
  set_conn-conns conn c c' w w' h =
      elim (Option-cases
        (update_disc_entry env (record c { conns = insert conn.remote_srv conn c.conns }) w)) [
          | inl n ↦ absurd (ground (arith, n))
          | inr (r, n) ↦ ground (arith, n)
        ]

  connected-Found :
      (srv : PubKey) (c c' : Client) (r : Result PubKey) (a : Attempt) (w w' : W)
      → get_conn srv c ≡ none
      → connected env srv c (a, w) ≡ some (r, c', w')
      → Found srv c r c'
  unfolding connected found new_client_conn Found
  connected-Found srv c c' r (fails e) w w' n h = inr (inr (e, ground arith, n, ground arith))
  connected-Found srv c c' r (connects init_id frame) w w' n h = elim (Bool-cases (read_ok frame)) [
    | inl o ↦ elim (Option-cases (set_conn env (new_client_conn c.pk srv init_id c.pm) c w)) [
      | inl k ↦ absurd (ground (arith, o, k))
      | inr ((c1, w1), k) ↦ inr (
          inl (
            ground (arith, o, k),
            n,
            init_id,
            ground
                (arith, o, k, set_conn-conns (new_client_conn c.pk srv init_id c.pm) c c1 w w1 k),
          ))
    ]
    | inr o ↦ inr (inr (not_ok, ground (arith, o), n, ground (arith, o)))
  ]

  looked_up-Found :
      (srv : PubKey) (c c' : Client) (r : Result PubKey) (o : Result Entry) (w w' : W)
      → get_conn srv c ≡ none
      → looked_up env srv c (o, w) ≡ some (r, c', w')
      → Found srv c r c'
  unfolding looked_up Found
  looked_up-Found srv c c' r (err e) w w' n h = inr (inr (e, ground arith, n, ground arith))
  looked_up-Found srv c c' r (ok entry) w w' n h = elim (Option-cases entry.server) [
    | inl k ↦ inr (inr (not_server, ground (arith, k), n, ground (arith, k)))
    | inr (server, k) ↦
        let (a, w1) = env.attempt srv server.address w in
        connected-Found srv c c' r a w1 w' n (ground (arith, k))
  ]

  pub find_or_connect_to_server-Found :
      (srv : PubKey) (c c' : Client) (r : Result PubKey) (w w' : W)
      → find_or_connect_to_server env srv c w ≡ some (r, c', w')
      → Found srv c r c'
  unfolding find_or_connect_to_server Found
  find_or_connect_to_server-Found srv c c' r w w' h = elim (Option-cases (get_conn srv c)) [
    | inl n ↦
        let (o, w1) = env.api.entry srv w in
        looked_up-Found srv c c' r o w1 w' n (ground (arith, n))
    | inr (conn, n) ↦ inl (ground (arith, n), ground (arith, n), conn, n)
  ]

-- Each connection that a client keeps is its own, with the server that it is kept under.
pub record IsValid (c : Client) : Type 0 where
  pub local : (srv : PubKey) (conn : ClientConn) → get_conn srv c ≡ some conn → conn.local ≡ c.pk
  pub remote_srv :
      (srv : PubKey) (conn : ClientConn) → get_conn srv c ≡ some conn → conn.remote_srv ≡ srv

IsValid-same : (c c' : Client) → c' ≡ c → IsValid c → IsValid c'
IsValid-same c c' e v = record {
  local = λ srv conn h.
      v.local srv conn (ap (λ x. get_conn srv x) (sym e) ∙ h) ∙ ap (λ x. x.pk) (sym e);
  remote_srv = λ srv conn h. v.remote_srv srv conn (ap (λ x. get_conn srv x) (sym e) ∙ h);
}

-- A connection of the client's that is put under its server.
IsValid-insert :
    (srv : PubKey) (conn : ClientConn) (c c' : Client)
    → conn.local ≡ c.pk
    → conn.remote_srv ≡ srv
    → c'.conns ≡ insert srv conn c.conns
    → c'.pk ≡ c.pk
    → IsValid c
    → IsValid c'
unfolding get_conn
IsValid-insert srv conn c c' l r e p v = record {
  local = λ s k h.
      ground
        (arith, l, p, h, ap (λ m. lookup s m) e, lookup-insert srv s conn c.conns, v.local s k);
  remote_srv = λ s k h. ground (
    arith,
    r,
    h,
    ap (λ m. lookup s m) e,
    lookup-insert srv s conn c.conns,
    v.remote_srv s k,
    bytes_beq_sound srv s,
  );
}

pub Found-IsValid :
    (srv : PubKey) (r : Result PubKey) (c c' : Client)
    → Found srv c r c'
    → IsValid c
    → IsValid c' × (c'.pk ≡ c.pk)
unfolding Found new_client_conn
Found-IsValid srv r c c' (inl (o, e, conn, k)) v = (IsValid-same c c' e v, ap (λ x. x.pk) e)
Found-IsValid srv r c c' (inr (inl (o, n, id, e))) v = (
  IsValid-insert srv (new_client_conn c.pk srv id c.pm) c c' refl refl (ap (λ x. x.conns) e)
      (ap (λ x. x.pk) e) v,
  ap (λ x. x.pk) e,
)
Found-IsValid srv r c c' (inr (inr (f, o, n, e))) v = (IsValid-same c c' e v, ap (λ x. x.pk) e)

pub Found-ok : (srv s : PubKey) (c c' : Client) → Found srv c (ok s) c' → s ≡ srv
unfolding Found
Found-ok srv s c c' (inl o) = ground (arith, o.0)
Found-ok srv s c c' (inr (inl o)) = ground (arith, o.0)
Found-ok srv s c c' (inr (inr (f, o, n, e))) = absurd (ground (arith, o))
