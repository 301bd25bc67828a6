-- ===== src/Client/Counts.antt =====
-- client.go: InitiateServerConnections, and how many connections it leaves.
use dmsg.Prelude.{
  ℕ, zero, suc, ◌≤◌, ◌<◌, ◌≡◌, ◌⊎◌, inl, inr, refl, sym, ap, ◌∙◌, arith, Bool, true, Bool-cases,
  Option-cases, none, some, List, [], ◌∷◌, length, leb, ◌==◌, insert, lookup-insert, delete_absent,
  bytes_eq, bytes_beq_sound, Result, ok, err, Error, servers_failed, servers_unavailable,
}
use dmsg.Frame.{PubKey}
use dmsg.Client.{
  Client, Env, get_conn, conn_count, find_or_connect_to_server, enough, with_rest,
  find_or_connect_to_servers, find_server_entries, after_find, initiate_server_connections,
}
use dmsg.Client.Pool.{Found, find_or_connect_to_server-Found}
use dmsg.ClientConn.{ClientConn, new_client_conn}
use dmsg.Disc.{Entry}

-- A client that has more connections, and is otherwise the same.
pub record Grown (c c' : Client) : Type 0 where
  pub count : conn_count c ≤ conn_count c'
  pub keeps :
      (srv : PubKey) (conn : ClientConn) → get_conn srv c ≡ some conn → get_conn srv c' ≡ some conn
  pub done : c'.done ≡ c.done
  pub listeners : c'.pm ≡ c.pm

Grown-refl : (c c' : Client) → c' ≡ c → Grown c c'
unfolding conn_count get_conn
Grown-refl c c' e = record {
  count = ground (arith, ap (λ x. conn_count x) e);
  keeps = λ srv conn h. ap (λ x. get_conn srv x) e ∙ h;
  done = ap (λ x. x.done) e;
  listeners = ap (λ x. x.pm) e;
}

Grown-trans : (a b c : Client) → Grown a b → Grown b c → Grown a c
Grown-trans a b c f g = record {
  count = ground (arith, f.count, g.count);
  keeps = λ srv conn h. g.keeps srv conn (f.keeps srv conn h);
  done = g.done ∙ f.done;
  listeners = g.listeners ∙ f.listeners;
}

Grown-insert :
    (srv : PubKey) (conn : ClientConn) (c c' : Client)
    → get_conn srv c ≡ none
    → c' ≡ record c { conns = insert srv conn c.conns }
    → Grown c c'
unfolding conn_count get_conn insert
Grown-insert srv conn c c' n e = record {
  count =
      ground (arith, ap (λ x. conn_count x) e, ap (λ m. length m) (delete_absent srv c.conns n));
  keeps = λ s k h.
      ap (λ x. get_conn s x) e
      ∙ ground (arith, lookup-insert srv s conn c.conns, h, n, bytes_beq_sound srv s);
  done = ap (λ x. x.done) e;
  listeners = ap (λ x. x.pm) e;
}

Found-Grown : (srv : PubKey) (r : Result PubKey) (c c' : Client) → Found srv c r c' → Grown c c'
unfolding Found
Found-Grown srv r c c' (inl (o, e, conn, k)) = Grown-refl c c' e
Found-Grown srv r c c' (inr (inl (o, n, id, e))) =
    Grown-insert srv (new_client_conn c.pk srv id c.pm) c c' n e
Found-Grown srv r c c' (inr (inr (f, o, n, e))) = Grown-refl c c' e

-- What a loop over servers has come to, below the minimum or with enough of them.
unfoldable pub Reaches : ℕ → Client → Result (Unit {0}) → Client → Type 0
Reaches min c r c' =
    ((r ≡ ok tt) × (min ≤ conn_count c'))
    ⊎ ((e : Error) × (r ≡ err e) × ((conn_count c' < min) ⊎ (c' ≡ c)))

module _ {W : Type 0} (env : Env W) where
  Servers-step :
      (min : ℕ) (c c1 c' : Client) (r : Result (Unit {0}))
      → conn_count c1 < min
      → Reaches min c1 r c' × Grown c1 c'
      → Grown c c1
      → Reaches min c r c' × Grown c c'
  unfolding Reaches
  Servers-step min c c1 c' r l (inl o, g) f = (inl o, Grown-trans c c1 c' f g)
  Servers-step min c c1 c' r l (inr (e, o, inl k), g) f =
      (inr (e, o, inl k), Grown-trans c c1 c' f g)
  Servers-step min c c1 c' r l (inr (e, o, inr k), g) f =
      (inr (e, o, inl (ground (arith, l, ap (λ x. conn_count x) k))), Grown-trans c c1 c' f g)

  Servers-failed :
      (srv : PubKey) (f : Error) (min : ℕ) (c c1 c' : Client) (r : Result (Unit {0}))
      → Found srv c (err f) c1
      → Reaches min c1 r c' × Grown c1 c'
      → Reaches min c r c' × Grown c c'
  unfolding Reaches Found
  Servers-failed srv f min c c1 c' r (inl o) g = absurd (ground (arith, o.0))
  Servers-failed srv f min c c1 c' r (inr (inl o)) g = absurd (ground (arith, o.0))
  Servers-failed srv f min c c1 c' r (inr (inr (e, o, n, k))) (inl q, g) =
      (inl q, Grown-trans c c1 c' (Grown-refl c c1 k) g)
  Servers-failed srv f min c c1 c' r (inr (inr (e, o, n, k))) (inr (d, q, inl l), g) =
      (inr (d, q, inl l), Grown-trans c c1 c' (Grown-refl c c1 k) g)
  Servers-failed srv f min c c1 c' r (inr (inr (e, o, n, k))) (inr (d, q, inr l), g) =
      (inr (d, q, inr (l ∙ k)), Grown-trans c c1 c' (Grown-refl c c1 k) g)

  find_or_connect_to_servers-Reaches :
      (es : List Entry) (min : ℕ) (c c' : Client) (r : Result (Unit {0})) (w w' : W)
      → find_or_connect_to_servers env es min c w ≡ some (r, c', w')
      → Reaches min c r c' × Grown c c'
  unfolding find_or_connect_to_servers enough with_rest Reaches
  find_or_connect_to_servers-Reaches [] min c c' r w w' h =
      (inr (servers_failed, ground arith, inr (ground arith)), Grown-refl c c' (ground arith))
  find_or_connect_to_servers-Reaches (e ∷ es) min c c' r w w' h =
      elim (Option-cases (find_or_connect_to_server env e.static c w)) [
        | inl n ↦ absurd (ground (arith, n))
        | inr ((ok srv, c1, w1), n) ↦
            let f =
              Found-Grown e.static (ok srv) c c1
                (find_or_connect_to_server-Found env e.static c c1 (ok srv) w w1 n) in
            elim (Bool-cases (leb min (conn_count c1))) [
              | inl l ↦
                  let same : c' ≡ c1 = ground (arith, n, l) in
                  (
                    inl (ground (arith, n, l), ground (arith, l, ap (λ x. conn_count x) same)),
                    Grown-trans c c1 c' f (Grown-refl c1 c' same),
                  )
              | inr l ↦
                  Servers-step min c c1 c' r (ground (arith, l))
                    (find_or_connect_to_servers-Reaches es min c1 c' r w1 w' (ground (arith, n, l)))
                    f
            ]
        | inr ((err f, c1, w1), n) ↦
            Servers-failed e.static f min c c1 c' r
              (find_or_connect_to_server-Found env e.static c c1 (err f) w w1 n)
              (find_or_connect_to_servers-Reaches es min c1 c' r w1 w' (ground (arith, n)))
      ]

  -- InitiateServerConnections keeps every connection that there was. Where it succeeds, the client has
  -- at least `min` connections; where it fails, it has fewer, or it has the connections that it had.
  pub initiate_server_connections-conn_count :
      (ctx : ℕ → Bool) (fuel min : ℕ) (c c' : Client) (r : Result (Unit {0})) (w w' : W)
      → initiate_server_connections env ctx fuel min c w ≡ some (r, c', w')
      → (((r ≡ ok tt) × (min ≤ conn_count c'))
          ⊎ ((e : Error) × (r ≡ err e) × ((conn_count c' < min) ⊎ (c' ≡ c))))
        × Grown c c'
  unfolding initiate_server_connections after_find Reaches
  initiate_server_connections-conn_count ctx fuel min c c' r w w' h = elim (Bool-cases (min == 0)) [
    | inl z ↦ (inl (ground (arith, z), ground (arith, z)), Grown-refl c c' (ground (arith, z)))
    | inr z ↦ elim (Option-cases (find_server_entries env ctx fuel w)) [
      | inl n ↦ absurd (ground (arith, z, n))
      | inr ((err e, w1), n) ↦ (
        inr (e, ground (arith, z, n), inr (ground (arith, z, n))),
        Grown-refl c c' (ground (arith, z, n)),
      )
      | inr ((ok es, w1), n) ↦
          find_or_connect_to_servers-Reaches es min c c' r w1 w' (ground (arith, z, n))
    ]
  ]

Listed-cases :
    (o : Result (List Entry))
    → ((e : Entry) × (es : List Entry) × (o ≡ ok (e ∷ es)))
      ⊎ ((o ≡ ok []) ⊎ ((f : Error) × (o ≡ err f)))
Listed-cases (ok []) = inr (inl refl)
Listed-cases (ok (e ∷ es)) = inl (e, es, refl)
Listed-cases (err f) = inr (inr (f, refl))

module _ {W : Type 0} (env : Env W) where
  -- findServerEntries returns, at the latest when the context is done.
  find_server_entries_ends :
      (ctx : ℕ → Bool) (fuel i : ℕ) (w : W)
      → i < fuel
      → ctx i ≡ true
      → (r : Result (List Entry) × W) × (find_server_entries env ctx fuel w ≡ some r)
  unfolding find_server_entries
  find_server_entries_ends ctx zero i w l d = absurd (ground (arith, l))
  find_server_entries_ends ctx (suc fuel) i w l d =
      let (o, w1) = env.api.available_servers w in
      elim (Listed-cases o) [
        | inl (e, es, k) ↦ ((ok (e ∷ es), w1), ground (arith, k))
        | inr k ↦ elim (Bool-cases (ctx fuel)) [
          | inl b ↦ ((err servers_unavailable, w1), ground (arith, b, k))
          | inr b ↦
              let last : i ≡ fuel → ctx fuel ≡ true = λ q. sym (ap ctx q) ∙ d in
              let (r, h) = find_server_entries_ends ctx fuel i w1 (ground (arith, l, b, last)) d in
              (r, ground (arith, b, k, h))
        ]
      ]
