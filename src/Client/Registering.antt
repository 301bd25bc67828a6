-- ===== src/Client/Registering.antt =====
-- client.go: updateDiscEntry, with the mock client as the discovery, and Dial of a client that has
-- registered.
use dmsg.Prelude.{
  ℕ, ◌<◌, ◌≡◌, ◌⊎◌, inl, inr, refl, sym, ap, ◌∙◌, arith, Option-cases, none, some, List, lookup,
  lookup-insert, bytes_eq, bytes_beq_refl, ok,
}
use dmsg.Frame.{PubKey}
use dmsg.Client.{
  Client, Env, Attempt, server_keys, publish, republish, after_lookup, update_disc_entry,
}
use dmsg.Disc.{Entry, Signer, MockClient, entry, sign, set_entry, store, unsigned, update_entry}
use dmsg.Disc.Api.{mock_client, outcome, new_client_entry}
use dmsg.Disc.Update.{update_entry_ok}

-- A client whose discovery is the mock client.
unfoldable pub mock_env :
    Signer → ℕ → (PubKey → List ℕ → MockClient → Attempt × MockClient) → Env MockClient
mock_env s now attempt = record {
  api = mock_client s now;
  signer = s;
  now = now;
  attempt = attempt;
}

-- The entries kept are those of their keys.
abbrev pub IsKeyed : MockClient → Type 0
IsKeyed m = (pk : PubKey) (e : Entry) → lookup pk m.entries ≡ some e → e.static ≡ pk

-- What the discovery then has of the client.
unfoldable pub Registered : PubKey → List PubKey → MockClient → Type 0
Registered pk servers m =
    (e : Entry) × (lookup pk m.entries ≡ some e)
    × (e.static ≡ pk)
    × (e.client ≡ some (record { delegated_servers = servers }))

module _ (s : Signer) (now : ℕ)
    (attempt : PubKey → List ℕ → MockClient → Attempt × MockClient) where
  -- The first entry of a client is kept as it is.
  publish-Registered :
      (sk : List ℕ) (pk : PubKey) (servers : List PubKey) (m m' : MockClient)
      → lookup pk m.entries ≡ none
      → publish (mock_env s now attempt) (sign s sk (new_client_entry now pk 0 servers)) m
        ≡ (ok tt, m')
      → Registered pk servers m'
  unfolding publish mock_env mock_client sign set_entry store new_client_entry Registered
  publish-Registered sk pk servers m m' n h =
      elim (Option-cases (s.sign_payload sk (unsigned (new_client_entry now pk 0 servers)))) [
        | inl k ↦ absurd (ground (arith, k))
        | inr (sig, k) ↦
            let e = record (new_client_entry now pk 0 servers) { signature = sig } in
            (
              e,
              ground (arith, n, k, lookup-insert pk pk e m.entries, bytes_beq_refl pk),
              refl,
              refl,
            )
      ]

  -- A later one is kept with the new servers, where the discovery has none that is newer.
  republish-Registered :
      (sk : List ℕ) (pk : PubKey) (servers : List PubKey) (prev : Entry) (m m' : MockClient)
      → lookup pk m.entries ≡ some prev
      → prev.static ≡ pk
      → republish (mock_env s now attempt) sk servers prev m ≡ some (ok tt, m')
      → Registered pk servers m' ⊎ ((now < prev.timestamp) × (m' ≡ m))
  unfolding republish mock_env mock_client outcome Registered
  republish-Registered sk pk servers prev m m' n st h = elim (Option-cases prev.client) [
    | inl k ↦ absurd (ground (arith, k))
    | inr (cl, k) ↦
        let e0 = record prev { client = some (record { delegated_servers = servers }) } in
        elim (Option-cases (update_entry s sk now 2 e0 m)) [
          | inl u ↦ absurd (ground (arith, k, u))
          | inr ((r, e1, m1), u) ↦
              let r_ok : r ≡ ok tt = ground (arith, k, u) in
              let same : m1 ≡ m' = ground (arith, k, u) in
              elim (update_entry_ok s sk now 2 e0 e1 m m1 (u ∙ ap (λ x. some (x, e1, m1)) r_ok)) [
                | inl (l, t, p, q, v) ↦ inl (
                  e1,
                  ap (λ x. lookup pk x.entries) (sym same)
                      ∙ ap (λ x. lookup x m1.entries) (sym st)
                      ∙ l,
                  p ∙ st,
                  q,
                )
                | inr (old, l, t, p, q) ↦
                    inr (ground (arith, n, t, l, ap (λ x. lookup x m.entries) st), sym same ∙ q)
              ]
        ]
  ]

  -- Where updateDiscEntry succeeds, the discovery has an entry of the client whose servers are exactly
  -- those that the client is connected with; or it had kept a newer entry, and changes nothing.
  pub update_disc_entry-mock_env :
      (c : Client) (m m' : MockClient)
      → IsKeyed m
      → update_disc_entry (mock_env s now attempt) c m ≡ some (ok tt, m')
      → ((e : Entry) × (lookup c.pk m'.entries ≡ some e)
          × (e.static ≡ c.pk)
          × (e.client ≡ some (record { delegated_servers = server_keys c.conns })))
        ⊎ ((prev : Entry) × (lookup c.pk m.entries ≡ some prev) × (now < prev.timestamp) × (m' ≡ m))
  unfolding update_disc_entry after_lookup mock_env mock_client entry Registered
  update_disc_entry-mock_env c m m' keyed h = elim (Option-cases (lookup c.pk m.entries)) [
    | inl n ↦ inl (publish-Registered c.sk c.pk (server_keys c.conns) m m' n (ground (arith, n)))
    | inr (prev, n) ↦
        elim (republish-Registered c.sk c.pk (server_keys c.conns) prev m m' n (keyed c.pk prev n)
          (ground (arith, n))) [ inl r ↦ inl r | inr (t, q) ↦ inr (prev, n, t, q) ]
  ]
