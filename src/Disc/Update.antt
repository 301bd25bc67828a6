-- ===== src/Disc/Update.antt =====
-- disc/testing.go: UpdateEntry against the entries that are kept.
use dmsg.Prelude.{
  ℕ, zero, suc, ◌%◌, ◌<◌, ◌≤◌, ◌≡◌, ◌⊎◌, ◌↔◌, refl, inl, inr, sym, ap, ◌∙◌, some, List, arith,
  bytes_eq, bytes_beq_refl, lookup, lookup-insert, u64_mod, Option-cases, Result, Error, ok, err,
}
use dmsg.Disc.{
  Entry, Signer, unsigned, verify_signature, sign, before_seq, validate_iteration, MockClient,
  store, stored, check_next, set_entry, Turn, returns, again, retry, after_set, after_sign,
  update_loop, update_entry,
}

-- ValidateIteration lets an entry follow exactly if its number is the next one, modulo 2 ^ 64, and
-- its time is later.
validate_iteration_lem :
    (e next : Entry)
    → e.sequence < u64_mod
    → next.sequence < u64_mod
    → (validate_iteration e next ≡ ok tt)
      ↔ ((next.sequence ≡ suc e.sequence % u64_mod) × (e.timestamp < next.timestamp))
unfolding validate_iteration before_seq
validate_iteration_lem e next h k = ((λ v. ground arith), (λ v. ground (arith, v)))

before_seq-suc : (n : ℕ) → n < u64_mod → before_seq (suc n % u64_mod) ≡ n
unfolding before_seq
before_seq-suc n h = omega arith

-- A turn that tries again has found another entry, which is not newer, and takes the number that
-- follows that entry's.
turn_again :
    (s : Signer) (sk : List ℕ) (e e' : Entry) (m m' : MockClient)
    → after_sign s m (sign s sk e) ≡ again e' m'
    → (prev : Entry) × (lookup e.static m.entries ≡ some prev)
      × (m' ≡ m)
      × (e'.static ≡ e.static)
      × (e'.timestamp ≡ e.timestamp)
      × (e'.client ≡ e.client)
      × (e'.server ≡ e.server)
      × (prev.timestamp ≤ e.timestamp)
      × (e'.sequence ≡ suc prev.sequence % u64_mod)
unfolding after_sign sign after_set set_entry stored retry
turn_again s sk e e' m m' h = elim (Option-cases (lookup e.static m.entries)) [
  | inl n ↦ absurd (ground arith)
  | inr (prev, n) ↦ (
    prev,
    n,
    ground arith,
    ground arith,
    ground arith,
    ground arith,
    ground arith,
    ground arith,
    ground arith,
  )
]

-- A number that follows the entry that is kept makes the turn the last.
turn_last :
    (s : Signer) (sk : List ℕ) (e e' prev : Entry) (m m' : MockClient)
    → lookup e.static m.entries ≡ some prev
    → before_seq e.sequence ≡ prev.sequence
    → after_sign s m (sign s sk e) ≡ again e' m'
    → ⊥
unfolding after_sign sign after_set set_entry stored check_next verify_signature validate_iteration
    retry
turn_last s sk e e' prev m m' n b h = ground arith

pub Turn-cases :
    (t : Turn)
    → ((r : Result (Unit {0})) × (e : Entry) × (m : MockClient) × (t ≡ returns r e m))
      ⊎ ((e : Entry) × (m : MockClient) × (t ≡ again e m))
Turn-cases (returns r e m) = inl (r, e, m, refl)
Turn-cases (again e m) = inr (e, m, refl)

-- The loop of UpdateEntry ends: whatever entry is kept, if the sequence numbers kept are 64-bit
-- words, it returns after at most two turns, where the context and the entries are the caller's
-- alone.
pub update_entry_ends :
    (s : Signer) (sk : List ℕ) (now : ℕ) (e : Entry) (m : MockClient)
    → ((pk : List ℕ) (prev : Entry) → lookup pk m.entries ≡ some prev → prev.sequence < u64_mod)
    → (r : Result (Unit {0}) × Entry × MockClient) × (update_entry s sk now 2 e m ≡ some r)
unfolding update_entry update_loop
update_entry_ends s sk now e m words =
    let e1 = record e { sequence = suc e.sequence % u64_mod; timestamp = now } in
    elim (Turn-cases (after_sign s m (sign s sk e1))) [
      | inl (r, f, k, h) ↦ ((r, f, k), ground (arith, h))
      | inr (e2, m2, h) ↦
          let (prev, n, same, st, ts, cl, sv, le, sq) = turn_again s sk e1 e2 m m2 h in
          elim (Turn-cases (after_sign s m2 (sign s sk e2))) [
            | inl (r, f, k, h2) ↦ ((r, f, k), ground (arith, h, h2))
            | inr (e3, m3, h2) ↦ absurd (
                turn_last s sk e2 e3 prev m2 m3
                  (ap (λ x. lookup e2.static x.entries) same ∙ ap (λ x. lookup x m.entries) st ∙ n)
                  (ap before_seq sq ∙ before_seq-suc prev.sequence (words e.static prev n)) h2)
          ]
    ]

Outcome : Entry → MockClient → Entry → MockClient → Type 0
Outcome e m e' m' =
    ((lookup e.static m'.entries ≡ some e')
      × (e'.timestamp ≡ e.timestamp)
      × (e'.static ≡ e.static)
      × (e'.client ≡ e.client)
      × (e'.server ≡ e.server))
    ⊎ ((prev : Entry) × (lookup e.static m.entries ≡ some prev)
        × (e.timestamp < prev.timestamp)
        × (e'.sequence ≡ prev.sequence)
        × (m' ≡ m))

Result-cases : (r : Result (Unit {0})) → (r ≡ ok tt) ⊎ ((f : Error) × (r ≡ err f))
Result-cases (ok u) = inl refl
Result-cases (err f) = inr (f, refl)

turn_ok :
    (s : Signer) (sk : List ℕ) (e e' : Entry) (m m' : MockClient)
    → after_sign s m (sign s sk e) ≡ returns (ok tt) e' m'
    → Outcome e m e' m'
unfolding after_sign sign after_set set_entry stored store check_next retry Outcome
turn_ok s sk e e' m m' h = elim (Option-cases (lookup e.static m.entries)) [
  | inl n ↦
      inl (ground (arith, lookup-insert e.static e.static e' m.entries, bytes_beq_refl e.static))
  | inr (prev, n) ↦ elim (Option-cases (s.sign_payload sk (unsigned e))) [
    | inl k ↦ absurd (ground arith)
    | inr (sig, k) ↦
        elim (Result-cases (
          check_next s (record e { signature = sig })
            (validate_iteration prev (record e { signature = sig })))) [
              | inl o ↦ inl (
                  ground
                    (arith, lookup-insert e.static e.static e' m.entries, bytes_beq_refl e.static))
              | inr (f, o) ↦ inr (prev, n, ground arith, ground arith, ground arith)
            ]
  ]
]

Outcome-again :
    (e e1 e' : Entry) (m m1 m' : MockClient)
    → m1 ≡ m
    → e1.static ≡ e.static
    → e1.timestamp ≡ e.timestamp
    → e1.client ≡ e.client
    → e1.server ≡ e.server
    → Outcome e1 m1 e' m'
    → Outcome e m e' m'
unfolding Outcome
Outcome-again e e1 e' m m1 m' same st ts cl sv (inl o) =
    inl (ground (arith, o, st, cl, sv, ap (λ k. lookup k m'.entries) st))
Outcome-again e e1 e' m m1 m' same st ts cl sv (inr (prev, n, newer, sq, kept)) = inr (
  prev,
  ap (λ k. lookup k m.entries) (sym st) ∙ ap (λ x. lookup e1.static x.entries) (sym same) ∙ n,
  ground arith,
  sq,
  kept ∙ same,
)

loop_ok :
    (s : Signer) (sk : List ℕ) (fuel : ℕ) (e e' : Entry) (m m' : MockClient)
    → update_loop s sk fuel e m ≡ some (ok tt, e', m')
    → Outcome e m e' m'
unfolding update_loop
loop_ok s sk zero e e' m m' h = absurd (ground arith)
loop_ok s sk (suc fuel) e e' m m' h = elim (Turn-cases (after_sign s m (sign s sk e))) [
  | inl (r, f, k, t) ↦ turn_ok s sk e e' m m' (ground arith)
  | inr (e1, m1, t) ↦
      let (prev, n, same, st, ts, cl, sv, le, sq) = turn_again s sk e e1 m m1 t in
      Outcome-again e e1 e' m m1 m' same st ts cl sv (loop_ok s sk fuel e1 e' m1 m' (ground arith))
]

-- Where UpdateEntry succeeds, the client keeps the entry that the caller is left with, at the new
-- time and with the data that the caller gave; or it had kept a newer one, changes nothing, and the caller has that one's sequence number.
pub update_entry_ok :
    (s : Signer) (sk : List ℕ) (now fuel : ℕ) (e e' : Entry) (m m' : MockClient)
    → update_entry s sk now fuel e m ≡ some (ok tt, e', m')
    → ((lookup e.static m'.entries ≡ some e')
        × (e'.timestamp ≡ now)
        × (e'.static ≡ e.static)
        × (e'.client ≡ e.client)
        × (e'.server ≡ e.server))
      ⊎ ((prev : Entry) × (lookup e.static m.entries ≡ some prev)
          × (now < prev.timestamp)
          × (e'.sequence ≡ prev.sequence)
          × (m' ≡ m))
unfolding update_entry Outcome
update_entry_ok s sk now fuel e e' m m' h =
    loop_ok s sk fuel (record e { sequence = suc e.sequence % u64_mod; timestamp = now }) e' m m' h
