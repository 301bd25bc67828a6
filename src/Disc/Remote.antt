-- ===== src/Disc/Remote.antt =====
-- disc/client.go against disc/testing.go: the HTTP client of a service that keeps its entries the way
-- the mock client does.
use dmsg.Prelude.{
  ℕ, zero, suc, ◌%◌, ◌≡◌, ◌≢◌, ◌⊎◌, inl, inr, refl, Option, none, some, List, arith, u64_mod,
  Option-cases, Result, ok, err, Error, err_validation_wrong_time, signature_error, sign_failed,
  bytes_eq, err_validation_wrong_sequence,
}
use dmsg.Disc.{
  Entry, Signer, unsigned, MockClient, sign, stored, before_seq, store, check_next,
  verify_signature, validate_iteration,
}
use dmsg.Disc.Messages.{err_from_string}
use dmsg.Disc.Http
use dmsg.Disc.Update.{Turn-cases}

-- What a service answers for a result, where an error has the message `text`.
unfoldable pub reply : {A : Type 0} → (Error → List ℕ) → Result A → Http.Reply A
reply text (ok a) = Http.answers (some a)
reply text (err f) = Http.refuses (some (text f))

-- A service that does what the mock client does.
unfoldable pub mock_service : (Error → List ℕ) → Signer → Http.Service MockClient
mock_service text s = record {
  get_entry = λ pk m. (reply text (dmsg.Disc.entry pk m), m);
  post_entry = λ e m. let (r, m') = dmsg.Disc.set_entry s e m in (reply text r, m');
  get_servers = λ m. (reply text (ok m.list), m);
}

-- What an error of UpdateEntry has become where it arrives; Sign fails on the side of the caller.
unfoldable pub arrived : (Error → List ℕ) → Result (Unit {0}) → Result (Unit {0})
arrived text (ok u) = ok u
arrived text (err sign_failed) = err sign_failed
arrived text (err f) = err (err_from_string (text f))

-- An error of SetEntry is told from the one that UpdateEntry tries again after.
abbrev pub TellsSequence : (Error → List ℕ) → Type 0
TellsSequence text =
    (err_from_string (text err_validation_wrong_sequence) ≡ err_validation_wrong_sequence)
    × ((f : Error)
        → err_from_string (text f) ≡ err_validation_wrong_sequence
        → f ≡ err_validation_wrong_sequence)

-- A turn of the one loop as a turn of the other.
unfoldable carried : (Error → List ℕ) → dmsg.Disc.Turn → Http.Turn MockClient
carried text (dmsg.Disc.returns r e m) = Http.returns (arrived text r) e m
carried text (dmsg.Disc.again e m) = Http.again e m

Set-cases :
    (s : Signer) (e : Entry) (m : MockClient)
    → (dmsg.Disc.set_entry s e m ≡ (ok tt, store e m))
      ⊎ ((dmsg.Disc.set_entry s e m ≡ (err err_validation_wrong_sequence, m))
          ⊎ ((dmsg.Disc.set_entry s e m ≡ (err err_validation_wrong_time, m))
              ⊎ (dmsg.Disc.set_entry s e m ≡ (err signature_error, m))))
unfolding dmsg.Disc.set_entry stored check_next verify_signature validate_iteration
Set-cases s e m = ground arith

-- UpdateEntry gives up after any error but that of the sequence number.
after_set-other :
    (service : Http.Service MockClient) (e : Entry) (f : Error) (m : MockClient)
    → f ≢ err_validation_wrong_sequence
    → Http.after_set service e (err f, m)
      ≡ Http.returns (err f) (record e { sequence = before_seq e.sequence }) m
unfolding Http.after_set
after_set-other service e f m h = ground arith

module _ (text : Error → List ℕ) (s : Signer) (tells : TellsSequence text) where
  after_set-carried :
      (e : Entry) (m : MockClient)
      → Http.after_set (mock_service text s) e (Http.set_entry (mock_service text s) e m)
        ≡ carried text (dmsg.Disc.after_set e (dmsg.Disc.set_entry s e m))
  unfolding Http.set_entry mock_service carried dmsg.Disc.after_set dmsg.Disc.retry reply
      Http.confirmed Http.refused arrived Http.entry Http.after_set Http.retry Http.decoded
      dmsg.Disc.entry
  after_set-carried e m = elim (Set-cases s e m) [
    | inl h ↦ ground (arith, h)
    | inr (inl h) ↦ ground (arith, h, tells.0)
    | inr (inr (inl h)) ↦ ground (
      arith,
      h,
      after_set-other (mock_service text s) e (err_from_string (text err_validation_wrong_time)) m
          (λ k. absurd (ground (arith, tells.1 err_validation_wrong_time k))),
    )
    | inr (inr (inr h)) ↦ ground (
      arith,
      h,
      after_set-other (mock_service text s) e (err_from_string (text signature_error)) m
          (λ k. absurd (ground (arith, tells.1 signature_error k))),
    )
  ]

-- What UpdateEntry leaves, with its error as it arrives.
unfoldable pub carried_result :
    (Error → List ℕ)
    → Option (Result (Unit {0}) × Entry × MockClient)
    → Option (Result (Unit {0}) × Entry × MockClient)
carried_result text none = none
carried_result text (some (r, e, m)) = some (arrived text r, e, m)

module _ (text : Error → List ℕ) (s : Signer) (tells : TellsSequence text) where
  after_sign-carried :
      (sk : List ℕ) (e : Entry) (m : MockClient)
      → Http.after_sign (mock_service text s) m (sign s sk e)
        ≡ carried text (dmsg.Disc.after_sign s m (sign s sk e))
  unfolding Http.after_sign dmsg.Disc.after_sign sign carried arrived
  after_sign-carried sk e m = elim (Option-cases (s.sign_payload sk (unsigned e))) [
    | inl h ↦ ground (arith, h)
    | inr (sig, h) ↦
        ground (arith, h, after_set-carried text s tells (record e { signature = sig }) m)
  ]

  update_loop-carried :
      (sk : List ℕ) (fuel : ℕ) (e : Entry) (m : MockClient)
      → Http.update_loop (mock_service text s) s sk fuel e m
        ≡ carried_result text (dmsg.Disc.update_loop s sk fuel e m)
  unfolding Http.update_loop dmsg.Disc.update_loop carried_result carried
  update_loop-carried sk zero e m = refl
  update_loop-carried sk (suc fuel) e m =
      elim (Turn-cases (dmsg.Disc.after_sign s m (sign s sk e))) [
        | inl (r, f, k, h) ↦ ground (arith, h, after_sign-carried sk e m)
        | inr (f, k, h) ↦
            ground (arith, h, after_sign-carried sk e m, update_loop-carried sk fuel f k)
      ]

  -- UpdateEntry over HTTP, of a service that does what the mock client does and whose messages tell
  -- its error for a wrong sequence number from the others, is UpdateEntry of the mock client: the same
  -- turns, the same entry left to the caller and the same entries kept, and the same result with the
  -- error that its message stands for.
  pub update_entry-mock_service :
      (sk : List ℕ) (now fuel : ℕ) (e : Entry) (m : MockClient)
      → Http.update_entry (mock_service text s) s sk now fuel e m
        ≡ carried_result text (dmsg.Disc.update_entry s sk now fuel e m)
  unfolding Http.update_entry dmsg.Disc.update_entry
  update_entry-mock_service sk now fuel e m =
      update_loop-carried sk fuel
        (record e { sequence = suc e.sequence % u64_mod; timestamp = now }) m
