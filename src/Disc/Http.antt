-- ===== src/Disc/Http.antt =====
-- disc/client.go: the client of the discovery's HTTP service. The service, the HTTP client that
-- carries a request to it and encoding/json are a parameter: how a request is answered over the state
-- W of the service.
use dmsg.Prelude.{
  ℕ, zero, suc, ◌%◌, ltb, Option, none, some, List, if◌then◌else◌, u64_mod, Result, ok, err,
  http_failed, decode_failed, err_validation_wrong_sequence,
}
use dmsg.Frame.{PubKey}
use dmsg.Disc.{Entry, Signer, sign, before_seq}
use dmsg.Disc.Messages.{err_from_string}

-- The answer to a request: Do fails; the status is not 200, with the message that the body decodes
-- to; or it is 200, with what the body decodes to. `none` is a body that does not decode.
pub data Reply (A : Type 0) : Type 0 where
  fails : Reply A
  refuses : Option (List ℕ) → Reply A
  answers : Option A → Reply A

pub record Service (W : Type 0) : Type 0 where
  pub get_entry : PubKey → W → Reply Entry × W
  pub post_entry : Entry → W → Reply (Unit {0}) × W
  pub get_servers : W → Reply (List Entry) × W

-- The end of Entry and of AvailableServers.
unfoldable pub refused : {A : Type 0} → Option (List ℕ) → Result A
refused none = err decode_failed
refused (some message) = err (err_from_string message)

unfoldable pub decoded : {A : Type 0} → Reply A → Result A
decoded fails = err http_failed
decoded (refuses message) = refused message
decoded (answers none) = err decode_failed
decoded (answers (some a)) = ok a

-- The end of SetEntry, which does not read the body of an answer with status 200.
unfoldable pub confirmed : Reply (Unit {0}) → Result (Unit {0})
confirmed fails = err http_failed
confirmed (refuses message) = refused message
confirmed (answers body) = ok tt

module _ {W : Type 0} (service : Service W) where
  unfoldable pub entry : PubKey → W → Result Entry × W
  entry pk w = let (reply, w') = service.get_entry pk w in (decoded reply, w')

  unfoldable pub set_entry : Entry → W → Result (Unit {0}) × W
  set_entry e w = let (reply, w') = service.post_entry e w in (confirmed reply, w')

  unfoldable pub available_servers : W → Result (List Entry) × W
  available_servers w = let (reply, w') = service.get_servers w in (decoded reply, w')

-- One turn of the loop of UpdateEntry: it returns, with the entry that the caller has, or it tries
-- again with another sequence number.
pub data Turn (W : Type 0) : Type 0 where
  returns : Result (Unit {0}) → Entry → W → Turn W
  again : Entry → W → Turn W

unfoldable pub retry : {W : Type 0} → Entry → Result Entry × W → Turn W
retry e (err f, w) = returns (err err_validation_wrong_sequence) e w
retry e (ok prev, w) =
    if ltb e.timestamp prev.timestamp
    then returns (ok tt) (record e { sequence = prev.sequence }) w
    else again (record e { sequence = suc prev.sequence % u64_mod }) w

module _ {W : Type 0} (service : Service W) where
  unfoldable pub after_set : Entry → Result (Unit {0}) × W → Turn W
  after_set e (ok u, w) = returns (ok tt) e w
  after_set e (err err_validation_wrong_sequence, w) = retry e (entry service e.static w)
  after_set e (err f, w) = returns (err f) (record e { sequence = before_seq e.sequence }) w

  unfoldable pub after_sign : W → Result (Unit {0}) × Entry → Turn W
  after_sign w (err f, e) = returns (err f) e w
  after_sign w (ok u, e) = after_set e (set_entry service e w)

  -- The loop, on fuel: `none` is a loop that has not ended.
  unfoldable pub update_loop :
      Signer → List ℕ → ℕ → Entry → W → Option (Result (Unit {0}) × Entry × W)
  update_loop s sk zero e w = none
  update_loop s sk (suc fuel) e w = elim (after_sign w (sign s sk e)) [
    | returns r e' w' ↦ some (r, e', w')
    | again e' w' ↦ update_loop s sk fuel e' w'
  ]

  -- UpdateEntry at the time `now`.
  unfoldable pub update_entry :
      Signer → List ℕ → ℕ → ℕ → Entry → W → Option (Result (Unit {0}) × Entry × W)
  update_entry s sk now fuel e w =
      update_loop s sk fuel (record e { sequence = suc e.sequence % u64_mod; timestamp = now }) w
