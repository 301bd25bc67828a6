-- ===== src/Disc.antt =====
-- disc/entry.go and disc/testing.go: the entries of the discovery, and the client that keeps them in
-- memory. A public key stands for its hex string. Timestamps are the numbers of an int64 that are not
-- negative and far from its end, so that time.Unix(..).Before is their order. Signing and the check
-- of a signature, with the JSON that they are made of, are parameters.
pub mod Update
pub mod Messages
pub mod Api
pub mod Http
pub mod Remote
use dmsg.Prelude.{
  ℕ, zero, suc, ◌+◌, ◌-◌, ◌%◌, Bool, true, false, not, Option, none, some, List, [], ◌∷◌, ◌++◌,
  if◌then◌else◌, length, leb, ltb, ◌==◌, bytes_eq, lookup, insert, u64_mod, Result, ok, err,
  sign_failed, signature_error, entry_not_found, err_validation_no_version,
  err_validation_no_signature, err_validation_no_client_or_server, err_validation_nil_keys,
  err_validation_wrong_sequence, err_validation_wrong_time,
}
use dmsg.Frame.{PubKey}

pub record Client : Type 0 where
  pub delegated_servers : List PubKey

pub record Server : Type 0 where
  pub address : List ℕ
  pub port : List ℕ
  pub available_connections : ℕ

pub record Entry : Type 0 where
  pub version : List ℕ
  pub sequence : ℕ
  pub timestamp : ℕ
  pub static : PubKey
  pub client : Option Client
  pub server : Option Server
  pub signature : List ℕ

-- What disc takes from the package cipher: Sign of an entry without signature under a secret key,
-- the check of a signature of such an entry, and PubKey.Null.
pub record Signer : Type 0 where
  pub sign_payload : List ℕ → Entry → Option (List ℕ)
  pub verify_payload : Entry → List ℕ → Bool
  pub null : PubKey → Bool

abbrev pub unsigned : Entry → Entry
unsigned e = record e { signature = [] }

-- VerifySignature
unfoldable pub verify_signature : Signer → Entry → Result (Unit {0})
verify_signature s e =
    if s.verify_payload (unsigned e) e.signature then ok tt else err signature_error

-- Sign: the entry is changed also where it fails.
unfoldable pub sign : Signer → List ℕ → Entry → Result (Unit {0}) × Entry
sign s sk e = elim (s.sign_payload sk (unsigned e)) [
  | none ↦ (err sign_failed, unsigned e)
  | some sig ↦ (ok tt, record e { signature = sig })
]

unfoldable pub is_none {ℓ} : {A : Type ℓ} → Option A → Bool
is_none none = true
is_none (some a) = false

unfoldable pub validate : Signer → Entry → Result (Unit {0})
validate s e =
    if length e.version == 0
    then err err_validation_no_version
    else (if length e.signature == 0
        then err err_validation_no_signature
        else (if (if is_none e.client then is_none e.server else false)
            then err err_validation_no_client_or_server
            else (if s.null e.static then err err_validation_nil_keys else ok tt)))

-- nextEntry.Sequence - 1 on uint64.
unfoldable pub before_seq : ℕ → ℕ
before_seq n = (n + (u64_mod - 1)) % u64_mod

unfoldable pub validate_iteration : Entry → Entry → Result (Unit {0})
validate_iteration e next =
    if not (e.sequence == before_seq next.sequence)
    then err err_validation_wrong_sequence
    else (if not (ltb e.timestamp next.timestamp) then err err_validation_wrong_time else ok tt)

-- MockClient
pub record MockClient : Type 0 where
  pub entries : List (PubKey × Entry)
  pub list : List Entry

unfoldable pub entry : PubKey → MockClient → Result Entry
entry pk m = elim (lookup pk m.entries) [ none ↦ err entry_not_found | some e ↦ ok e ]

-- SetEntry behind its checks.
unfoldable pub store : Entry → MockClient → MockClient
store e m = record {
  entries = insert e.static e m.entries;
  list = if is_none e.server then m.list else m.list ++ e ∷ [];
}

unfoldable pub stored : Entry → Result (Unit {0}) → MockClient → Result (Unit {0}) × MockClient
stored e (ok u) m = (ok tt, store e m)
stored e (err f) m = (err f, m)

unfoldable pub check_next : Signer → Entry → Result (Unit {0}) → Result (Unit {0})
check_next s e (err f) = err f
check_next s e (ok u) = verify_signature s e

unfoldable pub set_entry : Signer → Entry → MockClient → Result (Unit {0}) × MockClient
set_entry s e m = elim (lookup e.static m.entries) [
  | none ↦ (ok tt, store e m)
  | some prev ↦ stored e (check_next s e (validate_iteration prev e)) m
]

-- One turn of the loop of UpdateEntry: it returns, with the entry that the caller has, or it tries
-- again with another sequence number.
pub data Turn : Type 0 where
  returns : Result (Unit {0}) → Entry → MockClient → Turn
  again : Entry → MockClient → Turn

unfoldable pub retry : Entry → Entry → MockClient → Turn
retry prev e m =
    if ltb e.timestamp prev.timestamp
    then returns (ok tt) (record e { sequence = prev.sequence }) m
    else again (record e { sequence = suc prev.sequence % u64_mod }) m

unfoldable pub after_set : Entry → Result (Unit {0}) × MockClient → Turn
after_set e (ok u, m) = returns (ok tt) e m
after_set e (err err_validation_wrong_sequence, m) = elim (lookup e.static m.entries) [
  | none ↦ returns (err err_validation_wrong_sequence) e m
  | some prev ↦ retry prev e m
]
after_set e (err f, m) = returns (err f) (record e { sequence = before_seq e.sequence }) m

unfoldable pub after_sign : Signer → MockClient → Result (Unit {0}) × Entry → Turn
after_sign s m (err f, e) = returns (err f) e m
after_sign s m (ok u, e) = after_set e (set_entry s e m)

-- The loop, on fuel: `none` is a loop that has not ended.
abbrev pub Updated : Type 0
Updated = Option (Result (Unit {0}) × Entry × MockClient)

unfoldable pub update_loop : Signer → List ℕ → ℕ → Entry → MockClient → Updated
update_loop s sk zero e m = none
update_loop s sk (suc fuel) e m = elim (after_sign s m (sign s sk e)) [
  | returns r e' m' ↦ some (r, e', m')
  | again e' m' ↦ update_loop s sk fuel e' m'
]

-- UpdateEntry at the time `now`.
unfoldable pub update_entry : Signer → List ℕ → ℕ → ℕ → Entry → MockClient → Updated
update_entry s sk now fuel e m =
    update_loop s sk fuel (record e { sequence = suc e.sequence % u64_mod; timestamp = now }) m
