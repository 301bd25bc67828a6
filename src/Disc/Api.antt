-- ===== src/Disc/Api.antt =====
-- disc/client.go and disc/testing.go: the interface APIClient over the state W behind it, and the
-- mock client as one.
use dmsg.Prelude.{ℕ, Option, none, some, List, [], ◌∷◌, Result, ok}
use dmsg.Frame.{PubKey}
use dmsg.Disc.{Entry, Signer, MockClient, entry, set_entry, update_entry}

-- UpdateEntry is `none` where it does not return. The entry that it leaves its caller is not used.
pub record ApiClient (W : Type 0) : Type 0 where
  pub entry : PubKey → W → Result Entry × W
  pub set_entry : Entry → W → Result (Unit {0}) × W
  pub update_entry : List ℕ → Entry → W → Option (Result (Unit {0}) × W)
  pub available_servers : W → Result (List Entry) × W

-- "0.0.1"
abbrev pub current_version : List ℕ
current_version = 48 ∷ 46 ∷ 48 ∷ 46 ∷ 49 ∷ []

-- NewClientEntry and NewServerEntry at the time `now`.
unfoldable pub new_client_entry : ℕ → PubKey → ℕ → List PubKey → Entry
new_client_entry now pk sequence servers = record {
  version = current_version;
  sequence = sequence;
  timestamp = now;
  static = pk;
  client = some (record { delegated_servers = servers });
  server = none;
  signature = [];
}

unfoldable pub new_server_entry : ℕ → PubKey → ℕ → List ℕ → ℕ → Entry
new_server_entry now pk sequence address conns = record {
  version = current_version;
  sequence = sequence;
  timestamp = now;
  static = pk;
  client = none;
  server = some (record { address = address; port = []; available_connections = conns });
  signature = [];
}

-- Copy: what is in dst after it.
unfoldable pub copy : Entry → Entry → Entry
copy dst src = record dst {
  server = src.server;
  client = src.client;
  static = src.static;
  signature = src.signature;
  version = src.version;
  sequence = src.sequence;
  timestamp = src.timestamp;
}

-- NewMock
unfoldable pub new_mock : MockClient
new_mock = record { entries = []; list = [] }

-- What is left of an UpdateEntry for a caller that drops its entry.
unfoldable pub outcome : Result (Unit {0}) × Entry × MockClient → Result (Unit {0}) × MockClient
outcome (r, e, m) = (r, m)

-- The mock client as an APIClient at the time `now`. Two turns are enough for its UpdateEntry.
unfoldable pub mock_client : Signer → ℕ → ApiClient MockClient
mock_client s now = record {
  entry = λ pk m. (entry pk m, m);
  set_entry = set_entry s;
  update_entry =
      λ sk e m. elim (update_entry s sk now 2 e m) [ none ↦ none | some r ↦ some (outcome r) ];
  available_servers = λ m. (ok m.list, m);
}
