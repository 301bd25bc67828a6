-- ===== src/Tests/Pools.antt =====
-- Concrete runs of a client with its connections, of the discovery, and of noise connections.
use dmsg.Prelude.{
  ◌+◌, inr, ◌==◌, suc, ℕ, ◌+◌, ◌<◌, ◌≤◌, ◌≡◌, ◌⊎◌, ◌↔◌, refl, inl, inr, true, false, none, some,
  List, [], ◌∷◌, ◌++◌, arith, if◌then◌else◌, length, length-append, take, drop, get_elem?,
  Bool-cases, bytes_beq_sound, replicate, lookup, insert, delete, nat_eq, bytes_eq, bytes_beq,
  Result, ok, err, Error, err_client_closed, port_busy, err_validation_wrong_sequence,
}
use dmsg.Frame.{
  PubKey, make_frame, accept_type, request_type, combine_pks, ok_type, split_pks, disassemble,
  frame_type, tp_id, pay_of, is_initiator_id,
}
use dmsg.Transport.{Transport, new_transport, serve}
use dmsg.Transport.Handshake.{
  HandshakePayload, Json, payload_version, receives, write_request, write_or_close, read_accept,
  check_accept, accept_ok,
}
use dmsg.Listener.{Listener, new_listener, accept_transport}
use dmsg.Listener.Ports.{PortManager, listener}
use dmsg.ClientConn.{
  ClientConn, new_client_conn, read_ok, get_tp, note, set_tp, take_id, dial_transport, add_tp,
  added, get_next_init_id, live, del_tp, dial_request, dial_accept, dial_serve, settle,
}
use dmsg.Disc.{Entry, Signer, MockClient}
use dmsg.Disc.Api.{new_client_entry, new_server_entry}
use dmsg.Disc.Messages.{err_from_string, err_reverse_map, validation_error}
use dmsg.Disc.Http as Http
use dmsg.Disc.Remote.{mock_service, carried_result, TellsSequence, update_entry-mock_service}
use dmsg.Client.{
  find_server_entries, after_find, find_or_connect_to_servers, enough, with_rest,
  find_or_connect_to_server, looked_up, connected, found, set_conn, updated, dial_entry,
  dial_servers, reached, dialled, dial_over, on_conn, Client, Env, Attempt, connects, Way, get_conn,
  conn_count, server_keys, after_lookup, publish, put_conn, dial, listen, close, reconnect,
  update_disc_entry, initiate_server_connections,
}
use dmsg.Client.Pool.{IsValid}
use dmsg.Client.Counts.{Grown, initiate_server_connections-conn_count}
use dmsg.Client.Dialing.{Dialled, dial-Dialled}
use dmsg.Client.Closing.{AllClosed, close-closes}
use dmsg.Client.Registering.{mock_env, IsKeyed, update_disc_entry-mock_env}
use dmsg.Noise.{Cipher, Noise, encrypt_unsafe, read_packet}
use dmsg.Noise.Conn.{conn_write, wire_len, conn_write-read_packet}
use dmsg.Noise.Handshake.{HandshakeState, Side, InStep, handshake, handshake-HasKeys}
use dmsg.Noise.Dialer.{RpcClientDialer, set_done, turn, runs, closes, close_count, turn-run}

abbrev alice : PubKey
alice = replicate 33 1

abbrev bob : PubKey
bob = replicate 33 2

abbrev hub : PubKey
hub = replicate 33 3

abbrev signer : Signer
signer = record {
  sign_payload = λ sk e. some (sk ++ e.static);
  verify_payload = λ e sig. true;
  null = λ pk. false;
}

abbrev attempt : PubKey → List ℕ → MockClient → Attempt × MockClient
attempt srv addr m = (connects 6 (some ok_type), m)

abbrev env : Env MockClient
env = record {
  api = dmsg.Disc.Api.mock_client signer 200;
  signer = signer;
  now = 200;
  attempt = attempt;
}

-- A discovery that knows a server, and Bob, who is connected with it.
abbrev discovery : MockClient
discovery = record {
  entries =
      (hub, new_server_entry 100 hub 0 (4 ∷ []) 10)
      ∷ (bob, new_client_entry 100 bob 0 (hub ∷ []))
      ∷ [];
  list = new_server_entry 100 hub 0 (4 ∷ []) 10 ∷ [];
}

-- Alice, who has a listener; not connected, and connected with the server.
abbrev ports : PortManager
ports = record { listeners = (80, new_listener alice 80) ∷ [] }

abbrev alone : Client
alone = record { pk = alice; sk = 5 ∷ []; conns = []; pm = ports; done = false }

abbrev conn : ClientConn
conn = new_client_conn alice hub 6 ports

abbrev joined : Client
joined = record alone { conns = (hub, conn) ∷ [] }

-- One entry, kept under its key.
keyed_one :
    (e prev : Entry) (pk k : PubKey) (m : List (PubKey × Entry))
    → prev.static ≡ k
    → (lookup pk m ≡ some e → e.static ≡ pk)
    → lookup pk ((k, prev) ∷ m) ≡ some e
    → e.static ≡ pk
unfolding lookup
keyed_one e prev pk k m st rest h = elim (Bool-cases (bytes_beq k pk)) [
  | inl b ↦ ground (arith, b, h, st, bytes_beq_sound k pk)
  | inr b ↦ rest (ground (arith, b, h))
]

discovery-IsKeyed : IsKeyed discovery
unfolding lookup new_server_entry new_client_entry
discovery-IsKeyed pk e =
    keyed_one e (new_server_entry 100 hub 0 (4 ∷ []) 10) pk hub
      ((bob, new_client_entry 100 bob 0 (hub ∷ [])) ∷ []) refl
      (keyed_one e (new_client_entry 100 bob 0 (hub ∷ [])) pk bob [] refl
        (λ h. absurd (ground (arith, h))))

update_disc_entry-mock_env_example :
    ((e : Entry) × (lookup alice
          (dmsg.Disc.store
            (record (new_client_entry 200 alice 0 (hub ∷ [])) { signature = (5 ∷ []) ++ alice })
            discovery).entries
        ≡ some e)
      × (e.static ≡ alice)
      × (e.client ≡ some (record { delegated_servers = server_keys joined.conns })))
    ⊎ ((prev : Entry) × (lookup alice discovery.entries ≡ some prev)
        × (200 < prev.timestamp)
        × (dmsg.Disc.store
              (record (new_client_entry 200 alice 0 (hub ∷ [])) { signature = (5 ∷ []) ++ alice })
              discovery
            ≡ discovery))
unfolding bytes_beq
update_disc_entry-mock_env_example =
    update_disc_entry-mock_env signer 200 attempt joined discovery
      (dmsg.Disc.store
        (record (new_client_entry 200 alice 0 (hub ∷ [])) { signature = (5 ∷ []) ++ alice })
        discovery)
      discovery-IsKeyed
      (unfold update_disc_entry mock_env after_lookup publish server_keys dmsg.Disc.Api.mock_client
          dmsg.Disc.entry lookup dmsg.Disc.sign dmsg.Disc.set_entry new_client_entry in
        refl)

close-closes_example :
    AllClosed (close joined).0
    × (server_keys (close joined).0 ≡ server_keys joined.conns)
    × ((close joined).1.conns ≡ [])
    × (elim (listener 80 (close joined).1.pm) [ none ↦ none | some l ↦ accept_transport l ]
        ≡ elim (listener 80 joined.pm) [
          | none ↦ none
          | some l ↦ some (err err_client_closed, (dmsg.Listener.close l).1)
        ])
    × ((listen 80 (close joined).1).0 ≡ elim (listener 80 joined.pm) [
      | none ↦ ok (new_listener alice 80)
      | some l ↦ err port_busy
    ])
    × (reconnect env false hub (close joined).1 discovery
        ≡ some (false, (close joined).1, discovery))
    × (close (close joined).1 ≡ ([], (close joined).1))
close-closes_example = close-closes env false hub discovery 80 joined refl

-- A dialer at rest.
abbrev dialer : RpcClientDialer
dialer = record { conn = some 4; done = none; served = 4 ∷ []; hung_up = [] }

abbrev redials : List dmsg.Noise.Dialer.Call
redials = runs ∷ closes ∷ runs ∷ closes ∷ []

turn-run_example :
    (t : RpcClientDialer) × ((set_done dialer).0 ≡ true)
    × (turn (λ d. some d) dmsg.Noise.Dialer.fails (set_done dialer).1 ≡ some (false, t))
    × (close_count redials < 2
        → (e : RpcClientDialer) × (dmsg.Noise.Dialer.run redials t ≡ some e)
          × ((set_done e).0 ≡ false))
    × (2 ≤ close_count redials → dmsg.Noise.Dialer.run redials t ≡ none)
turn-run_example = turn-run (λ d. some d) redials dialer refl

-- A cipher that adds a tag of 16 bytes, and a message that is too long for a packet with it.
abbrev tagging : Cipher
tagging = record { encrypt = λ n p. p ++ replicate 16 0; decrypt = λ n c. none }

abbrev long : List ℕ
long = replicate 65520 7

abbrev noise : Noise
noise = record { seq = 0; previous_seq = 0; highest_previous = 0 }

long-encrypt : (n : ℕ) (p : List ℕ) → length (tagging.encrypt n p) ≡ length p + 16
long-encrypt n p = length-append p (replicate 16 0)

conn_write-read_packet_example :
    ((conn_write tagging (7 ∷ []) noise).0 ≡ ok 1)
    × (read_packet ((conn_write tagging (7 ∷ []) noise).1 ++ [])
        ≡ some (
          ok (take (wire_len 1) (encrypt_unsafe tagging (7 ∷ []) noise).0),
          drop (wire_len 1) (encrypt_unsafe tagging (7 ∷ []) noise).0 ++ [],
        ))
    × ((take (wire_len 1) (encrypt_unsafe tagging (7 ∷ []) noise).0
          ≡ (encrypt_unsafe tagging (7 ∷ []) noise).0)
        ↔ (1 < 65516))
conn_write-read_packet_example =
    conn_write-read_packet tagging (7 ∷ []) [] noise long-encrypt (omega arith)

-- The messages of a service that tells a wrong sequence number from the rest.
abbrev text : Error → List ℕ
text err_validation_wrong_sequence = elim (get_elem? err_reverse_map 11) [
  | none ↦ []
  | some p ↦ p.0
]
text e = []

text-TellsSequence : TellsSequence text
unfolding err_from_string lookup bytes_beq validation_error
text-TellsSequence = (refl, (λ f h. ground (arith, h)))

update_entry-mock_service_example :
    Http.update_entry
      (mock_service text signer)
      signer
      (5 ∷ [])
      200
      2
      (new_client_entry 100 bob 0 [])
      discovery
    ≡ carried_result text
        (dmsg.Disc.update_entry signer (5 ∷ []) 200 2 (new_client_entry 100 bob 0 []) discovery)
update_entry-mock_service_example =
    update_entry-mock_service text signer text-TellsSequence (5 ∷ []) 200 2
      (new_client_entry 100 bob 0 []) discovery

abbrev found_entries : List Entry
found_entries = discovery.list

abbrev registered : MockClient
registered =
    dmsg.Disc.store
      (record (new_client_entry 200 alice 0 (hub ∷ [])) { signature = (5 ∷ []) ++ alice }) discovery

abbrev fine : Result (Unit {0})
fine = ok tt

initiate_server_connections-conn_count_example :
    (((fine ≡ ok tt) × (1 ≤ conn_count joined))
      ⊎ ((e : Error) × (fine ≡ err e) × ((conn_count joined < 1) ⊎ (joined ≡ alone))))
    × Grown alone joined
initiate_server_connections-conn_count_example =
    initiate_server_connections-conn_count env (λ i. false) 1 1 alone joined fine discovery
      registered
      (unfold initiate_server_connections find_server_entries after_find find_or_connect_to_servers
          enough with_rest find_or_connect_to_server get_conn looked_up connected found set_conn
          updated update_disc_entry after_lookup publish server_keys dmsg.Disc.Api.mock_client
          dmsg.Disc.entry lookup insert delete dmsg.Disc.sign dmsg.Disc.set_entry new_client_entry
          new_server_entry read_ok new_client_conn bytes_beq conn_count in
        refl)

-- Alice dials Bob over the connection that she has, and Bob accepts.
abbrev request : HandshakePayload
request = record { version = payload_version; init_pk = alice; resp_pk = bob; port = 80 }

abbrev json : Json
json = record { marshal = λ p. 7 ∷ []; unmarshal = λ b. some request }

abbrev way : Way
way = record {
  json = json;
  ctx = λ i. false;
  fuel = 1;
  wrote = true;
  event = receives (make_frame accept_type 6 (combine_pks alice bob));
  seed = 0 ∷ 1 ∷ [];
}

abbrev opened : Transport
opened =
    new_transport (record { pk = alice; port = 0 }) (record { pk = bob; port = 80 }) 6 (0 ∷ 1 ∷ [])

abbrev tp : Transport
tp = record opened { sent = make_frame request_type 6 (7 ∷ []) ∷ []; serving = true }

abbrev dialler : Client
dialler = put_conn hub (note tp (set_tp 6 opened (take_id (record conn { pm = ports })).1)) joined

joined-IsValid : IsValid joined
unfolding get_conn lookup new_client_conn
joined-IsValid = record {
  local = λ srv k h. ground (arith, h);
  remote_srv = λ srv k h. ground (arith, h, bytes_beq_sound hub srv);
}

dial-Dialled_example :
    (entry : Entry) × (peer : dmsg.Disc.Client) × ((env.api.entry bob discovery).0 ≡ ok entry)
    × (entry.client ≡ some peer)
    × Dialled alice bob 80 peer.delegated_servers tp dialler
unfolding dial dial_entry dial_servers reached dialled with_rest find_or_connect_to_server
    dmsg.Client.get_conn dial_over on_conn put_conn dial_transport add_tp added get_next_init_id
    take_id get_tp live del_tp set_tp dial_request write_request write_or_close dial_accept
    dial_serve read_accept check_accept accept_ok note settle serve new_transport disassemble
    frame_type tp_id pay_of split_pks combine_pks is_initiator_id make_frame lookup insert delete
    bytes_beq new_client_conn new_client_entry new_server_entry dmsg.Disc.Api.mock_client
    dmsg.Disc.entry
dial-Dialled_example =
    dial-Dialled env way bob 80 tp joined dialler discovery discovery joined-IsValid refl

-- A handshake of three messages, whose state is the number of those that are through.
abbrev counting : HandshakeState ℕ ℕ
counting = record {
  message_index = λ h. h;
  write_message = λ h. some (h ∷ [], if h == 2 then some (8, 9) else none, suc h);
  read_message = λ m h. some (if h == 2 then some (8, 9) else none, suc h);
}

abbrev BothAt : ℕ → ℕ → ℕ → Type 0
BothAt i h g = (h ≡ i) × (g ≡ i)

counting-InStep : InStep counting 3 BothAt
counting-InStep i h g l at = (
  h ∷ [],
  if h == 2 then some (8, 9) else none,
  suc h,
  suc g,
  refl,
  ground (arith, at),
  omega arith,
  at.0,
  at.1,
  ground (arith, at),
  ground (arith, at),
  (λ e. ((8, 9), ground (arith, at, e))),
  (ground (arith, at), ground (arith, at)),
)

abbrev start : Side ℕ ℕ
start = record { hs = 0; enc = none; dec = none }

handshake-HasKeys_example :
    (out : Side ℕ ℕ × Side ℕ ℕ) × (handshake counting 3 3 start start ≡ some out)
    × (k : ℕ × ℕ) × (out.0.dec ≡ some k.0)
    × (out.0.enc ≡ some k.1)
    × (out.1.enc ≡ some k.0)
    × (out.1.dec ≡ some k.1)
handshake-HasKeys_example =
    handshake-HasKeys counting 3 BothAt start start counting-InStep (omega arith) (refl, refl)
