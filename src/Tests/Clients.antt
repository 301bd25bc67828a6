-- ===== src/Tests/Clients.antt =====
-- Concrete runs of a client's connection, of an established session, and of the discovery's entries.
use mathlib.Core.Path.{subst}
use dmsg.Prelude.{
  ℕ, ◌+◌, ◌%◌, ◌<◌, ◌⊎◌, ◌≡◌, refl, Bool, true, false, Option, none, some, List, [], ◌∷◌, ◌++◌,
  arith, Result, ok, u16_mod, u64_mod, if◌then◌else◌, length, lookup, insert, concat, nat_eq,
  bytes_eq, bytes_beq, ◌==◌, replicate,
}
use dmsg.Frame.{PubKey, make_frame, accept_type, request_type, combine_pks, is_initiator_id}
use dmsg.Transport.{Transport, new_transport}
use dmsg.Transport.Handshake.{HandshakePayload, Json, payload_version}
use dmsg.Listener.{Listener, new_listener, close}
use dmsg.Listener.Ports.{listener}
use dmsg.ClientConn.{
  ClientConn, new_client_conn, set_tp, del_tp, get_tp, entries, get_next_init_id, take_id,
  handle_request_frame, serve_frame,
}
use dmsg.ClientConn.Ids.{get_next_init_id_sound, get_next_init_id_finds}
use dmsg.ClientConn.Requests.{handle_request_frame_accepts, serve_frame-closed_listener}
use dmsg.ClientConn.Queues.{HasQueues, handle_request_frame-HasQueues}
use dmsg.Listener.Queue.{Inv, new_listener-Inv}
use dmsg.Noise.{Cipher, Noise, ReadWriter}
use dmsg.Noise.Channel.{write_all, read_all, read_all-write_all}
use dmsg.Disc.{
  Entry, Signer, MockClient, validate_iteration, sign, set_entry, store, update_entry, update_loop,
  after_sign, before_seq, stored, check_next, verify_signature, after_set, retry,
}
use dmsg.Disc.Update.{update_entry_ends, update_entry_ok}

abbrev alice : PubKey
alice = replicate 33 1

abbrev bob : PubKey
bob = replicate 33 2

abbrev request : HandshakePayload
request = record { version = payload_version; init_pk = alice; resp_pk = bob; port = 80 }

abbrev json : Json
json = record { marshal = λ p. p.init_pk ++ p.resp_pk; unmarshal = λ b. some request }

abbrev lasts : ℕ → Bool
lasts i = false

abbrev shop : Listener
shop = new_listener bob 80

abbrev conn : ClientConn
conn = new_client_conn bob (9 ∷ []) 65534 (record { listeners = (80, shop) ∷ [] })

-- The same, with a transport under the id that comes next.
abbrev peer : Transport
peer =
    new_transport (record { pk = bob; port = 0 }) (record { pk = alice; port = 7 }) 65534
      (0 ∷ 1 ∷ [])

abbrev busy : ClientConn
busy = set_tp 65534 peer conn

abbrev moved : ClientConn
moved = (take_id (record busy { next_init_id = 0 })).1

zero_next : get_next_init_id lasts 2 busy ≡ some (ok 0, moved)
unfolding get_next_init_id get_tp set_tp new_client_conn lookup new_transport take_id insert
zero_next = refl

get_next_init_id_sound_example :
    (get_tp 0 busy ≡ none)
    × (0 < u16_mod)
    × (is_initiator_id 0 ≡ true)
    × (moved.next_init_id ≡ (0 + 2) % u16_mod)
    × ((j : ℕ) → get_tp j moved ≡ get_tp j busy)
get_next_init_id_sound_example =
    get_next_init_id_sound lasts 2 busy moved 0 busy_word busy_even zero_next
  where
    busy_word : busy.next_init_id < u16_mod
    busy_word = unfold set_tp new_client_conn in omega arith

    busy_even : is_initiator_id busy.next_init_id ≡ true
    busy_even = unfold set_tp new_client_conn is_initiator_id in refl

get_next_init_id_finds_example :
    (id : ℕ) × (c : ClientConn) × (get_next_init_id lasts 2 busy ≡ some (ok id, c))
unfolding insert
get_next_init_id_finds_example =
    get_next_init_id_finds lasts 2 1 busy (λ i. refl) (unfold set_tp new_client_conn in refl)
      (unfold set_tp new_client_conn in omega arith) (omega arith)
      (unfold set_tp new_client_conn get_tp lookup in refl)

handle_request_frame_accepts_example :
    (t : ClientConn) × (tp : Transport) × (handle_request_frame json true
        (0 ∷ 1 ∷ [])
        3
        (7 ∷ [])
        conn
      ≡ some (ok tt, t))
    × (t.outs ≡ conn.outs ++ make_frame accept_type 3 (combine_pks alice conn.local) ∷ [])
    × (listener 80 t.pm ≡ some (record shop { accept = shop.accept ++ 3 ∷ [] }))
    × (tp.serving ≡ true)
    × (tp.remote.pk ≡ alice)
    × ((j : ℕ) → get_tp j t ≡ (if 3 == j then some tp else get_tp j conn))
handle_request_frame_accepts_example =
    handle_request_frame_accepts json (0 ∷ 1 ∷ []) 3 (7 ∷ []) conn request shop refl
      (unfold new_client_conn in refl) (unfold is_initiator_id in refl)
      (unfold new_client_conn listener lookup in refl) (unfold new_client_conn in refl)
      (unfold new_listener in refl) (unfold new_listener in omega arith)

conn-HasQueues : HasQueues conn.pm
unfolding HasQueues new_client_conn listener lookup
conn-HasQueues port l e = subst Inv (found port l e) (new_listener-Inv bob 80)
  where
    found :
        (port : ℕ) (l : Listener)
        → listener port (record { listeners = (80, shop) ∷ [] }) ≡ some l
        → shop ≡ l
    found port l e = ground (arith, e)

handle_request_frame-HasQueues_example :
    (r : Result (Unit {0}) × ClientConn) × (handle_request_frame json true
        (0 ∷ 1 ∷ [])
        3
        (7 ∷ [])
        conn
      ≡ some r)
    × HasQueues r.1.pm
handle_request_frame-HasQueues_example =
    handle_request_frame-HasQueues json true (0 ∷ 1 ∷ []) 3 (7 ∷ []) conn conn-HasQueues

abbrev shut : Listener
shut = (close shop).1

abbrev stale : ClientConn
stale = new_client_conn bob (9 ∷ []) 65534 (record { listeners = (80, shut) ∷ [] })

serve_frame-closed_listener_example :
    (t : ClientConn) × (serve_frame json true [] (request_type, 3, 7 ∷ []) stale ≡ some (true, t))
    × (t.done ≡ true)
    × (t.conn_closed ≡ true)
    × (t.closing ≡ stale.closing ++ entries (del_tp 3 stale).tps)
    × (t.outs ≡ stale.outs)
serve_frame-closed_listener_example =
    serve_frame-closed_listener json true [] 3 (7 ∷ []) stale request shut refl
      (unfold new_client_conn in refl) (unfold is_initiator_id in refl)
      (unfold new_client_conn get_tp lookup in refl)
      (unfold new_client_conn listener lookup in refl) (unfold close new_listener in refl)
      (unfold new_client_conn in refl)

-- A cipher that puts the nonce's last byte before the message, and checks it.
checked : ℕ → List ℕ → Option (List ℕ)
checked n [] = none
checked n (t ∷ c) = if t == n % 256 then some c else none

abbrev cipher : Cipher
cipher = record { encrypt = λ n p. n % 256 ∷ p; decrypt = checked }

cipher_decrypts : (n : ℕ) (p : List ℕ) → cipher.decrypt n (cipher.encrypt n p) ≡ some p
unfolding checked
cipher_decrypts n p = ground arith

abbrev noise : Noise
noise = record { seq = 4294967294; previous_seq = 0; highest_previous = 0 }

abbrev messages : List (List ℕ)
messages = (1 ∷ 2 ∷ 3 ∷ []) ∷ (4 ∷ []) ∷ []

abbrev reader : ReadWriter
reader = record {
  origin = write_all cipher messages noise;
  ns = record { seq = 0; previous_seq = 0; highest_previous = 0 };
  r_buf = [];
}

read_all-write_all_example :
    (out : List ℕ) × (t : ReadWriter) × (qs : List (List ℕ)) × (ms : Noise) × (read_all cipher
        (2 ∷ 2 ∷ 2 ∷ 2 ∷ [])
        reader
      ≡ some (out, t))
    × (t.origin ≡ write_all cipher qs ms)
    × (out ++ (t.r_buf ++ concat qs) ≡ reader.r_buf ++ concat messages)
read_all-write_all_example =
    read_all-write_all cipher cipher_decrypts (2 ∷ 2 ∷ 2 ∷ 2 ∷ []) messages noise reader
      ((λ n. omega arith), ((λ n. omega arith), tt)) refl

-- Alice's entry, as it is kept and as she last had it.
abbrev kept_entry : Entry
kept_entry = record {
  version = 48 ∷ [];
  sequence = 4;
  timestamp = 100;
  static = alice;
  client = none;
  server = none;
  signature = 1 ∷ [];
}

abbrev old_entry : Entry
old_entry = record kept_entry { sequence = 1; timestamp = 50 }

abbrev signer : Signer
signer = record {
  sign_payload = λ sk e. some (e.sequence ∷ sk);
  verify_payload = λ e sig. bytes_beq sig (e.sequence ∷ 8 ∷ []);
  null = λ pk. length pk == 0;
}

abbrev discovery : MockClient
discovery = record { entries = (alice, kept_entry) ∷ []; list = [] }

update_entry_ends_example :
    (r : Result (Unit {0}) × Entry × MockClient) × (update_entry signer
        (8 ∷ [])
        200
        2
        old_entry
        discovery
      ≡ some r)
update_entry_ends_example = update_entry_ends signer (8 ∷ []) 200 old_entry discovery words
  where
    words :
        (pk : List ℕ) (prev : Entry)
        → lookup pk discovery.entries ≡ some prev
        → prev.sequence < u64_mod
    words pk prev e = unfold lookup in ground arith

abbrev new_entry : Entry
new_entry = record kept_entry { sequence = 5; timestamp = 200; signature = 5 ∷ 8 ∷ [] }

updated :
    update_entry signer (8 ∷ []) 200 2 old_entry discovery
    ≡ some (ok tt, new_entry, store new_entry discovery)
unfolding update_entry update_loop after_sign sign set_entry lookup bytes_beq validate_iteration
    before_seq stored check_next verify_signature after_set retry
updated = refl

update_entry_ok_example :
    ((lookup alice (store new_entry discovery).entries ≡ some new_entry)
      × (new_entry.timestamp ≡ 200)
      × (new_entry.static ≡ alice)
      × (new_entry.client ≡ old_entry.client)
      × (new_entry.server ≡ old_entry.server))
    ⊎ ((prev : Entry) × (lookup alice discovery.entries ≡ some prev)
        × (200 < prev.timestamp)
        × (5 ≡ prev.sequence)
        × (store new_entry discovery ≡ discovery))
update_entry_ok_example =
    update_entry_ok signer (8 ∷ []) 200 2 old_entry new_entry discovery (store new_entry discovery)
      updated
