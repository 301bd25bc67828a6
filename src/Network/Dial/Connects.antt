-- ===== src/Network/Dial/Connects.antt =====
-- client_conn.go and server.go: a DialTransport over the server connects, and what the transport
-- then carries.
use dmsg.Prelude.{
  ℕ, ◌+◌, ◌*◌, ◌%◌, ◌<◌, ◌≡◌, ◌≢◌, refl, ap, ◌∙◌, Bool, true, false, none, some, List, [], ◌∷◌,
  ◌++◌, concat, length, length-append, arith, ok, u16_mod, nat_eq, insert,
}
use dmsg.Frame.{pk_len, make_frame, request_type, accept_type, is_initiator_id, combine_pks}
use dmsg.Transport.{Transport, Addr, serve, new_transport}
use dmsg.Transport.Handshake.{Json, receives}
use dmsg.Listener.{Listener, accept_buffer_size}
use dmsg.Listener.Ports.{listener}
use dmsg.ClientConn.{ClientConn, set_tp, del_tp, get_tp}
use dmsg.ClientConn.Ids.{get_tp-set_tp}
use dmsg.ClientConn.Dialing.{dial_transport_ok}
use dmsg.ClientConn.Requests.{accepted_conn, accepted_tp, new_tp}
use dmsg.Server as Server
use dmsg.Server.{Server, NextConn, get_conn, get_next}
use dmsg.Server.Routes.{route, serve_frame-forward}
use dmsg.Network.{Network, Call, run}
use dmsg.Network.Connected.{AllShort}
use dmsg.Network.Fresh.{set_up, fresh_end, Delivers, run-Delivers}
use dmsg.Network.Dial.{Dialled, dial}
use dmsg.Network.Dial.Asks.{asks}
use dmsg.Network.Dial.Legs.{
  asked, opened, relay_lem, requested_lem, dialled_lem, answered_lem, dial_legs,
}

-- An ACCEPT on a route passes, and the server has then written nothing else.
accept_leg :
    (json : Json) (alive ctx : ℕ → Bool) (fuel ca cb id rid : ℕ) (q : List ℕ) (s : Server)
    → alive ca ≡ true
    → rid < u16_mod
    → length q < u16_mod
    → get_next cb rid s ≡ some (route ca id)
    → s.outs ≡ []
    → dmsg.Network.Dial.relay json alive ctx fuel cb ca
        (concat (make_frame accept_type rid q ∷ []))
        s
      ≡ some (make_frame accept_type id q, record s { outs = [] })
unfolding Server.is_forwarded
accept_leg json alive ctx fuel ca cb id rid q s l word short r quiet =
    let sent = record s { outs = s.outs ++ (ca, make_frame accept_type id q) ∷ [] } in
    relay_lem json alive ctx fuel cb ca accept_type rid accept_type id q q true s sent word short
      short (serve_frame-forward json alive ctx fuel cb rid ca id accept_type q s refl l r)
      (ap (λ o. o ++ (ca, make_frame accept_type id q) ∷ []) quiet)

get_tp-accepted_conn :
    (c : ClientConn) (id : ℕ) (seed : List ℕ) (payload : dmsg.Transport.Handshake.HandshakePayload)
    (l : Listener)
    → get_tp id (accepted_conn c payload id seed l) ≡ some (accepted_tp c payload id seed)
unfolding accepted_conn accepted_tp new_tp new_transport
get_tp-accepted_conn c id seed payload l =
    let tp = accepted_tp c payload id seed in
    let c' = record c {
      pm = record c.pm { listeners = insert payload.port l c.pm.listeners };
      outs = c.outs ++ tp.sent;
    } in
    ground (arith, get_tp-set_tp id id tp c')

-- Two ends that have been set up, the initiating one under id and the other under rid, each with
-- what it has written on its way, in their clients' maps, and the server's routes between them.
pub record IsConnected (ca cb id rid : ℕ) (addr_a addr_b : Addr) (seed_a seed_b : List ℕ)
    (d : Dialled) : Type 0 where
  pub tp_a : Transport
  pub tp_b : Transport
  pub returned : d.result ≡ ok tp_a
  pub entry_a : get_tp id d.a ≡ some tp_a
  pub entry_b : get_tp rid d.b ≡ some tp_b
  pub new_a : record tp_a { sent = [] } ≡ set_up addr_a addr_b id seed_a
  pub new_b : record tp_b { sent = [] } ≡ set_up addr_b addr_a rid seed_b
  pub word_a : id < u16_mod
  pub word_b : rid < u16_mod
  pub route_a : get_next ca id d.server ≡ some (route cb rid)
  pub route_b : get_next cb rid d.server ≡ some (route ca id)
  pub quiet : d.server.outs ≡ []

-- The network of the two transports, once what they have written has gone.
abbrev pub joined : Transport → Transport → Server → Network
joined tp_a tp_b s = record {
  a = fresh_end (record tp_a { sent = [] });
  b = fresh_end (record tp_b { sent = [] });
  server = s;
}

module _ (json : Json) (alive ctx : ℕ → Bool) (fuel ca cb port : ℕ) (seed_a seed_b : List ℕ)
    (a b : ClientConn) (s : Server) (l : Listener) (i j : ℕ) (takes : (c : ℕ) → alive c ≡ true)
    (lasts : (n : ℕ) → ctx n ≡ false) (apart : ca ≢ cb)
    (parses : json.unmarshal (json.marshal (asked a.local b.local port))
      ≡ some (asked a.local b.local port))
    (short : length (json.marshal (asked a.local b.local port)) < u16_mod)
    (key_a : length a.local ≡ pk_len) (key_b : length b.local ≡ pk_len) (up_a : a.done ≡ false)
    (word_a : a.next_init_id < u16_mod) (init_a : is_initiator_id a.next_init_id ≡ true)
    (enough_a : i < fuel) (free_a : get_tp ((a.next_init_id + 2 * i) % u16_mod) a ≡ none)
    (named_a : (s.conn ca).remote_client ≡ a.local) (named_b : get_conn b.local s ≡ some cb)
    (word_b : (s.conn cb).next_resp_id < u16_mod) (resp_b : (s.conn cb).next_resp_id % 2 ≡ 1)
    (enough_b : j < fuel)
    (free_b : get_next cb (((s.conn cb).next_resp_id + 2 * j) % u16_mod) s ≡ none)
    (routed : (n : ℕ) → get_next cb n s ≡ none → get_tp n b ≡ none) (quiet_s : s.outs ≡ [])
    (quiet_b : b.outs ≡ []) (up_b : b.done ≡ false) (there : listener port b.pm ≡ some l)
    (open_l : l.done ≡ false) (room : length l.accept < accept_buffer_size) where
  abbrev addr_a : Addr
  addr_a = record { pk = a.local; port = 0 }

  abbrev addr_b : Addr
  addr_b = record { pk = b.local; port = port }

  -- A client dials a port of another one. Both are connected to the server under their keys, of 33
  -- bytes, on two connections that take writes; the contexts last; the JSON of the REQUEST parses
  -- back and fits into a frame; the dialling client is open, and one of its next `fuel` ids, from an
  -- initiator's, is free; one of the next `fuel` ids of the other client's connection, from a
  -- responder's, has no route; each live transport of the other client has a route; the other client
  -- is open and listens at the port, in a queue with room; and nothing is waiting to be written.
  -- Then the dial ends, and DialTransport has returned a transport that is connected: it is in its
  -- client's map under its 16-bit id, a transport to it is in the other client's map, both are as
  -- new but that they serve, and the server has routes from each to the other.
  pub dial-IsConnected :
      (d : Dialled) × (id : ℕ) × (rid : ℕ) × (dial json alive ctx fuel ca cb port seed_a seed_b a b
          s
        ≡ some d)
      × IsConnected ca cb id rid addr_a addr_b seed_a seed_b d
  unfolding set_tp accepted_conn combine_pks accepted_tp new_tp del_tp set_up serve new_transport
      get_next
  dial-IsConnected =
      let p = json.marshal (asked a.local b.local port) in
      let x =
        asks json alive ctx fuel ca cb port a b s i j takes lasts apart parses short up_a word_a
          init_a enough_a free_a named_a named_b word_b resp_b enough_b free_b quiet_s in
      let q = combine_pks a.local b.local in
      let b1 =
        accepted_conn (del_tp x.rid b) (asked a.local b.local port) x.rid seed_b
          (record l { accept = l.accept ++ x.rid ∷ [] }) in
      let leg2 =
        answered_lem json seed_b x.rid p b (asked a.local b.local port) l parses refl x.responder
          (routed x.rid x.free) there up_b open_l room in
      let q_short : length q < u16_mod =
        ground (arith, key_a, key_b, length-append a.local b.local) in
      let leg3 =
        accept_leg json alive ctx fuel ca cb x.id x.rid q x.s' (takes ca) x.resp_word q_short
          x.route_b x.quiet in
      let (a2, leg4) =
        dialled_lem json ctx fuel port x.id b.local seed_a a x.a' key_a key_b x.word x.initiator
          x.found in
      let tp = record (opened json a.local b.local port x.id seed_a) { serving = true } in
      let (y, entry) =
        dial_transport_ok json ctx fuel true (receives (make_frame accept_type x.id q)) b.local port
          seed_a tp a a2 leg4 in
      let d : Dialled = record {
        result = ok tp;
        a = a2;
        b = b1;
        server = record x.s' { outs = [] };
      } in
      (
        d,
        x.id,
        x.rid,
        dial_legs json alive ctx fuel ca cb port seed_a seed_b a b s x.id x.rid p
            (make_frame request_type x.id p) (make_frame accept_type x.rid q)
            (make_frame accept_type x.id q) true b1 x.s' (record x.s' { outs = [] }) (ok tp, a2)
            x.resp_word (requested_lem json ctx fuel port x.id b.local seed_a a x.a' x.found) x.leg
            leg2 (ap (λ o. o ++ make_frame accept_type x.rid q ∷ []) quiet_b) leg3 leg4,
        record {
          tp_a = tp;
          tp_b = accepted_tp (del_tp x.rid b) (asked a.local b.local port) x.rid seed_b;
          returned = refl;
          entry_a = entry;
          entry_b =
              get_tp-accepted_conn (del_tp x.rid b) x.rid seed_b (asked a.local b.local port)
                (record l { accept = l.accept ++ x.rid ∷ [] });
          new_a = refl;
          new_b = refl;
          word_a = x.word;
          word_b = x.resp_word;
          route_a = x.route_a;
          route_b = x.route_b;
          quiet = refl;
        },
      )

  -- A client dials a port of another one and then the two talk. Both are connected to the server
  -- under their keys, of 33 bytes, on two connections that take writes; the contexts last; the JSON of
  -- the REQUEST parses back and fits into a frame; the dialling client is open, and one of its next
  -- `fuel` ids, from an initiator's, is free; one of the next `fuel` ids of the other client's
  -- connection, from a responder's, has no route; each live transport of the other client has a route;
  -- the other client is open and listens at the port, in a queue with room; and nothing is waiting to
  -- be written. Then DialTransport returns a transport that is connected, and it carries what is
  -- written: whatever the order of the steps of its two ends and the server's after the dial, in which
  -- no end is closed and each Write fits into a frame, the run does not panic or stop, and at each end
  -- the bytes that have been read are the first of the bytes that have been written at the other end,
  -- in order.
  pub dial-run-Delivers :
      (calls : List Call)
      → AllShort calls
      → (d : Dialled) × (id : ℕ) × (rid : ℕ) × (n : Network) × (dial json alive ctx fuel ca cb port
            seed_a seed_b a b s
          ≡ some d)
        × (c : IsConnected ca cb id rid addr_a addr_b seed_a seed_b d) × (run json alive ctx fuel ca
              cb calls
              (joined c.tp_a c.tp_b d.server)
            ≡ some n)
        × Delivers n
  unfolding Delivers
  dial-run-Delivers calls fit =
      let (d, id, rid, e, c) = dial-IsConnected in
      let (n, ran, to_b, to_a) =
        run-Delivers json alive ctx fuel ca cb addr_a addr_b addr_b addr_a id rid seed_a seed_b
          d.server calls takes apart c.word_a c.word_b c.route_a c.route_b c.quiet fit in
      (
        d,
        id,
        rid,
        n,
        e,
        c,
        ap
              (λ x. run json alive ctx fuel ca cb calls (record {
                a = fresh_end x;
                b = fresh_end (record c.tp_b { sent = [] });
                server = d.server;
              }))
              c.new_a
            ∙ ap
                (λ x. run json alive ctx fuel ca cb calls (record {
                  a = fresh_end (set_up addr_a addr_b id seed_a);
                  b = fresh_end x;
                  server = d.server;
                }))
                c.new_b
            ∙ ran,
        (to_b, to_a),
      )
