-- ===== src/Network/Dial/Asks.antt =====
-- client_conn.go and server.go: the first half of a DialTransport over the server, as far as the
-- REQUEST at the responding client.
use dmsg.Prelude.{
  ℕ, ◌+◌, ◌*◌, ◌%◌, ◌<◌, ◌≡◌, ◌≢◌, refl, ap, sym, ◌∙◌, Bool, true, false, none, some, List, [], ◌∷◌,
  ◌++◌, ◌==◌, ◌&&◌, ◌||◌, concat, length, arith, ok, u16_mod,
}
use dmsg.Frame.{make_frame, request_type, is_initiator_id}
use dmsg.Transport.Handshake.{Json}
use dmsg.ClientConn.{ClientConn, get_tp, get_next_init_id}
use dmsg.ClientConn.Ids.{get_next_init_id_finds, get_next_init_id_sound}
use dmsg.Server as Server
use dmsg.Server.{Server, get_conn, get_next}
use dmsg.Server.Routes.{route, handle_request-links}
use dmsg.Network.Dial.{relay}
use dmsg.Network.Dial.Legs.{asked, relay_lem}

serve_request :
    (json : Json) (alive ctx : ℕ → Bool) (fuel c id : ℕ) (p : List ℕ) (s t : Server)
    → Server.handle_request json alive ctx fuel c id p s ≡ some (true, t)
    → Server.serve_frame json alive ctx fuel c (request_type, id, p) s ≡ some (true, t)
unfolding Server.serve_frame Server.after_request
serve_request json alive ctx fuel c id p s t e = ground (arith, e)

-- The ids that the client a and the server have taken, and what they leave, once the REQUEST of the
-- client a is on its way to the client b.
pub record Asks (json : Json) (alive ctx : ℕ → Bool) (fuel ca cb port : ℕ) (a b : ClientConn)
    (s : Server) : Type 0 where
  pub id : ℕ
  pub rid : ℕ
  pub a' : ClientConn
  pub s' : Server
  pub found : get_next_init_id ctx fuel a ≡ some (ok id, a')
  pub word : id < u16_mod
  pub initiator : is_initiator_id id ≡ true
  pub free : get_next cb rid s ≡ none
  pub resp_word : rid < u16_mod
  pub responder : is_initiator_id rid ≡ false
  pub route_a : get_next ca id s' ≡ some (route cb rid)
  pub route_b : get_next cb rid s' ≡ some (route ca id)
  pub others :
      (c i : ℕ)
      → ((ca == c && id == i) || (cb == c && rid == i)) ≡ false
      → get_next c i s' ≡ get_next c i s
  pub quiet : s'.outs ≡ []
  pub leg :
      let p = json.marshal (asked a.local b.local port) in
      relay json alive ctx fuel ca cb (concat (make_frame request_type id p ∷ [])) s
      ≡ some (make_frame request_type rid p, s')

module _ (json : Json) (alive ctx : ℕ → Bool) (fuel ca cb port : ℕ) (a b : ClientConn) (s : Server)
    (i j : ℕ) (takes : (c : ℕ) → alive c ≡ true) (lasts : (n : ℕ) → ctx n ≡ false) (apart : ca ≢ cb)
    (parses : json.unmarshal (json.marshal (asked a.local b.local port))
      ≡ some (asked a.local b.local port))
    (short : length (json.marshal (asked a.local b.local port)) < u16_mod) (up_a : a.done ≡ false)
    (word_a : a.next_init_id < u16_mod) (init_a : is_initiator_id a.next_init_id ≡ true)
    (enough_a : i < fuel) (free_a : get_tp ((a.next_init_id + 2 * i) % u16_mod) a ≡ none)
    (named_a : (s.conn ca).remote_client ≡ a.local) (named_b : get_conn b.local s ≡ some cb)
    (word_b : (s.conn cb).next_resp_id < u16_mod) (resp_b : (s.conn cb).next_resp_id % 2 ≡ 1)
    (enough_b : j < fuel)
    (free_b : get_next cb (((s.conn cb).next_resp_id + 2 * j) % u16_mod) s ≡ none)
    (quiet_s : s.outs ≡ []) where
  pub asks : Asks json alive ctx fuel ca cb port a b s
  unfolding is_initiator_id get_next
  asks =
      let p = json.marshal (asked a.local b.local port) in
      let (id, a', found) = get_next_init_id_finds ctx fuel i a lasts up_a word_a enough_a free_a in
      let (x1, bound, init, x2, x3) = get_next_init_id_sound ctx fuel a a' id word_a init_a found in
      let (rid, t, handled, rfree, rbound, parity, routes, outs) =
        handle_request-links json alive ctx fuel ca id cb j p (asked a.local b.local port) s parses
          (sym named_a) named_b (takes cb) lasts word_b enough_b free_b in
      record {
        id = id;
        rid = rid;
        a' = a';
        s' = record t { outs = [] };
        found = found;
        word = bound;
        initiator = init;
        free = rfree;
        resp_word = rbound;
        responder = ground (arith, parity, resp_b);
        route_a = ground (arith, routes ca id);
        route_b = ground (arith, routes cb rid, apart);
        others = λ c i h. ground (arith, routes c i);
        quiet = refl;
        leg =
            relay_lem json alive ctx fuel ca cb request_type id request_type rid p p true s t bound
              short short (serve_request json alive ctx fuel ca id p s t handled)
              (outs ∙ ap (λ o. o ++ (cb, make_frame request_type rid p) ∷ []) quiet_s);
      }
