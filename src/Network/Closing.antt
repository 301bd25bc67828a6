-- ===== src/Network/Closing.antt =====
-- transport.go, server.go: how the close of one end comes to the other.
use dmsg.Prelude.{
  ℕ, ◌<◌, ◌≡◌, ◌≢◌, refl, ap, ◌∙◌, Bool, true, ◌&&◌, ◌||◌, Option, none, some, [], ◌∷◌, ◌++◌, ◌==◌,
  arith, append-nil, u16_mod, concat, if◌then◌else◌,
}
use dmsg.Frame.{make_frame, close_type, placeholder_reason, read_frame}
use dmsg.Frame.Codec.{disassemble-make_frame}
use dmsg.Frame.Stream.{read_frame-make_frame}
use dmsg.Ioutil.AckWaiter.{Uint16AckWaiter}
use dmsg.Transport.{Transport, ◌>>=◌, close_frame, close_with_frame, write_close_frame}
use dmsg.Transport.Handshake.{Json}
use dmsg.Transport.Inv.{closing, close_lem}
use dmsg.Transport.Kept.{closing-Kept}
use dmsg.Transport.EndToEnd.{pay_of-make_frame, frame_type-make_frame}
use dmsg.Transport.Serving.{serve_frame, handle_frame, dispatch, handle_close, finish_serving}
use dmsg.Server.{Server, get_next, del_next, is_forwarded}
use dmsg.Server.Routes.{serve_frame-forward, get_next-del_next, route}
use dmsg.Network.{
  End, Network, ship, act, arrived, handed, written_to, deliver, served, serve_turn, left, at_b,
  arrives, serves_a, step, run,
}
use dmsg.Network.Ends.{IsOpen}
use dmsg.Network.Connected.{Connected}

-- Close of a transport, by its user.
unfoldable pub hang_up : End → Option End
unfolding ship
hang_up e = close_with_frame e.tp >>= λ tp. some (ship tp e)

-- The end after that.
unfoldable pub hung_up : Uint16AckWaiter → End → End
hung_up w e = record e { tp = closing w e.tp; up = e.up ++ concat (close_frame e.tp ∷ []) }

hang_up_lem : (e : End) → IsOpen e.tp → (w : Uint16AckWaiter) × (hang_up e ≡ some (hung_up w e))
unfolding hang_up hung_up ship close_with_frame write_close_frame close_frame
hang_up_lem e v =
    let (w, i, s, c) = close_lem e.tp v.inv in (w, ground (arith, c, v.is_open, v.unsent))

-- A CLOSE frame closes a transport that is open, which answers nothing.
serve_frame-close :
    (tp : Transport)
    → IsOpen tp
    → (w : Uint16AckWaiter) × (serve_frame
          (make_frame close_type tp.id (placeholder_reason ∷ []))
          tp
        ≡ some (closing w tp))
unfolding serve_frame dispatch handle_close finish_serving write_close_frame
serve_frame-close tp v =
    let (w, i, s, c) = close_lem tp v.inv in
    let (w2, i2, s2, c2) = close_lem (closing w tp) (closing-Kept tp v.inv w i).inv in
    (
      w2,
      rw
          (
            pay_of-make_frame close_type tp.id (placeholder_reason ∷ []),
            frame_type-make_frame close_type tp.id (placeholder_reason ∷ []),
          )
          (ground (arith, c, c2)),
    )

-- The other end, when the CLOSE has come to it.
unfoldable pub closed_by : Uint16AckWaiter → End → End
closed_by w e = record e { tp = closing w e.tp; up = e.up ++ []; down = [] }

arrives-close :
    (e : End)
    → IsOpen e.tp
    → e.down ≡ make_frame close_type e.tp.id (placeholder_reason ∷ []) ++ []
    → (w : Uint16AckWaiter) × (act arrives e ≡ some (closed_by w e))
unfolding act arrived handed handle_frame ship closed_by
arrives-close e v here =
    let p = placeholder_reason ∷ [] in
    let (w, c) = serve_frame-close e.tp v in
    (
      w,
      ground (
        arith,
        ap read_frame here,
        read_frame-make_frame close_type e.tp.id p [] (omega arith),
        disassemble-make_frame close_type e.tp.id p v.word,
        v.is_open,
        v.inv.in_ch ∙ v.is_open,
        v.unsent,
        c,
      ),
    )

module _ (json : Json) (alive ctx : ℕ → Bool) (fuel ca cb : ℕ)
    (all : (c : ℕ) → alive c ≡ true) where
  -- The server's turn for a CLOSE on a route.
  serves-close :
      (c id d other : ℕ) (s : Server)
      → id < u16_mod
      → get_next c id s ≡ some (route d other)
      → let p = placeholder_reason ∷ [] in
        let sent = record s { outs = s.outs ++ (d, make_frame close_type other p) ∷ [] } in
        serve_turn json alive ctx fuel ca cb c (make_frame close_type id p ++ []) s
        ≡ some (del_next d other (del_next c id sent), some [])
  unfolding serve_turn served is_forwarded
  serves-close c id d other s word r =
      let p = placeholder_reason ∷ [] in
      ground (
        arith,
        read_frame-make_frame close_type id p [] (omega arith),
        disassemble-make_frame close_type id p word,
        serve_frame-forward json alive ctx fuel c id d other close_type p s refl (all d) r,
      )

  -- The network when the server has passed the CLOSE on.
  abbrev passed : Uint16AckWaiter → Network → Network
  passed w n =
      let closed_frame = make_frame close_type n.b.tp.id (placeholder_reason ∷ []) in
      let s = record n.server { outs = n.server.outs ++ (cb, closed_frame) ∷ [] } in
      record {
        a = record (hung_up w n.a) { up = []; down = n.a.down ++ [] };
        b = record n.b { down = closed_frame ++ [] };
        server = record (del_next cb n.b.tp.id (del_next ca n.a.tp.id s)) { outs = [] };
      }

  step-serves_a :
      (n : Network) (w : Uint16AckWaiter)
      → ca ≢ cb
      → Connected ca cb n
      → n.a.up ≡ []
      → n.b.down ≡ []
      → step json alive ctx fuel ca cb serves_a (record n { a = hung_up w n.a }) ≡ some (passed w n)
  unfolding step deliver left written_to hung_up close_frame del_next
  step-serves_a n w apart v no_up no_down =
      let e =
        ap
          (λ x.
            serve_turn json alive ctx fuel ca cb ca
              (x ++ (make_frame close_type n.a.tp.id (placeholder_reason ∷ []) ++ [])) n.server)
          no_up
        ∙ serves-close ca n.a.tp.id cb n.b.tp.id n.server v.a_open.word v.route_a in
      ground (arith, e, v.quiet, no_down)

  get_next-passed :
      (n : Network) (w : Uint16AckWaiter) (c i : ℕ)
      → get_next c i (passed w n).server ≡ (
          if (ca == c && n.a.tp.id == i) || (cb == c && n.b.tp.id == i)
          then none
          else get_next c i n.server)
  unfolding get_next
  get_next-passed n w c i =
      let s = record n.server {
        outs =
            n.server.outs ++ (cb, make_frame close_type n.b.tp.id (placeholder_reason ∷ [])) ∷ [];
      } in
      ground (
        arith,
        get_next-del_next cb n.b.tp.id c i (del_next ca n.a.tp.id s),
        get_next-del_next ca n.a.tp.id c i s,
      )

  -- Close at one end of a transport that is open at both, with nothing on its way from that end to the
  -- other; then the server's next turn for that end, and the next frame of the other one. Nothing
  -- panics, and both ends are closed; the other end has kept the bytes that were not read yet, and
  -- has written nothing; and the server has lost the two routes of the transport, and no other.
  pub hang_up-run :
      (n : Network)
      → ca ≢ cb
      → Connected ca cb n
      → n.a.up ≡ []
      → n.b.down ≡ []
      → (a : End) × (t : Network) × (hang_up n.a ≡ some a)
        × (run json alive ctx fuel ca cb (serves_a ∷ at_b arrives ∷ []) (record n { a = a })
            ≡ some t)
        × (a.tp.done ≡ true)
        × (t.b.tp.done ≡ true)
        × (t.b.tp.buf ≡ n.b.tp.buf)
        × (t.b.up ≡ n.b.up)
        × (t.a.down ≡ n.a.down)
        × ((c i : ℕ)
            → get_next c i t.server ≡ (
                if (ca == c && n.a.tp.id == i) || (cb == c && n.b.tp.id == i)
                then none
                else get_next c i n.server))
  unfolding run step hung_up closed_by
  hang_up-run n apart v no_up no_down =
      let (w, h) = hang_up_lem n.a v.a_open in
      let b1 = (passed w n).b in
      let (w2, k) = arrives-close b1 v.b_open refl in
      (
        hung_up w n.a,
        record (passed w n) { b = closed_by w2 b1 },
        h,
        ground (arith, step-serves_a n w apart v no_up no_down, k),
        refl,
        refl,
        refl,
        append-nil n.b.up,
        append-nil n.a.down,
        (λ c i. get_next-passed n w c i),
      )
