-- ===== src/Noise/Dialer.antt =====
-- noise/net.go: the RPCClientDialer, whose Run dials again and again until Close. `done` is the
-- channel, nil where no Run is under way, with whether it is closed; a connection is a number. What a
-- dial gives is a parameter. `none` is the panic of closing a closed channel.
use dmsg.Prelude.{
  ℕ, suc, ◌≤◌, ◌<◌, refl, ◌≡◌, inl, inr, arith, Bool, true, false, Option-cases, Option, none, some,
  List, [], ◌∷◌, ◌++◌, if◌then◌else◌,
}
use dmsg.Transport.{◌>>=◌}

pub record RpcClientDialer : Type 0 where
  pub conn : Option ℕ
  pub done : Option Bool
  pub served : List ℕ
  pub hung_up : List ℕ

-- NewRPCClientDialer
unfoldable pub new_rpc_client_dialer : RpcClientDialer
new_rpc_client_dialer = record { conn = none; done = none; served = []; hung_up = [] }

-- setDone: whether no other Run is under way.
unfoldable pub set_done : RpcClientDialer → Bool × RpcClientDialer
set_done d = elim d.done [
  | none ↦ (true, record d { done = some false })
  | some closed ↦ (false, d)
]

-- clearDone
unfoldable pub clear_done : RpcClientDialer → RpcClientDialer
clear_done d = record d { done = none }

unfoldable pub set_conn : Option ℕ → RpcClientDialer → RpcClientDialer
set_conn c d = record d { conn = c }

-- Close closes the channel and the connection, where they are there.
unfoldable pub close_done : Option Bool → Option (Option Bool)
close_done none = some none
close_done (some false) = some (some true)
close_done (some true) = none

unfoldable pub hang_up : RpcClientDialer → RpcClientDialer
hang_up d = elim d.conn [ none ↦ d | some c ↦ record d { hung_up = d.hung_up ++ c ∷ [] } ]

unfoldable pub close : RpcClientDialer → Option RpcClientDialer
close d = close_done d.done >>= λ done. some (hang_up (record d { done = done }))

-- What establishConn gives: a connection; an error of the network, after which Run tries again; or
-- another error.
pub data Dial : Type 0 where
  connects : ℕ → Dial
  network_fails fails : Dial

-- The body of the loop of Run: whether it goes on to its select. A connection is served until it
-- ends; `during` is what others do to the dialer meanwhile.
unfoldable pub turn :
    (RpcClientDialer → Option RpcClientDialer)
    → Dial
    → RpcClientDialer
    → Option (Bool × RpcClientDialer)
turn during (connects c) d =
    during (record d { conn = some c; served = d.served ++ c ∷ [] }) >>= λ e.
    some (true, set_conn none e)
turn during network_fails d = during d >>= λ e. some (true, e)
turn during fails d = some (false, d)

-- The select of Run: it returns, with the channel cleared, if the channel is closed.
unfoldable pub select : RpcClientDialer → Bool × RpcClientDialer
select d = elim d.done [
  | none ↦ (false, d)
  | some closed ↦ if closed then (true, clear_done d) else (false, d)
]

hang_up-done : (d : RpcClientDialer) → (hang_up d).done ≡ d.done
unfolding hang_up
hang_up-done d = elim (Option-cases d.conn) [
  | inl m ↦ ground (arith, m)
  | inr (c, m) ↦ ground (arith, m)
]

-- What the users of a dialer call: Run, up to its first dial, and Close.
pub data Call : Type 0 where
  runs closes : Call

unfoldable pub step : Call → RpcClientDialer → Option RpcClientDialer
step runs d = some (set_done d).1
step closes d = close d

unfoldable pub run : List Call → RpcClientDialer → Option RpcClientDialer
unfolding step
run [] d = some d
run (c ∷ cs) d = step c d >>= run cs

abbrev pub close_count : List Call → ℕ
close_count [] = 0
close_count (runs ∷ cs) = close_count cs
close_count (closes ∷ cs) = suc (close_count cs)

close-panics : (d : RpcClientDialer) → d.done ≡ some true → close d ≡ none
unfolding close close_done
close-panics d e = ground (arith, e)

close-once :
    (d : RpcClientDialer)
    → d.done ≡ some false
    → (e : RpcClientDialer) × (close d ≡ some e) × (e.done ≡ some true)
unfolding close close_done
close-once d h =
    let e = record d { done = some true } in (hang_up e, ground (arith, h), hang_up-done e)

run-closed :
    (cs : List Call) (d : RpcClientDialer)
    → d.done ≡ some true
    → (close_count cs ≡ 0 → run cs d ≡ some d) × (0 < close_count cs → run cs d ≡ none)
unfolding run set_done
run-closed [] d h = ((λ n. refl), (λ n. absurd (omega arith)))
run-closed (runs ∷ cs) d h =
    let (a, b) = run-closed cs d h in ((λ n. ground (arith, h, a n)), (λ n. ground (arith, h, b n)))
run-closed (closes ∷ cs) d h =
    ((λ n. absurd (omega arith)), (λ n. ground (arith, close-panics d h)))

run-stuck :
    (cs : List Call) (d : RpcClientDialer)
    → d.done ≡ some false
    → (close_count cs < 2 → (e : RpcClientDialer) × (run cs d ≡ some e) × ((set_done e).0 ≡ false))
      × (2 ≤ close_count cs → run cs d ≡ none)
unfolding run set_done
run-stuck [] d h = ((λ n. (d, refl, ground (arith, h))), (λ n. absurd (omega arith)))
run-stuck (runs ∷ cs) d h =
    let (a, b) = run-stuck cs d h in
    (
      (λ n. let (e, r, no_more) = a n in (e, ground (arith, h, r), no_more)),
      (λ n. ground (arith, h, b n)),
    )
run-stuck (closes ∷ cs) d h =
    let (e, c, shut) = close-once d h in
    let (a, b) = run-closed cs e shut in
    (
      (λ n. (e, ground (arith, c, a (omega arith)), ground (arith, shut))),
      (λ n. ground (arith, c, b (omega arith))),
    )

-- From a dialer with no Run under way, a Run whose first dial fails with an error that is not of the
-- network returns; and whatever calls of Run and Close follow, no Run ever gets past its start, one
-- Close goes through, and a second one panics.
pub turn-run :
    (during : RpcClientDialer → Option RpcClientDialer) (cs : List Call) (d : RpcClientDialer)
    → d.done ≡ none
    → (t : RpcClientDialer) × ((set_done d).0 ≡ true)
      × (turn during fails (set_done d).1 ≡ some (false, t))
      × (close_count cs < 2
          → (e : RpcClientDialer) × (run cs t ≡ some e) × ((set_done e).0 ≡ false))
      × (2 ≤ close_count cs → run cs t ≡ none)
unfolding turn
turn-run during cs d h =
    let t = record d { done = some false } in
    let (a, b) = run-stuck cs t refl in
    (t, unfold set_done in ground (arith, h), unfold set_done in ground (arith, h), a, b)

-- A Close during a Run that has not been closed ends it at its next select, and then another Run can
-- begin.
close-select :
    (d : RpcClientDialer)
    → d.done ≡ some false
    → (e : RpcClientDialer) × (close d ≡ some e)
      × ((select e).0 ≡ true)
      × ((set_done (select e).1).0 ≡ true)
unfolding select clear_done set_done
close-select d h =
    let (e, c, shut) = close-once d h in (e, c, ground (arith, shut), ground (arith, shut))
