-- ===== src/Listener/Ports.antt =====
-- port_manager.go: the listeners by port, and the search for a free port.
use dmsg.Prelude.{
  ℕ, ◌+◌, ◌-◌, ◌%◌, ◌≤◌, ◌<◌, ◌≡◌, Option, none, some, List, [], ◌∷◌, if◌then◌else◌, arith, lookup,
  insert, delete, lookup-insert, lookup-delete, nat_eq, u16_mod, ◌==◌,
}
use dmsg.Listener.{Listener, new_listener}

abbrev pub first_ephemeral_port : ℕ
first_ephemeral_port = 49152

abbrev pub last_ephemeral_port : ℕ
last_ephemeral_port = 65535

pub record PortManager : Type 0 where
  pub listeners : List (ℕ × Listener)

unfoldable pub new_port_manager : PortManager
new_port_manager = record { listeners = [] }

unfoldable pub listener : ℕ → PortManager → Option Listener
listener port pm = lookup port pm.listeners

-- NewListener: `none` where the port is taken.
unfoldable pub assign : List ℕ → ℕ → PortManager → Option Listener × PortManager
assign pk port pm = elim (listener port pm) [
  | none ↦ (
    some (new_listener pk port),
    record { listeners = insert port (new_listener pk port) pm.listeners },
  )
  | some l ↦ (none, pm)
]

unfoldable pub remove_listener : ℕ → PortManager → PortManager
remove_listener port pm = record { listeners = delete port pm.listeners }

-- rand.Intn(lastEphemeralPort-firstEphemeralPort) gives a number below 16383.
unfoldable pub random_ephemeral_port : ℕ → ℕ
random_ephemeral_port n = (first_ephemeral_port + n) % u16_mod

-- NextEmptyEphemeralPort, over the numbers that the random source gives.
unfoldable pub next_empty_ephemeral_port : List ℕ → PortManager → Option ℕ
next_empty_ephemeral_port [] pm = none
next_empty_ephemeral_port (n ∷ ns) pm =
    let rest = next_empty_ephemeral_port ns pm in
    let port = random_ephemeral_port n in
    elim (listener port pm) [ none ↦ some port | some l ↦ rest ]

abbrev pub AllDraws : List ℕ → Type 0
AllDraws [] = Unit {0}
AllDraws (n ∷ ns) = (n < last_ephemeral_port - first_ephemeral_port) × AllDraws ns

-- A port that NextEmptyEphemeralPort returns lies in the ephemeral range, has no listener, and can
-- be assigned. It is never 65535, the last port of the range.
pub next_empty_ephemeral_port_free :
    (ns : List ℕ) (pk : List ℕ) (pm : PortManager) (port : ℕ)
    → AllDraws ns
    → next_empty_ephemeral_port ns pm ≡ some port
    → (first_ephemeral_port ≤ port)
      × (port < last_ephemeral_port)
      × (listener port pm ≡ none)
      × ((assign pk port pm).0 ≡ some (new_listener pk port))
unfolding next_empty_ephemeral_port random_ephemeral_port assign
next_empty_ephemeral_port_free [] pk pm port h e = absurd (ground arith)
next_empty_ephemeral_port_free (n ∷ ns) pk pm port h e =
    ground (arith, next_empty_ephemeral_port_free ns pk pm port h.1)

-- What each operation of the port manager makes of each port: NewListener gives a listener exactly
-- where there was none, and changes that port only; RemoveListener frees its port only.
listener-assign :
    (pk : List ℕ) (port j : ℕ) (pm : PortManager)
    → ((assign pk port pm).0
        ≡ elim (listener port pm) [ none ↦ some (new_listener pk port) | some l ↦ none ])
      × (listener j (assign pk port pm).1 ≡ (
          if port == j
          then elim (listener port pm) [ none ↦ some (new_listener pk port) | some l ↦ some l ]
          else listener j pm))
      × (listener j (remove_listener port pm) ≡ (if port == j then none else listener j pm))
unfolding assign listener remove_listener
listener-assign pk port j pm = ground (
  arith,
  lookup-insert port j (new_listener pk port) pm.listeners,
  lookup-delete port j pm.listeners,
)
