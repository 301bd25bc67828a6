-- ===== src/Network/Acts.antt =====
-- transport.go: what each step of an end sends, and what it takes in.
use dmsg.Prelude.{◌+◌, ◌<◌, ◌≡◌, List, length, u16_mod}
use dmsg.Transport.Inv.{Holds}
use dmsg.Network.{End, Act, reads, writes, waits, flushes, arrives, act}
use dmsg.Network.Wire.{Piece, wire, AllFit}
use dmsg.Network.Ends.{IsOpen}
use dmsg.Network.Acted.{Acted}
use dmsg.Network.Sends.{reads-Acted, act-writes, writes-Acted, waits-Acted, flushes-Acted}
use dmsg.Network.Arrivals.{arrives-Acted}

-- What a Write takes has to fit into a frame with its sequence number.
abbrev pub IsShort : Act → Type 0
IsShort (writes p) = length p + 2 < u16_mod
IsShort _ = Unit {0}

-- Each step of an end is one that `Acted` describes: it does not panic, and leaves the transport open.
pub act-Acted :
    (a : Act) (down : List Piece) (e : End)
    → IsShort a
    → IsOpen e.tp
    → AllFit down
    → e.down ≡ wire e.tp.id down
    → Holds (Acted down e) (act a e)
act-Acted (reads k) down e h o fit d = unfold act in reads-Acted k down e o d
act-Acted (writes p) down e h o fit d = rw (act-writes p e o) (writes-Acted p down e o d h)
act-Acted (waits p seq ch) down e h o fit d = unfold act in waits-Acted p seq ch down e o d
act-Acted (flushes n) down e h o fit d = unfold act in flushes-Acted n down e o d
act-Acted arrives down e h o fit d = arrives-Acted down e o fit d
