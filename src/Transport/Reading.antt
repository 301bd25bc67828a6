-- ===== src/Transport/Reading.antt =====
-- transport.go: Read, over the buffers of package net, from where the transport is served: the wait
-- for the channel `serving` is over.
use dmsg.Prelude.{
  ℕ, zero, suc, ◌-◌, false, not, Option, none, some, List, [], ◌∷◌, ◌++◌, if◌then◌else◌, length,
  take, drop, ltb, leb, ◌==◌, ◌&&◌, ◌||◌, Error, eof,
}
use dmsg.Transport.{Transport}
use dmsg.Transport.Serving.{tp_buf_cap}

-- net.Buffers.consume after a copy of n bytes out of the first buffer: it drops that buffer once it
-- is used up, and with it the empty buffers that follow.
unfoldable pub drop_empty : List (List ℕ) → List (List ℕ)
drop_empty [] = []
drop_empty ([] ∷ bs) = drop_empty bs
drop_empty ((x ∷ b) ∷ bs) = (x ∷ b) ∷ bs

-- net.Buffers.Read into a slice of k bytes: the bytes, and the buffers that are left. A slice of no
-- bytes leaves the buffers alone.
unfoldable pub read_buffers : ℕ → List (List ℕ) → List ℕ × List (List ℕ)
unfolding drop_empty
read_buffers k [] = ([], [])
read_buffers k (b ∷ bs) =
    let (p, rest) = read_buffers (k - length b) bs in
    if k == 0
    then ([], b ∷ bs)
    else (if leb (length b) k then (b ++ p, drop_empty rest) else (take k b, drop k b ∷ bs))

-- The error of net.Buffers.Read: EOF where no buffer is left.
unfoldable pub read_error : List (List ℕ) → Option Error
read_error [] = some eof
read_error (b ∷ bs) = none

-- After a read of n bytes, the held ACKs go out if there is room again.
unfoldable pub release_acks : ℕ → Transport → Transport
release_acks n tp =
    let size = tp.buf_size - n in
    if ltb size tp_buf_cap && not (length tp.ack_buf == 0)
    then record tp { buf_size = size; ack_buf = []; spawned = tp.spawned ++ tp.ack_buf ∷ [] }
    else record tp { buf_size = size }

unfoldable pub take_bytes : ℕ → Transport → List ℕ × Transport
take_bytes k tp =
    let (p, bs) = read_buffers k tp.buf in (p, release_acks (length p) (record tp { buf = bs }))

-- What a Read of k bytes comes to: it returns, or it blocks on bufCh.
pub data Outcome : Type 0 where
  returns : List ℕ → Option Error → Outcome
  blocks : Outcome

-- One turn from startRead: the outcome, or `none` for the jump back to startRead.
unfoldable pub turn : ℕ → Transport → Option Outcome × Transport
turn k tp =
    let (p, tp') = take_bytes k tp in
    if not (length p == 0) || k == 0
    then (some (returns p (if not tp'.done then none else read_error tp'.buf)), tp')
    else (if tp'.notice
        then (none, record tp' { notice = false })
        else (if tp'.buf_ch_closed
            then (some (returns p (read_error tp'.buf)), tp')
            else (some blocks, tp')))

-- Read while no other goroutine runs, on fuel for the jumps back to startRead.
unfoldable pub read : ℕ → ℕ → Transport → Option (Outcome × Transport)
read zero k tp = none
read (suc fuel) k tp =
    let (o, tp') = turn k tp in elim o [ some out ↦ some (out, tp') | none ↦ read fuel k tp' ]
