-- ===== src/Transport/Reads.antt =====
-- transport.go: what a Read returns, in every state of the transport.
use dmsg.Prelude.{
  ℕ, zero, suc, ◌-◌, ◌<◌, ◌≡◌, refl, sym, ap, ◌∙◌, true, false, Option, none, some, List, [], ◌∷◌,
  ◌++◌, if◌then◌else◌, length, take, arith, Bool-cases, ◌==◌, ltb, concat, inl, inr, ◌||◌, eof,
  length-append, min, length-take,
}
use dmsg.Transport.{Transport}
use dmsg.Transport.Reading.{
  read_buffers, drop_empty, release_acks, take_bytes, turn, read, read_error, Outcome, returns,
  blocks,
}
use dmsg.Transport.Inv.{Inv, total}
use dmsg.Transport.Stream.{read_buffers-concat}

length-concat : (bs : List (List ℕ)) → length (concat bs) ≡ total bs
length-concat [] = refl
length-concat (b ∷ bs) = omega (arith, length-append b (concat bs), length-concat bs)

length-read_buffers : (k : ℕ) (bs : List (List ℕ)) → length (read_buffers k bs).0 ≡ min k (total bs)
unfolding read_buffers
length-read_buffers k [] = omega arith
length-read_buffers k (b ∷ bs) =
    let (p, rest) = read_buffers (k - length b) bs in
    ground (arith, length-read_buffers (k - length b) bs, length-append b p, length-take k b)

take-prefix :
    (p rest : List ℕ) (k : ℕ) → length p ≡ min k (length (p ++ rest)) → p ≡ take k (p ++ rest)
take-prefix [] rest zero e = refl
take-prefix [] [] (suc k) e = refl
take-prefix [] (y ∷ rest) (suc k) e = absurd (omega arith)
take-prefix (x ∷ p) rest zero e = absurd (omega arith)
take-prefix (x ∷ p) rest (suc k) e = ap (λ r. x ∷ r) (take-prefix p rest k (omega arith))

-- The bytes that net.Buffers.Read gives are the first ones of the buffers.
pub read_buffers-take : (k : ℕ) (bs : List (List ℕ)) → (read_buffers k bs).0 ≡ take k (concat bs)
read_buffers-take k bs =
    let (p, rest) = read_buffers k bs in
    take-prefix p (concat rest) k (
      length-read_buffers k bs
      ∙ ap (min k) (sym (ap length (read_buffers-concat k bs) ∙ length-concat bs)))
    ∙ ap (take k) (read_buffers-concat k bs)

-- Where nothing is buffered a read of one byte or more drops the empty buffers.
read_buffers_none : (k : ℕ) (bs : List (List ℕ)) → 0 < k → total bs ≡ 0 → (read_buffers k bs).1 ≡ []
unfolding read_buffers drop_empty
read_buffers_none k [] h e = refl
read_buffers_none k ([] ∷ bs) h e = ground (arith, read_buffers_none k bs h)
read_buffers_none k ((x ∷ b) ∷ bs) h e = absurd (omega arith)

fields-take_bytes :
    (k : ℕ) (tp : Transport)
    → ((take_bytes k tp).1.done ≡ tp.done)
      × ((take_bytes k tp).1.notice ≡ tp.notice)
      × ((take_bytes k tp).1.buf_ch_closed ≡ tp.buf_ch_closed)
      × ((take_bytes k tp).1.buf ≡ (read_buffers k tp.buf).1)
      × ((take_bytes k tp).0 ≡ (read_buffers k tp.buf).0)
unfolding take_bytes release_acks
fields-take_bytes k tp = ground arith

-- What Read answers, from the state in which it starts.
pub answer : ℕ → Transport → Outcome
answer k tp =
    if k == 0 || ltb 0 (total tp.buf)
    then returns (take k (concat tp.buf))
        (if tp.done then read_error (read_buffers k tp.buf).1 else none)
    else (if tp.done then returns [] (some eof) else blocks)

abbrev pub outcome : Option (Outcome × Transport) → Option Outcome
outcome none = none
outcome (some (o, tp)) = some o

-- One turn from a state with data, or with an empty slice, returns.
turn_data :
    (k : ℕ) (tp : Transport)
    → k == 0 || ltb 0 (total tp.buf) ≡ true
    → (turn k tp).0 ≡ some (answer k tp)
unfolding turn answer
turn_data k tp e =
    ground (arith, fields-take_bytes k tp, read_buffers-take k tp.buf, length-read_buffers k tp.buf)

turn_empty :
    (k : ℕ) (tp : Transport)
    → k == 0 || ltb 0 (total tp.buf) ≡ false
    → tp.notice ≡ false
    → tp.buf_ch_closed ≡ tp.done
    → (turn k tp).0 ≡ some (answer k tp)
unfolding turn answer read_error
turn_empty k tp e n c = ground (
  arith,
  fields-take_bytes k tp,
  read_buffers-take k tp.buf,
  length-read_buffers k tp.buf,
  read_buffers_none k tp.buf,
)

-- A notice with nothing behind it is consumed, and the loop goes round once more.
turn_notice :
    (k : ℕ) (tp : Transport)
    → k == 0 || ltb 0 (total tp.buf) ≡ false
    → tp.notice ≡ true
    → turn k tp ≡ (none, record (take_bytes k tp).1 { notice = false })
unfolding turn
turn_notice k tp e n = ground (arith, fields-take_bytes k tp, length-read_buffers k tp.buf)

read-turn :
    (fuel k : ℕ) (tp : Transport) (o : Outcome)
    → (turn k tp).0 ≡ some o
    → outcome (read (suc fuel) k tp) ≡ some o
unfolding read
read-turn fuel k tp o e = ground arith

read-notice :
    (fuel k : ℕ) (tp u : Transport)
    → turn k tp ≡ (none, u)
    → outcome (read (suc fuel) k tp) ≡ outcome (read fuel k u)
unfolding read
read-notice fuel k tp u e =
    rw (e, read) (ap (λ (x : Option Outcome × Transport). outcome (read fuel k x.1)) e)

fields_closed :
    (k : ℕ) (tp : Transport)
    → tp.buf_ch_closed ≡ tp.done
    → (take_bytes k tp).1.buf_ch_closed ≡ (take_bytes k tp).1.done
fields_closed k tp e = ground (arith, fields-take_bytes k tp)

answer_again :
    (k : ℕ) (tp : Transport)
    → k == 0 || ltb 0 (total tp.buf) ≡ false
    → (answer k (record (take_bytes k tp).1 { notice = false }) ≡ answer k tp)
      × (k == 0 || ltb 0 (total (take_bytes k tp).1.buf) ≡ false)
unfolding answer
answer_again k tp e = ground (arith, fields-take_bytes k tp, read_buffers_none k tp.buf)

-- Read ends within two turns, and answers as follows. With data buffered, or for an empty slice, it
-- returns at once the first bytes of the buffers, as many as fit, and on an open transport with no
-- error; with none buffered it returns EOF if the transport is closed, and blocks if it is open.
pub read-answer :
    (fuel k : ℕ) (tp : Transport)
    → Inv tp
    → outcome (read (suc (suc fuel)) k tp) ≡ some (answer k tp)
read-answer fuel k tp v = elim (Bool-cases (k == 0 || ltb 0 (total tp.buf))) [
  | inl e ↦ read-turn (suc fuel) k tp (answer k tp) (turn_data k tp e)
  | inr e ↦ elim (Bool-cases tp.notice) [
    | inl n ↦ read_again e n
    | inr n ↦ read-turn (suc fuel) k tp (answer k tp) (turn_empty k tp e n v.buf_ch)
  ]
]
  where
    read_again :
        k == 0 || ltb 0 (total tp.buf) ≡ false
        → tp.notice ≡ true
        → outcome (read (suc (suc fuel)) k tp) ≡ some (answer k tp)
    read_again e n =
        let (same, rest) = answer_again k tp e in
        let u = record (take_bytes k tp).1 { notice = false } in
        read-notice (suc fuel) k tp u (turn_notice k tp e n)
        ∙ read-turn fuel k u (answer k tp)
            (turn_empty k u rest refl (fields_closed k tp v.buf_ch) ∙ ap some same)
