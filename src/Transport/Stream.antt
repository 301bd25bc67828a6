-- ===== src/Transport/Stream.antt =====
-- transport.go: the bytes that Read gives are the payloads of the FWD frames, in order.
use dmsg.Prelude.{
  ℕ, ◌-◌, ◌≡◌, refl, sym, Option, none, some, List, [], ◌∷◌, ◌++◌, if◌then◌else◌, length, take,
  drop, arith, concat, concat-append, append_assoc, append-nil, take-append-drop,
}
use dmsg.Transport.{Transport, ◌>>=◌}
use dmsg.Transport.Serving.{acknowledge, add_payload}
use dmsg.Transport.Reading.{read_buffers, drop_empty, release_acks, take_bytes}
use dmsg.Transport.Inv.{Inv, Holds, Holds-bind}
use dmsg.Transport.Kept.{Kept}
use dmsg.Transport.Safety.{
  accepts, frame_effect, effect, Call, receives_frame, reads, step, AllWhole, step-Kept,
}

-- The bytes that a step hands to the reader.
unfoldable pub delivered : Call → Transport → List ℕ
delivered (reads k) tp = (take_bytes k tp).0
delivered _ tp = []

-- The payload behind the sequence number of an FWD frame that the step takes in.
unfoldable pub payload : Call → List ℕ
payload (receives_frame []) = []
payload (receives_frame (t ∷ f)) = if accepts t (drop 4 f) then drop 2 (drop 4 f) else []
payload _ = []

unfoldable pub payloads : List Call → List ℕ
unfolding payload
payloads [] = []
payloads (c ∷ cs) = payload c ++ payloads cs

-- A run that collects what the reads deliver.
collect : List ℕ → Option (List ℕ × Transport) → Option (List ℕ × Transport)
collect out none = none
collect out (some (rest, tp)) = some (out ++ rest, tp)

unfoldable pub trace : List Call → Transport → Option (List ℕ × Transport)
unfolding collect delivered
trace [] tp = some ([], tp)
trace (c ∷ cs) tp = step c tp >>= λ u. collect (delivered c tp) (trace cs u)

concat-drop_empty : (bs : List (List ℕ)) → concat (drop_empty bs) ≡ concat bs
unfolding drop_empty
concat-drop_empty [] = refl
concat-drop_empty ([] ∷ bs) = concat-drop_empty bs
concat-drop_empty ((x ∷ b) ∷ bs) = refl

-- net.Buffers.Read splits the bytes of the buffers in two.
pub read_buffers-concat :
    (k : ℕ) (bs : List (List ℕ)) → (read_buffers k bs).0 ++ concat (read_buffers k bs).1 ≡ concat bs
unfolding read_buffers
read_buffers-concat k [] = refl
read_buffers-concat k (b ∷ bs) =
    let (p, rest) = read_buffers (k - length b) bs in
    ground (
      arith,
      read_buffers-concat (k - length b) bs,
      concat-drop_empty rest,
      append_assoc b p (concat (drop_empty rest)),
      append_assoc (take k b) (drop k b) (concat bs),
      take-append-drop k b,
    )

buf-acknowledge : (p : List ℕ) (tp : Transport) → (acknowledge p tp).buf ≡ tp.buf
unfolding acknowledge
buf-acknowledge p tp = ground arith

pub buf-release_acks : (n : ℕ) (tp : Transport) → (release_acks n tp).buf ≡ tp.buf
unfolding release_acks
buf-release_acks n tp = ground arith

-- One step: what is delivered and what stays buffered are what was buffered and what came in.
effect-concat :
    (c : Call) (tp : Transport)
    → delivered c tp ++ concat (effect c tp).buf ≡ concat tp.buf ++ payload c
unfolding delivered effect payload frame_effect add_payload take_bytes
effect-concat (receives_frame []) tp = sym (append-nil (concat tp.buf))
effect-concat (receives_frame (t ∷ f)) tp = ground (
  arith,
  buf-acknowledge (drop 4 f) tp,
  concat-append tp.buf (drop 2 (drop 4 f) ∷ []),
  append-nil (drop 2 (drop 4 f)),
  append-nil (concat tp.buf),
)
effect-concat (reads k) tp =
    let (p, bs) = read_buffers k tp.buf in
    cc (
      buf-release_acks (length p) (record tp { buf = bs }),
      read_buffers-concat k tp.buf,
      append-nil (concat tp.buf),
    )
effect-concat _ tp = sym (append-nil (concat tp.buf))

collect-payloads :
    (out before pay later : List ℕ) (u : Transport) (m : Option (List ℕ × Transport))
    → out ++ concat u.buf ≡ before ++ pay
    → Holds (λ r. r.0 ++ concat r.1.buf ≡ concat u.buf ++ later) m
    → Holds (λ r. r.0 ++ concat r.1.buf ≡ before ++ (pay ++ later)) (collect out m)
unfolding collect
collect-payloads out before pay later u none e h = h
collect-payloads out before pay later u (some (rest, w)) e h = cc (
  append_assoc out rest (concat w.buf),
  append_assoc out (concat u.buf) later,
  append_assoc before pay later,
)

-- What a run has delivered, with what it leaves in the buffers, is what was in them at the start
-- and the payloads that came in: no byte is lost, doubled or moved, whatever the sizes of the reads
-- and whatever else happens to the transport, closing it included.
pub trace-payloads :
    (cs : List Call) (tp : Transport)
    → AllWhole cs
    → Inv tp
    → Holds (λ r. r.0 ++ concat r.1.buf ≡ concat tp.buf ++ payloads cs) (trace cs tp)
unfolding trace payloads
trace-payloads [] tp h v = sym (append-nil (concat tp.buf))
trace-payloads (c ∷ cs) tp h v =
    Holds-bind (Kept (effect c tp))
      (λ r. r.0 ++ concat r.1.buf ≡ concat tp.buf ++ payloads (c ∷ cs)) (step c tp)
      (λ u. collect (delivered c tp) (trace cs u)) (step-Kept c tp h.0 v)
      (λ u k.
        collect-payloads (delivered c tp) (concat tp.buf) (payload c) (payloads cs) u (trace cs u)
          (rw k.buf (effect-concat c tp)) (trace-payloads cs u h.1 k.inv))
