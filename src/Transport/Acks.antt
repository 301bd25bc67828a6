-- ===== src/Transport/Acks.antt =====
-- transport.go: every FWD frame that Serve takes is acknowledged once: its ACK is written, or it is
-- held while the read buffer is full, and held ACKs go out when there is room.
use mathlib.Core.List.{Perm, perm_middle, perm_append_singleton}
use mathlib.Core.List.Perm
use mathlib.Core.Path.{subst}
use dmsg.Prelude.{
  ℕ, ◌⊎◌, ◌≤◌, ◌+◌, ◌-◌, ◌<◌, ◌≡◌, refl, sym, ap, ◌∙◌, List, [], ◌∷◌, ◌++◌, if◌then◌else◌, length,
  take, drop, arith, Bool-cases, ◌==◌, ltb, concat, concat-append, append_assoc, append-nil, map,
  inl, inr, not, ◌&&◌, length-append,
}
use dmsg.Frame.{Frame, make_frame, ack_type}
use dmsg.Transport.{Addr, new_transport, Transport}
use dmsg.Transport.Serving.{acknowledge, add_payload, ack_frame, tp_buf_cap}
use dmsg.Transport.Reading.{read_buffers, release_acks, take_bytes}
use dmsg.Transport.Inv.{Inv, Holds, Holds-bind, total}
use dmsg.Transport.Kept.{Kept}
use dmsg.Transport.Safety.{
  accepts, frame_effect, effect, Call, receives_frame, reads, step, run, AllWhole, step-Kept,
}

-- The ACK that a step owes, under the transport's id.
unfoldable pub owed : ℕ → Call → List Frame
owed id (receives_frame []) = []
owed id (receives_frame (t ∷ f)) =
    if accepts t (drop 4 f) then make_frame ack_type id (take 2 (drop 4 f)) ∷ [] else []
owed id _ = []

unfoldable pub owed_all : ℕ → List Call → List Frame
unfolding owed
owed_all id [] = []
owed_all id (c ∷ cs) = owed id c ++ owed_all id cs

-- The ACKs of `due` are, in some order, those in the writes that were started and those in ackBuf;
-- a write holds one or more of them, one after another.
pub record Ledger (due : List Frame) (tp : Transport) : Type 0 where
  pub groups : List (List Frame)
  pub held : List Frame
  pub written : tp.spawned ≡ map concat groups
  pub kept_back : tp.ack_buf ≡ concat held
  pub none_held : tp.ack_buf ≡ [] → held ≡ []
  pub all_due : Perm (concat groups ++ held) due

-- A step that leaves the ACKs alone leaves the ledger as it is.
Ledger-same :
    (due : List Frame) (tp u : Transport)
    → u.ack_buf ≡ tp.ack_buf
    → u.spawned ≡ tp.spawned
    → Ledger due tp
    → Ledger due u
Ledger-same due tp u a s l = record {
  groups = l.groups;
  held = l.held;
  written = s ∙ l.written;
  kept_back = a ∙ l.kept_back;
  none_held = λ e. l.none_held (sym a ∙ e);
  all_due = l.all_due;
}

perm_spawn :
    (a : Frame) (gs hs due : List Frame)
    → Perm (gs ++ hs) due
    → Perm ((gs ++ (a ∷ [])) ++ hs) (due ++ a ∷ [])
perm_spawn a gs hs due p = rw (append_assoc gs (a ∷ []) hs) (
    Perm.trans (perm_middle gs hs)
      (Perm.trans (Perm.cons a p) (Perm.symm (perm_append_singleton a due))))

perm_hold :
    (a : Frame) (gs hs due : List Frame)
    → Perm (gs ++ hs) due
    → Perm (gs ++ (hs ++ a ∷ [])) (due ++ a ∷ [])
perm_hold a gs hs due p = rw (← append_assoc gs hs (a ∷ [])) (Perm.append_right (a ∷ []) p)

map-concat-snoc :
    (gs : List (List Frame)) (g : List Frame)
    → map concat (gs ++ g ∷ []) ≡ map concat gs ++ concat g ∷ []
map-concat-snoc [] g = refl
map-concat-snoc (x ∷ gs) g = rw (map-concat-snoc gs g)

concat-snoc : (gs : List (List Frame)) (g : List Frame) → concat (gs ++ g ∷ []) ≡ concat gs ++ g
concat-snoc gs g = concat-append gs (g ∷ []) ∙ ap (λ x. concat gs ++ x) (append-nil g)

-- The ACK goes into a write of its own.
spawn-Ledger :
    (due : List Frame) (a : Frame) (tp : Transport)
    → Ledger due tp
    → Ledger (due ++ a ∷ []) (record tp { spawned = tp.spawned ++ a ∷ [] })
spawn-Ledger due a tp l = record {
  groups = l.groups ++ (a ∷ []) ∷ [];
  held = l.held;
  written = cc (l.written, map-concat-snoc l.groups (a ∷ []), append-nil a);
  kept_back = l.kept_back;
  none_held = l.none_held;
  all_due =
      rw (concat-snoc l.groups (a ∷ [])) (perm_spawn a (concat l.groups) l.held due l.all_due);
}

-- The ACK is held.
hold-Ledger :
    (due : List Frame) (a : Frame) (tp : Transport)
    → 0 < length a
    → Ledger due tp
    → Ledger (due ++ a ∷ []) (record tp { ack_buf = tp.ack_buf ++ a })
hold-Ledger due a tp pos l = record {
  groups = l.groups;
  held = l.held ++ a ∷ [];
  written = l.written;
  kept_back = cc (l.kept_back, concat-append l.held (a ∷ []), append-nil a);
  none_held = λ e. absurd (omega (arith, ap length e, length-append tp.ack_buf a));
  all_due = perm_hold a (concat l.groups) l.held due l.all_due;
}

-- The held ACKs go out in one write.
release-Ledger :
    (due : List Frame) (tp : Transport)
    → Ledger due tp
    → Ledger due (record tp { ack_buf = []; spawned = tp.spawned ++ tp.ack_buf ∷ [] })
release-Ledger due tp l = record {
  groups = l.groups ++ l.held ∷ [];
  held = [];
  written = cc (l.written, l.kept_back, map-concat-snoc l.groups l.held);
  kept_back = refl;
  none_held = λ e. refl;
  all_due =
      rw (append-nil (concat (l.groups ++ l.held ∷ [])), concat-snoc l.groups l.held) l.all_due;
}

room_for_all : {tp : Transport} → Inv tp → (tp.ack_buf ≡ []) ⊎ (tp_buf_cap ≤ total tp.buf)
room_for_all v = rw v.size at v.held

module _ (due : List Frame) (p : List ℕ) (tp : Transport) (l : Ledger due tp) where
  ack_frame_pos : 0 < length (ack_frame tp p)
  unfolding ack_frame make_frame
  ack_frame_pos = omega arith

  accepted-Ledger : Ledger (due ++ ack_frame tp p ∷ []) (add_payload p (acknowledge p tp))
  unfolding acknowledge add_payload
  accepted-Ledger = elim (Bool-cases (ltb tp_buf_cap (tp.buf_size + length (drop 2 p)))) [
    | inl full ↦ rw full (
        Ledger-same (due ++ ack_frame tp p ∷ [])
          (record tp { ack_buf = tp.ack_buf ++ ack_frame tp p })
          (record tp {
            buf_size = tp.buf_size + length (drop 2 p);
            ack_buf = tp.ack_buf ++ ack_frame tp p;
            buf = tp.buf ++ drop 2 p ∷ [];
          })
          refl refl (hold-Ledger due (ack_frame tp p) tp ack_frame_pos l))
    | inr room ↦ rw room (
        Ledger-same (due ++ ack_frame tp p ∷ [])
          (record tp { spawned = tp.spawned ++ ack_frame tp p ∷ [] })
          (record tp {
            buf_size = tp.buf_size + length (drop 2 p);
            spawned = tp.spawned ++ ack_frame tp p ∷ [];
            buf = tp.buf ++ drop 2 p ∷ [];
          })
          refl refl (spawn-Ledger due (ack_frame tp p) tp l))
  ]

frame-Ledger :
    (due : List Frame) (t : ℕ) (f : List ℕ) (tp : Transport)
    → Ledger due tp
    → Ledger (due ++ owed tp.id (receives_frame (t ∷ f))) (frame_effect t (drop 4 f) tp)
unfolding owed frame_effect ack_frame
frame-Ledger due t f tp l = elim (Bool-cases (accepts t (drop 4 f))) [
  | inl e ↦ rw e (accepted-Ledger due (drop 4 f) tp l)
  | inr e ↦ rw (e, append-nil due) l
]

reads-Ledger :
    (due : List Frame) (k : ℕ) (tp : Transport) → Ledger due tp → Ledger due (take_bytes k tp).1
unfolding take_bytes release_acks
reads-Ledger due k tp l =
    let (p, bs) = read_buffers k tp.buf in
    let size = tp.buf_size - length p in
    elim (Bool-cases (ltb size tp_buf_cap && not (length tp.ack_buf == 0))) [
      | inl out ↦ rw out (
          Ledger-same due (record tp { ack_buf = []; spawned = tp.spawned ++ tp.ack_buf ∷ [] })
            (record tp {
              buf = bs;
              buf_size = size;
              ack_buf = [];
              spawned = tp.spawned ++ tp.ack_buf ∷ [];
            })
            refl refl (release-Ledger due tp l))
      | inr still ↦
          rw still (Ledger-same due tp (record tp { buf = bs; buf_size = size }) refl refl l)
    ]

effect-Ledger :
    (due : List Frame) (c : Call) (tp : Transport)
    → Ledger due tp
    → Ledger (due ++ owed tp.id c) (effect c tp)
unfolding effect owed
effect-Ledger due (receives_frame []) tp l = rw (append-nil due) l
effect-Ledger due (receives_frame (t ∷ f)) tp l = unfold owed in frame-Ledger due t f tp l
effect-Ledger due (reads k) tp l = rw (append-nil due) (reads-Ledger due k tp l)
effect-Ledger due _ tp l = rw (append-nil due) l

id-effect : (c : Call) (tp : Transport) → (effect c tp).id ≡ tp.id
unfolding effect frame_effect add_payload acknowledge take_bytes release_acks
id-effect (receives_frame []) tp = refl
id-effect (receives_frame (t ∷ f)) tp = ground arith
id-effect (reads k) tp = ground arith
id-effect _ tp = refl

-- A ledger that is balanced stays so in every run: the ACKs written and held are those that were
-- due before the run and those of the FWD frames taken in during it, each once. And none
-- is held, so all have been handed to the connection, or at least 65535 bytes are buffered.
pub run-Ledger :
    (cs : List Call) (due : List Frame) (tp : Transport)
    → AllWhole cs
    → Inv tp
    → Ledger due tp
    → Holds
        (λ u. Ledger (due ++ owed_all tp.id cs) u × ((u.ack_buf ≡ []) ⊎ (tp_buf_cap ≤ total u.buf)))
        (run cs tp)
unfolding run owed_all
run-Ledger [] due tp h v l = (rw (append-nil due) l, room_for_all v)
run-Ledger (c ∷ cs) due tp h v l =
    Holds-bind (Kept (effect c tp))
      (λ u.
        Ledger (due ++ owed_all tp.id (c ∷ cs)) u × ((u.ack_buf ≡ []) ⊎ (tp_buf_cap ≤ total u.buf)))
      (step c tp) (run cs) (step-Kept c tp h.0 v)
      (λ u k.
        let same : u.id ≡ tp.id = k.id ∙ id-effect c tp in
        let next = run-Ledger cs (due ++ owed tp.id c) u h.1 k.inv (
          Ledger-same (due ++ owed tp.id c) (effect c tp) u k.ack_buf k.spawned
            (effect-Ledger due c tp l)) in
        subst
          (λ fs.
            Holds (λ w. Ledger fs w × ((w.ack_buf ≡ []) ⊎ (tp_buf_cap ≤ total w.buf))) (run cs u))
          (ap (λ i. (due ++ owed tp.id c) ++ owed_all i cs) same
            ∙ append_assoc due (owed tp.id c) (owed_all tp.id cs))
          next)

pub new_transport-Ledger :
    (local remote : Addr) (id : ℕ) (seed : List ℕ) → Ledger [] (new_transport local remote id seed)
unfolding new_transport
new_transport-Ledger local remote id seed = record {
  groups = [];
  held = [];
  written = refl;
  kept_back = refl;
  none_held = λ e. refl;
  all_due = Perm.rfl;
}
