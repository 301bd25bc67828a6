-- ===== src/Listener/Queue.antt =====
-- listener.go: the bounds of the accept queue.
use dmsg.Prelude.{
  ℕ, ◌≤◌, ◌≡◌, true, false, inl, inr, Bool-cases, some, List, [], ◌∷◌, ◌++◌, length, arith, Result,
  length-append, ltb,
}
use dmsg.Listener.{
  Listener, accept_buffer_size, new_listener, close, front, accept_transport, Introduced,
  refused_closed, refused_full, queued, offer, introduce,
}

-- At most 20 transports wait at a listener, and none at a closed one.
pub record Inv (l : Listener) : Type 0 where
  pub bounded : length l.accept ≤ accept_buffer_size
  pub drained : l.done ≡ true → l.accept ≡ []

pushed-Inv :
    (tp : ℕ) (l : Listener)
    → ltb (length l.accept) accept_buffer_size ≡ true
    → l.done ≡ false
    → Inv (record l { accept = l.accept ++ tp ∷ [] })
pushed-Inv tp l room opened = record {
  bounded = ground (arith, room, length-append l.accept (tp ∷ []));
  drained = λ e. absurd (ground (arith, opened, e));
}

-- IntroduceTransport never sends on a closed channel, and keeps the queue's bounds.
pub introduce_total :
    (tp : ℕ) (l : Listener)
    → (x : Introduced × Listener) × (introduce tp l ≡ some x) × (Inv l → Inv x.1)
unfolding introduce offer
introduce_total tp l = elim (Bool-cases l.done) [
  | inl d ↦ ((refused_closed, l), ground (arith, d), λ v. v)
  | inr d ↦ elim (Bool-cases (ltb (length l.accept) accept_buffer_size)) [
    | inl b ↦ (
      (queued, record l { accept = l.accept ++ tp ∷ [] }),
      ground (arith, d, b),
      (λ v. pushed-Inv tp l b d),
    )
    | inr b ↦ ((refused_full, l), ground (arith, d, b), λ v. v)
  ]
]

-- The other operations keep the bounds, and a new listener has them.
pub new_listener-Inv : (pk : List ℕ) (port : ℕ) → Inv (new_listener pk port)
unfolding new_listener
new_listener-Inv pk port = record {
  bounded = omega arith;
  drained = λ e. absurd (ground (arith, e));
}

pub close-Inv : (l : Listener) → Inv l → Inv (close l).1
unfolding close
close-Inv l v = record {
  bounded = ground (arith, v.bounded);
  drained = λ e. ground (arith, v.drained);
}

pub accept_transport-Inv :
    (l l' : Listener) (r : Result ℕ) → Inv l → accept_transport l ≡ some (r, l') → Inv l'
unfolding accept_transport front
accept_transport-Inv l l' r v e = record {
  bounded = ground (arith, e, v.bounded);
  drained = λ d. ground (arith, e, d, v.drained);
}
