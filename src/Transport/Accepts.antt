-- ===== src/Transport/Accepts.antt =====
-- transport.go: the ACCEPT of the responding side, as the initiating side reads it.
use mathlib.Core.Path.{subst}
use dmsg.Prelude.{
  ℕ, ◌<◌, ◌≡◌, true, Option, none, some, List, length, arith, bytes_beq_refl, u16_mod, Result, ok,
  err, err_accept_check_failed, ap, sym, ◌∙◌, Option-cases, Bool-cases, inl, inr, bytes_beq_sound,
  Error, ok, err,
}
use dmsg.Frame.{
  pk_len, make_frame, accept_type, combine_pks, split_pks, is_initiator_id, disassemble,
}
use dmsg.Frame.Codec.{disassemble-make_frame}
use dmsg.Frame.Keys.{split_pks-combine_pks, split_pks_sound}
use dmsg.Transport.{Transport, ◌>>=◌, close_with_frame}
use dmsg.Transport.Handshake.{
  accept_frame, accept_ok, check_accept, fail_with_frame, receives, read_accept,
}

-- The ACCEPT frame of a transport, with the id changed on the way, is what the transport at the
-- other end waits for: ReadAccept takes it, if each end names the other's key as its remote one,
-- and the initiator's id is an initiator's.
pub read_accept-accept_frame :
    (responder initiator : Transport)
    → responder.remote.pk ≡ initiator.local.pk
    → responder.local.pk ≡ initiator.remote.pk
    → length initiator.local.pk ≡ pk_len
    → length initiator.remote.pk ≡ pk_len
    → initiator.id < u16_mod
    → responder.id < u16_mod
    → is_initiator_id initiator.id ≡ true
    → let p = combine_pks initiator.local.pk initiator.remote.pk in
      (disassemble (accept_frame responder) ≡ some (accept_type, responder.id, p))
      × (read_accept (receives (make_frame accept_type initiator.id p)) initiator
          ≡ some (ok tt, initiator))
unfolding read_accept check_accept accept_frame accept_ok
read_accept-accept_frame responder initiator e f h k word word' init =
    let p = combine_pks initiator.local.pk initiator.remote.pk in
    (
      subst
          (λ q.
            disassemble (make_frame accept_type responder.id q)
            ≡ some (accept_type, responder.id, p))
          (sym (
            ap (λ a. combine_pks a responder.local.pk) e
            ∙ ap (λ b. combine_pks initiator.local.pk b) f))
          (disassemble-make_frame accept_type responder.id p word'),
      ground (
        arith,
        disassemble-make_frame accept_type initiator.id p word,
        split_pks-combine_pks initiator.local.pk initiator.remote.pk h k,
        bytes_beq_refl initiator.local.pk,
        bytes_beq_refl initiator.remote.pk,
      ),
    )

fail_with_frame_err : (f : Error) (tp t : Transport) → fail_with_frame f tp ≡ some (ok tt, t) → ⊥
unfolding fail_with_frame
fail_with_frame_err f tp t e = go (close_with_frame tp) e
  where
    go :
        (m : Option Transport)
        → ◌>>=◌ {B = Result (Unit {0}) × Transport} m (λ tp'. some (err f, tp')) ≡ some (ok tt, t)
        → ⊥
    go none e = ground arith
    go (some u) e = ground arith

accept_ok_sound :
    (tp : Transport) (id : ℕ) (p : List ℕ)
    → accept_ok tp id (split_pks p) ≡ true
    → (p ≡ combine_pks tp.local.pk tp.remote.pk) × (is_initiator_id id ≡ true)
unfolding accept_ok
accept_ok_sound tp id p e = elim (Option-cases (split_pks p)) [
  | inl h ↦ absurd (ground (arith, h))
  | inr ((init, resp), h) ↦ ground (
    arith,
    h,
    split_pks_sound p init resp h,
    bytes_beq_sound init tp.local.pk,
    bytes_beq_sound resp tp.remote.pk,
  )
]

-- An ACCEPT frame that ReadAccept takes names the transport's own two keys, in their order, under an
-- initiator's id; whoever forges another one is refused.
pub read_accept_sound :
    (id : ℕ) (p : List ℕ) (tp t : Transport)
    → id < u16_mod
    → read_accept (receives (make_frame accept_type id p)) tp ≡ some (ok tt, t)
    → (p ≡ combine_pks tp.local.pk tp.remote.pk) × (is_initiator_id id ≡ true) × (t ≡ tp)
unfolding read_accept check_accept
read_accept_sound id p tp t word e =
    let parts = disassemble-make_frame accept_type id p word in
    elim (Bool-cases (accept_ok tp id (split_pks p))) [
      | inl h ↦ let (keys, init) = accept_ok_sound tp id p h in (keys, init, ground (arith, parts))
      | inr h ↦ absurd (fail_with_frame_err err_accept_check_failed tp t (ground (arith, parts)))
    ]
