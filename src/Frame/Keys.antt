-- ===== src/Frame/Keys.antt =====
-- frame.go: ids and the key pair of an ACCEPT frame.
use dmsg.Prelude.{
  ℕ, ◌≡◌, Bool, some, List, [], ◌∷◌, arith, length, length-append, take-append, drop-append,
  take-append-drop, sym, length-take, length-drop, get_uint16,
}
use dmsg.Frame.{PubKey, pk_len, combine_pks, split_pks, is_initiator_id, rand_id}

-- Two keys of 33 bytes come back from the payload that combines them.
pub split_pks-combine_pks :
    (init resp : PubKey)
    → length init ≡ pk_len
    → length resp ≡ pk_len
    → split_pks (combine_pks init resp) ≡ some (init, resp)
unfolding split_pks combine_pks
split_pks-combine_pks init resp h k = ground (
  arith,
  length-append init resp,
  take-append init resp pk_len (sym h),
  drop-append init resp pk_len (sym h),
)

-- The keys that splitPKs takes out of a payload are 33 bytes long each, and their combination is the
-- payload.
pub split_pks_sound :
    (b init resp : List ℕ)
    → split_pks b ≡ some (init, resp)
    → (combine_pks init resp ≡ b) × (length init ≡ pk_len) × (length resp ≡ pk_len)
unfolding split_pks combine_pks
split_pks_sound b init resp e =
    ground (arith, take-append-drop pk_len b, length-take pk_len b, length-drop pk_len b)

-- A random id that randID returns has the parity asked for, which isInitiatorID reads back.
is_initiator_id-rand_id :
    (initiator : Bool) (words : List (List ℕ)) (id : ℕ)
    → rand_id initiator words ≡ some id
    → is_initiator_id id ≡ initiator
unfolding rand_id is_initiator_id
is_initiator_id-rand_id initiator [] id e = cc
is_initiator_id-rand_id initiator (w ∷ ws) id e =
    ground (arith, is_initiator_id-rand_id initiator ws id, get_uint16)
