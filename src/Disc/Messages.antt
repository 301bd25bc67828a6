-- ===== src/Disc/Messages.antt =====
-- disc/entry.go: the errors of the discovery, the messages that they travel as, and the way back.
-- A message is its bytes.
use dmsg.Prelude.{
  ℕ, none, some, List, [], ◌∷◌, ◌≡◌, refl, lookup, bytes_eq, bytes_beq, Error, err_key_not_found,
  err_unexpected, err_unauthorized, err_bad_input, err_validation_non_zero_sequence,
  err_validation_nil_ephemerals, err_validation_nil_keys, err_validation_non_nil_ephemerals,
  err_validation_no_signature, err_validation_no_version, err_validation_no_client_or_server,
  err_validation_wrong_sequence, err_validation_wrong_time,
}

-- EntryValidationError.Error
unfoldable pub validation_error : List ℕ → List ℕ
validation_error cause =
    101 ∷ 110 ∷ 116 ∷ 114 ∷ 121 ∷ 32 ∷ 118 ∷ 97 ∷ 108 ∷ 105 ∷ 100 ∷ 97 ∷ 116 ∷ 105 ∷ 111 ∷ 110 ∷ 32
    ∷ 101 ∷ 114 ∷ 114 ∷ 111 ∷ 114 ∷ 58 ∷ 32 ∷ cause

-- The map errReverseMap, its entries in the order of the source: each message in ASCII, and its
-- error.
abbrev pub err_reverse_map : List (List ℕ × Error)
unfolding validation_error
err_reverse_map =
    (
      101 ∷ 110 ∷ 116 ∷ 114 ∷ 121 ∷ 32 ∷ 111 ∷ 102 ∷ 32 ∷ 112 ∷ 117 ∷ 98 ∷ 108 ∷ 105 ∷ 99 ∷ 32 ∷ 107
          ∷ 101 ∷ 121 ∷ 32 ∷ 105 ∷ 115 ∷ 32 ∷ 110 ∷ 111 ∷ 116 ∷ 32 ∷ 102 ∷ 111 ∷ 117 ∷ 110 ∷ 100
          ∷ [],
      err_key_not_found,
    )
    ∷ (
      115 ∷ 111 ∷ 109 ∷ 101 ∷ 116 ∷ 104 ∷ 105 ∷ 110 ∷ 103 ∷ 32 ∷ 117 ∷ 110 ∷ 101 ∷ 120 ∷ 112 ∷ 101
          ∷ 99 ∷ 116 ∷ 101 ∷ 100 ∷ 32 ∷ 104 ∷ 97 ∷ 112 ∷ 112 ∷ 101 ∷ 110 ∷ 101 ∷ 100 ∷ [],
      err_unexpected,
    )
    ∷ (
      105 ∷ 110 ∷ 118 ∷ 97 ∷ 108 ∷ 105 ∷ 100 ∷ 32 ∷ 115 ∷ 105 ∷ 103 ∷ 110 ∷ 97 ∷ 116 ∷ 117 ∷ 114
          ∷ 101 ∷ [],
      err_unauthorized,
    )
    ∷ (
      101 ∷ 114 ∷ 114 ∷ 111 ∷ 114 ∷ 32 ∷ 98 ∷ 97 ∷ 100 ∷ 32 ∷ 105 ∷ 110 ∷ 112 ∷ 117 ∷ 116 ∷ [],
      err_bad_input,
    )
    ∷ (
      validation_error (
          110 ∷ 101 ∷ 119 ∷ 32 ∷ 101 ∷ 110 ∷ 116 ∷ 114 ∷ 121 ∷ 32 ∷ 104 ∷ 97 ∷ 115 ∷ 32 ∷ 110 ∷ 111
          ∷ 110 ∷ 45 ∷ 122 ∷ 101 ∷ 114 ∷ 111 ∷ 32 ∷ 115 ∷ 101 ∷ 113 ∷ 117 ∷ 101 ∷ 110 ∷ 99 ∷ 101
          ∷ []),
      err_validation_non_zero_sequence,
    )
    ∷ (
      validation_error (
          101 ∷ 110 ∷ 116 ∷ 114 ∷ 121 ∷ 32 ∷ 111 ∷ 102 ∷ 32 ∷ 99 ∷ 108 ∷ 105 ∷ 101 ∷ 110 ∷ 116 ∷ 32
          ∷ 105 ∷ 110 ∷ 115 ∷ 116 ∷ 97 ∷ 110 ∷ 99 ∷ 101 ∷ 32 ∷ 104 ∷ 97 ∷ 115 ∷ 32 ∷ 110 ∷ 105 ∷ 108
          ∷ 32 ∷ 101 ∷ 112 ∷ 104 ∷ 101 ∷ 109 ∷ 101 ∷ 114 ∷ 97 ∷ 108 ∷ 32 ∷ 107 ∷ 101 ∷ 121 ∷ 115
          ∷ []),
      err_validation_nil_ephemerals,
    )
    ∷ (
      validation_error (
          101 ∷ 110 ∷ 116 ∷ 114 ∷ 121 ∷ 32 ∷ 75 ∷ 101 ∷ 121 ∷ 115 ∷ 32 ∷ 105 ∷ 115 ∷ 32 ∷ 110 ∷ 105
          ∷ 108 ∷ []),
      err_validation_nil_keys,
    )
    ∷ (
      validation_error (
          101 ∷ 110 ∷ 116 ∷ 114 ∷ 121 ∷ 32 ∷ 111 ∷ 102 ∷ 32 ∷ 115 ∷ 101 ∷ 114 ∷ 118 ∷ 101 ∷ 114 ∷ 32
          ∷ 105 ∷ 110 ∷ 115 ∷ 116 ∷ 97 ∷ 110 ∷ 99 ∷ 101 ∷ 32 ∷ 104 ∷ 97 ∷ 115 ∷ 32 ∷ 110 ∷ 111 ∷ 110
          ∷ 32 ∷ 110 ∷ 105 ∷ 108 ∷ 32 ∷ 75 ∷ 101 ∷ 121 ∷ 115 ∷ 46 ∷ 69 ∷ 112 ∷ 104 ∷ 101 ∷ 109 ∷ 101
          ∷ 114 ∷ 97 ∷ 108 ∷ 115 ∷ 32 ∷ 102 ∷ 105 ∷ 101 ∷ 108 ∷ 100 ∷ []),
      err_validation_non_nil_ephemerals,
    )
    ∷ (
      validation_error (
          101 ∷ 110 ∷ 116 ∷ 114 ∷ 121 ∷ 32 ∷ 104 ∷ 97 ∷ 115 ∷ 32 ∷ 110 ∷ 111 ∷ 32 ∷ 115 ∷ 105 ∷ 103
          ∷ 110 ∷ 97 ∷ 116 ∷ 117 ∷ 114 ∷ 101 ∷ []),
      err_validation_no_signature,
    )
    ∷ (
      validation_error (
          101 ∷ 110 ∷ 116 ∷ 114 ∷ 121 ∷ 32 ∷ 104 ∷ 97 ∷ 115 ∷ 32 ∷ 110 ∷ 111 ∷ 32 ∷ 118 ∷ 101 ∷ 114
          ∷ 115 ∷ 105 ∷ 111 ∷ 110 ∷ []),
      err_validation_no_version,
    )
    ∷ (
      validation_error (
          101 ∷ 110 ∷ 116 ∷ 114 ∷ 121 ∷ 32 ∷ 104 ∷ 97 ∷ 115 ∷ 32 ∷ 110 ∷ 101 ∷ 105 ∷ 116 ∷ 104 ∷ 101
          ∷ 114 ∷ 32 ∷ 99 ∷ 108 ∷ 105 ∷ 101 ∷ 110 ∷ 116 ∷ 32 ∷ 111 ∷ 114 ∷ 32 ∷ 115 ∷ 101 ∷ 114
          ∷ 118 ∷ 101 ∷ 114 ∷ 32 ∷ 102 ∷ 105 ∷ 101 ∷ 108 ∷ 100 ∷ []),
      err_validation_no_client_or_server,
    )
    ∷ (
      validation_error (
          115 ∷ 101 ∷ 113 ∷ 117 ∷ 101 ∷ 110 ∷ 99 ∷ 101 ∷ 32 ∷ 102 ∷ 105 ∷ 101 ∷ 108 ∷ 100 ∷ 32 ∷ 111
          ∷ 102 ∷ 32 ∷ 110 ∷ 101 ∷ 119 ∷ 32 ∷ 101 ∷ 110 ∷ 116 ∷ 114 ∷ 121 ∷ 32 ∷ 105 ∷ 115 ∷ 32
          ∷ 110 ∷ 111 ∷ 116 ∷ 32 ∷ 115 ∷ 101 ∷ 113 ∷ 117 ∷ 101 ∷ 110 ∷ 99 ∷ 101 ∷ 32 ∷ 111 ∷ 102
          ∷ 32 ∷ 111 ∷ 108 ∷ 100 ∷ 32 ∷ 101 ∷ 110 ∷ 116 ∷ 114 ∷ 121 ∷ 32 ∷ 43 ∷ 32 ∷ 49 ∷ []),
      err_validation_wrong_sequence,
    )
    ∷ (
      validation_error (
          112 ∷ 114 ∷ 101 ∷ 118 ∷ 105 ∷ 111 ∷ 117 ∷ 115 ∷ 32 ∷ 101 ∷ 110 ∷ 116 ∷ 114 ∷ 121 ∷ 32
          ∷ 116 ∷ 105 ∷ 109 ∷ 101 ∷ 115 ∷ 116 ∷ 97 ∷ 109 ∷ 112 ∷ 32 ∷ 105 ∷ 115 ∷ 32 ∷ 110 ∷ 111
          ∷ 116 ∷ 32 ∷ 115 ∷ 101 ∷ 116 ∷ 32 ∷ 98 ∷ 101 ∷ 102 ∷ 111 ∷ 114 ∷ 101 ∷ 32 ∷ 99 ∷ 117 ∷ 114
          ∷ 114 ∷ 101 ∷ 110 ∷ 116 ∷ 32 ∷ 101 ∷ 110 ∷ 116 ∷ 114 ∷ 121 ∷ 32 ∷ 116 ∷ 105 ∷ 109 ∷ 101
          ∷ 115 ∷ 116 ∷ 97 ∷ 109 ∷ 112 ∷ []),
      err_validation_wrong_time,
    )
    ∷ []

unfoldable pub err_from_string : List ℕ → Error
err_from_string s = elim (lookup s err_reverse_map) [ none ↦ err_unexpected | some e ↦ e ]

-- The messages and errors at each place of the map.
abbrev pub AllFound : List (List ℕ × Error) → Type 0
AllFound [] = Unit {0}
AllFound ((s, e) ∷ m) = (err_from_string s ≡ e) × AllFound m

-- Each message of the map is read back as the error that it was made from, so no two of them are the
-- same.
err_from_string-err_reverse_map : AllFound err_reverse_map
unfolding err_from_string lookup bytes_beq validation_error
err_from_string-err_reverse_map = (
  refl,
  (
    refl,
    (refl, (refl, (refl, (refl, (refl, (refl, (refl, (refl, (refl, (refl, (refl, tt))))))))))),
  ),
)
