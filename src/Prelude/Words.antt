-- ===== src/Prelude/Words.antt =====
-- Unsigned 16-bit and 32-bit words and their big-endian bytes (encoding/binary).
use Prim.Native.Nat.{ℕ, ◌+◌, ◌*◌, ◌/◌, ◌%◌, ◌<◌}
use mathlib.Core.Path.{◌≡◌}
use mathlib.Core.List.{List, [], ◌∷◌, ◌++◌}
use mathlib.Core.Option.{Option, none, some}
use native.Mathlib.Omega.{arith}

-- uint16 arithmetic wraps at 2 ^ 16, uint32 at 2 ^ 32, uint64 at 2 ^ 64.
abbrev pub u16_mod : ℕ
u16_mod = 65536

abbrev pub u32_mod : ℕ
u32_mod = 4294967296

abbrev pub u64_mod : ℕ
u64_mod = 18446744073709551616

-- BigEndian.PutUint16 and BigEndian.Uint16; `none` is the panic on too few bytes.
unfoldable pub put_uint16 : ℕ → List ℕ
put_uint16 v = v / 256 % 256 ∷ v % 256 ∷ []

unfoldable pub get_uint16 : List ℕ → Option ℕ
get_uint16 [] = none
get_uint16 (a ∷ []) = none
get_uint16 (a ∷ b ∷ r) = some (a * 256 + b)

-- BigEndian.PutUint32 and BigEndian.Uint32.
unfoldable pub put_uint32 : ℕ → List ℕ
put_uint32 v = v / 16777216 % 256 ∷ v / 65536 % 256 ∷ v / 256 % 256 ∷ v % 256 ∷ []

unfoldable pub get_uint32 : List ℕ → Option ℕ
get_uint32 (a ∷ b ∷ c ∷ d ∷ r) = some (a * 16777216 + b * 65536 + c * 256 + d)
get_uint32 _ = none

pub get-put_uint16 : (v : ℕ) (r : List ℕ) → v < u16_mod → get_uint16 (put_uint16 v ++ r) ≡ some v
unfolding get_uint16 put_uint16
get-put_uint16 v r h = ground arith

pub get-put_uint32 : (v : ℕ) (r : List ℕ) → v < u32_mod → get_uint32 (put_uint32 v ++ r) ≡ some v
unfolding get_uint32 put_uint32
get-put_uint32 v r h = ground arith
