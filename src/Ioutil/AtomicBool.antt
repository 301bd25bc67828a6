-- ===== src/Ioutil/AtomicBool.antt =====
-- ioutil/atomic_bool.go. The flag is an int32; calls do not overlap.
use dmsg.Prelude.{ℕ, ◌≡◌, Bool, true, false, arith, ◌==◌, if◌then◌else◌}

pub record AtomicBool : Type 0 where
  pub flag : ℕ

-- atomic.CompareAndSwapInt32 on the flag.
unfoldable pub compare_and_swap : AtomicBool → ℕ → ℕ → AtomicBool × Bool
compare_and_swap b old new = if b.flag == old then (record b { flag = new }, true) else (b, false)

-- The old value passed to the swap is the flag as it has just been read.
unfoldable pub set : AtomicBool → Bool → AtomicBool × Bool
unfolding compare_and_swap
set b v = compare_and_swap b b.flag (if v then 1 else 0)

unfoldable pub get : AtomicBool → Bool
get b = b.flag == 1

-- Set stores the value that Get then reads, and returns true whatever the value was before.
get-set : (b : AtomicBool) (v : Bool) → (get (set b v).0 ≡ v) × ((set b v).1 ≡ true)
unfolding get set
get-set b v = ground arith
