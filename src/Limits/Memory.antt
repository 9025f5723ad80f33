-- ===== src/Limits/Memory.antt =====
-- Sizes of memory in bytes and in megabytes.
use joblet.Prelude.{ℕ, ◌*◌, ◌^◌, ◌<◌, ◌≡◌, refl, arith, ok}
use joblet.Prelude.Int.{pos}
use joblet.Limits.{to_int, new_memory_size_from_mb, megabytes}

-- A size given in megabytes, as an int32 that is not negative, fits into 64 bits, and Megabytes gives it
-- back.
pub megabytes-new_memory_size_from_mb :
    (n : ℕ)
    → n < 2 ^ 31
    → (b : ℕ) × (new_memory_size_from_mb (pos n) ≡ ok (pos b))
      × (b ≡ n * 1048576)
      × (megabytes (pos b) ≡ pos n)
unfolding new_memory_size_from_mb megabytes to_int
megabytes-new_memory_size_from_mb n h = (n * 1048576, ground arith, refl, ground arith)
