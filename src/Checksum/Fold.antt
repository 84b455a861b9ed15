-- ===== src/Checksum/Fold.antt =====
-- The two folds and the complement of `checksum` against one's complement arithmetic.
use c_network_tools.Base.{ℕ, ◌+◌, ◌-◌, ◌%◌, ◌^◌, ◌<◌, ◌≡◌, arith, ◌==◌, if◌then◌else◌}
use c_network_tools.Checksum.{finish}

-- The sum of 16-bit words with end-around carry, of words whose plain sum is `n`.
abbrev pub ones_sum : ℕ → ℕ
ones_sum n = if n == 0 then 0 else (n - 1) % 65535 + 1

-- The folds give the one's complement sum, and the result is its complement.
pub finish-ones_sum : (n : ℕ) → n < 2 ^ 32 → finish n ≡ 65535 - ones_sum n
unfolding finish
finish-ones_sum n h = ground arith

-- A sum that is completed by its own checksum has the checksum 0.
pub ones_sum_completed : (n : ℕ) → ones_sum (n + (65535 - ones_sum n)) ≡ 65535
ones_sum_completed n = ground arith
