-- ===== src/Base/Word.antt =====
-- u64 arithmetic: `+` and `-` wrap (the release profile), `saturating_add` and
-- `saturating_sub` stop at the ends.
use Prim.Native.Nat.{ℕ, ◌+◌, ◌-◌, ◌%◌, ◌≤◌, ◌<◌, min}
use mathlib.Core.Path.{◌≡◌}
use native.Mathlib.Omega.{arith}

abbrev pub u64_mod : ℕ
u64_mod = 18446744073709551616

abbrev pub u64_max : ℕ
u64_max = 18446744073709551615

unfoldable pub add64 : ℕ → ℕ → ℕ
add64 a b = (a + b) % u64_mod

unfoldable pub sub64 : ℕ → ℕ → ℕ
sub64 a b = (a + u64_mod - b) % u64_mod

unfoldable pub sat_add64 : ℕ → ℕ → ℕ
sat_add64 a b = min (a + b) u64_max

pub add64_exact : (a b : ℕ) → a + b < u64_mod → add64 a b ≡ a + b
unfolding add64
add64_exact a b h = omega arith

pub sub64_exact : (a b : ℕ) → b ≤ a → a < u64_mod → sub64 a b ≡ a - b
unfolding sub64
sub64_exact a b h k = omega arith

pub sat_add64_exact : (a b : ℕ) → a + b < u64_mod → sat_add64 a b ≡ a + b
unfolding sat_add64
sat_add64_exact a b h = omega arith

pub sat_add64-le : (a b : ℕ) → sat_add64 a b ≤ a + b
unfolding sat_add64
sat_add64-le a b = omega arith
