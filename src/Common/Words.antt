-- ===== src/Common/Words.antt =====
-- Arithmetic of `std::size_t` and `std::uint64_t`, with its wrap-around written out.
use Prim.Native.Nat.{ℕ, ◌+◌, ◌-◌, ◌%◌, ◌^◌, ◌≤◌, ◌<◌}
use mathlib.Core.Path.{◌≡◌}
use native.Mathlib.Omega.{arith}

abbrev pub size_max : ℕ
size_max = 2 ^ 64 - 1

abbrev pub IsSize : ℕ → Type 0
IsSize n = n < 2 ^ 64

abbrev pub add_size : ℕ → ℕ → ℕ
add_size a b = (a + b) % 2 ^ 64

-- `-` on ℕ stops at 0, so the modulus is added first.
abbrev pub sub_size : ℕ → ℕ → ℕ
sub_size a b = (a + 2 ^ 64 - b) % 2 ^ 64

pub add_size_of_lt : (a b : ℕ) → IsSize (a + b) → add_size a b ≡ a + b
add_size_of_lt a b h = omega arith

pub sub_size_of_le : (a b : ℕ) → IsSize a → b ≤ a → sub_size a b ≡ a - b
sub_size_of_le a b h k = omega arith
