-- ===== src/Prelude/Words.antt =====
-- Machine words: `size_t` is 64 bits wide and `int` 32. An `int` stands as its bit pattern where
-- the code converts it to or from `size_t`.
use Prim.Native.Nat.{ℕ, ◌+◌, ◌-◌, ◌%◌, ◌<◌}
use mathlib.Core.Path.{◌≡◌}
use native.Mathlib.Omega.{arith}
use co_usb.Prelude.Tests.{ltb, if◌then◌else◌}

abbrev pub size_mod : ℕ
size_mod = 18446744073709551616

abbrev pub int_mod : ℕ
int_mod = 4294967296

abbrev pub int_half : ℕ
int_half = 2147483648

-- `a += b`, `a++` and `a--` on a `size_t`.
unfoldable pub add_size : ℕ → ℕ → ℕ
add_size a b = (a + b) % size_mod

unfoldable pub inc_size : ℕ → ℕ
inc_size a = (a + 1) % size_mod

unfoldable pub dec_size : ℕ → ℕ
dec_size a = (a + size_mod - 1) % size_mod

-- A `size_t` stored in an `int`, and an `int` added to a `size_t` (sign-extended).
unfoldable pub int_of_size : ℕ → ℕ
int_of_size n = n % int_mod

unfoldable pub size_of_int : ℕ → ℕ
size_of_int n = if ltb n int_half then n else n + (size_mod - int_mod)

pub add_size_lt : (a b : ℕ) → a + b < size_mod → add_size a b ≡ a + b
unfolding add_size
add_size_lt a b h = omega arith

pub inc_size_lt : (a : ℕ) → a + 1 < size_mod → inc_size a ≡ a + 1
unfolding inc_size
inc_size_lt a h = omega arith

pub dec_size_pos : (a : ℕ) → 0 < a → a < size_mod → dec_size a + 1 ≡ a
unfolding dec_size
dec_size_pos a h b = omega arith

pub size_of_int_lt : (n : ℕ) → n < int_half → size_of_int n ≡ n
unfolding size_of_int
size_of_int_lt n h = ground arith

pub int_of_size_lt : (n : ℕ) → n < int_mod → int_of_size n ≡ n
unfolding int_of_size
int_of_size_lt n h = omega arith
