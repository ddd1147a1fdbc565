-- ===== src/Base/Words.antt =====
-- The 64-bit words of the platform, as numbers below 2 ^ 64.
use Prim.Native.Nat.{ℕ, ◌+◌, ◌-◌, ◌%◌}
use atomic_ptr_plus.Base.Tests.{ltb, if◌then◌else◌}

-- The values of a `long` are its 64-bit patterns.
abbrev pub word : ℕ
word = 18446744073709551616

abbrev pub add_word : ℕ → ℕ → ℕ
add_word a b = (a + b) % word

abbrev pub sub_word : ℕ → ℕ → ℕ
sub_word a b = (a + (word - b % word)) % word

-- The conversion of a `long` to an `int`, and back.
unfoldable pub to_int : ℕ → ℕ
to_int a = let low = a % 4294967296 in if ltb low 2147483648 then low else low + (word - 4294967296)
