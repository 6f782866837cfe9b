-- ===== src/Base/Words.antt =====
-- 32-bit words as native numbers: the wrap of each operation is written out.
use Prim.Native.Nat.{ℕ, ◌+◌, ◌-◌, ◌%◌, ◌^◌}
use friend_serv.Base.Tests.{ltb, if◌then◌else◌}

abbrev pub add32 : ℕ → ℕ → ℕ
add32 a b = (a + b) % 2 ^ 32

abbrev pub sub32 : ℕ → ℕ → ℕ
sub32 a b = (a + 2 ^ 32 - b) % 2 ^ 32

-- An `int` is its bit pattern; a conversion to `size_t` extends the sign to 64 bits.
abbrev pub size_of_int : ℕ → ℕ
size_of_int w = if ltb w (2 ^ 31) then w else w + 2 ^ 64 - 2 ^ 32
