-- ===== src/Common/Words.antt =====
-- Machine words: `uint32` arithmetic keeps its wrap-around.
use Prim.Native.Nat.{ℕ, ◌-◌, ◌%◌, ◌^◌}

abbrev pub u8 : ℕ → ℕ
u8 n = n % 2 ^ 8

abbrev pub u32 : ℕ → ℕ
u32 n = n % 2 ^ 32

-- the `-1` of a function that returns `uint32`
abbrev pub minus_one : ℕ
minus_one = 2 ^ 32 - 1
