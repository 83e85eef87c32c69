-- ===== src/Common/Bits.antt =====
-- Bit operations on bytes: laws checked over all values.
use Prim.Native.Nat.{ℕ, zero, suc, ◌-◌, ◌/◌, ◌%◌, ◌^◌, ◌<◌, bit_and, bit_or}
use mathlib.Core.Path.{◌≡◌, refl}
use mathlib.Core.Bool.{Bool, true, ◌&&◌}
use native.Mathlib.Omega.{arith}
use gogoos.Common.Tests.{◌==◌, ==_iff, ltb, if◌then◌else◌}

-- A test that every number below a bound passes, which is run.
unfoldable pub all_below : ℕ → (ℕ → Bool) → Bool
all_below zero test = true
all_below (suc top) test = all_below top test && test top

pub all_below_sound :
    (bound : ℕ) (test : ℕ → Bool) (i : ℕ) → all_below bound test ≡ true → i < bound → test i ≡ true
unfolding all_below
all_below_sound zero test i passed below = elim below [ ]
all_below_sound (suc top) test i passed below = ground (all_below_sound top test i, arith)

-- bit `k` of a number: `(b >> k) & 0x1`
abbrev pub bit : ℕ → ℕ → ℕ
bit b k = b / 2 ^ k % 2

-- `b | (uint8) (0x1 << i)`
abbrev pub set_bit : ℕ → ℕ → ℕ
set_bit b i = bit_or b (2 ^ i)

-- `b & (uint8) ~(0x1 << i)`
abbrev pub clear_bit : ℕ → ℕ → ℕ
clear_bit b i = bit_and b (255 - 2 ^ i)

abbrev for_bytes : (ℕ → ℕ → ℕ → Bool) → Bool
for_bytes p = all_below 256 λ b. all_below 8 λ i. all_below 8 λ k. p b i k

for_bytes_sound :
    (p : ℕ → ℕ → ℕ → Bool) (b i k : ℕ)
    → for_bytes p ≡ true
    → b < 256
    → i < 8
    → k < 8
    → p b i k ≡ true
for_bytes_sound p b i k h hb hi hk =
    all_below_sound 8 (p b i) k
      (all_below_sound 8 (λ j. all_below 8 (p b j)) i
        (all_below_sound 256 (λ c. all_below 8 λ j. all_below 8 (p c j)) b h hb) hi)
      hk

set_bit_table : for_bytes (λ b i k. bit (set_bit b i) k == (if i == k then 1 else bit b k)) ≡ true
unfolding all_below
set_bit_table = refl

clear_bit_table :
    for_bytes (λ b i k. bit (clear_bit b i) k == (if i == k then 0 else bit b k)) ≡ true
unfolding all_below
clear_bit_table = refl

bound_table : for_bytes (λ b i k. ltb (set_bit b i) 256 && ltb (clear_bit b i) 256) ≡ true
unfolding all_below
bound_table = refl

module _ (b i k : ℕ) (hb : b < 256) (hi : i < 8) (hk : k < 8) where
  pub bit-set_bit : bit (set_bit b i) k ≡ (if i == k then 1 else bit b k)
  bit-set_bit = (==_iff _ _).0 (for_bytes_sound _ b i k set_bit_table hb hi hk)

  pub bit-clear_bit : bit (clear_bit b i) k ≡ (if i == k then 0 else bit b k)
  bit-clear_bit = (==_iff _ _).0 (for_bytes_sound _ b i k clear_bit_table hb hi hk)

bound_lem : (b i : ℕ) → b < 256 → i < 8 → (ltb (set_bit b i) 256 && ltb (clear_bit b i) 256) ≡ true
bound_lem b i hb hi =
    for_bytes_sound (λ b i k. ltb (set_bit b i) 256 && ltb (clear_bit b i) 256) b i 0 bound_table hb
      hi (omega arith)

pub set_bit_lt : (b i : ℕ) → b < 256 → i < 8 → set_bit b i < 256
set_bit_lt b i hb hi = ground (arith, bound_lem b i hb hi)

pub clear_bit_lt : (b i : ℕ) → b < 256 → i < 8 → clear_bit b i < 256
clear_bit_lt b i hb hi = ground (arith, bound_lem b i hb hi)
