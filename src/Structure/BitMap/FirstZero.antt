-- ===== src/Structure/BitMap/FirstZero.antt =====
-- The first two loops of `bitMapScan` find the first free bit.
use gogoos.Common.{
  ℕ, zero, suc, ◌+◌, ◌-◌, ◌*◌, ◌/◌, ◌%◌, ◌<◌, ◌≤◌, ◌≡◌, ◌≢◌, ◌⊎◌, inl, inr, refl, Bool, true, false,
  ◌&&◌, Option, none, some, List, [], ◌∷◌, arith, ltb, ◌==◌, length, get_or, Bool-cases, ==_iff,
  dec_lt,
}
use gogoos.Common.Bits.{bit, all_below, all_below_sound}
use gogoos.Structure.BitMap.{BitMap, skip_full, zero_bit}
use gogoos.Structure.BitMap.Valid.{bit_at}

-- The first loop may end: a byte behind the map can be read, or a byte of the map is not 0xff.
abbrev pub Readable : List ℕ → ℕ → Type 0
Readable bytes size = (size < length bytes) ⊎ ((k : ℕ) × (k < size) × (get_or bytes k 0 ≢ 255))

pub record Skipped (rest : List ℕ) (size idx j : ℕ) : Type 0 where
  pub past : idx ≤ j
  pub upto : j ≤ size
  pub full : (k : ℕ) → idx + k < j → get_or rest k 0 ≡ 255
  pub stop : (j ≡ size) ⊎ (get_or rest (j - idx) 0 ≢ 255)

abbrev pub Ends : List ℕ → ℕ → ℕ → Type 0
Ends rest size idx =
    (size < idx + length rest)
    ⊎ ((k : ℕ) × (idx + k < size) × (k < length rest) × (get_or rest k 0 ≢ 255))

Ends-tail :
    (b : ℕ) (rest : List ℕ) (size idx : ℕ)
    → b ≡ 255
    → Ends (b ∷ rest) size idx
    → Ends rest size (idx + 1)
Ends-tail b rest size idx e (inl h) = inl (omega arith)
Ends-tail b rest size idx e (inr (zero, lt, lk, ne)) = absurd (ne e)
Ends-tail b rest size idx e (inr (suc k, lt, lk, ne)) = inr (k, omega arith, omega arith, ne)

Skipped-cons :
    (b : ℕ) (rest : List ℕ) (size idx j : ℕ)
    → b ≡ 255
    → Skipped rest size (idx + 1) j
    → Skipped (b ∷ rest) size idx j
Skipped-cons b rest size idx j e s = record {
  past = omega (arith, s.past);
  upto = s.upto;
  full = full';
  stop = elim s.stop [
    | inl q ↦ inl q
    | inr q ↦ inr (let i : j - idx ≡ suc (j - (idx + 1)) = omega (arith, s.past) in rw i q)
  ];
}
  where
    full' : (k : ℕ) → idx + k < j → get_or (b ∷ rest) k 0 ≡ 255
    full' zero h = e
    full' (suc k) h = s.full k (omega arith)

pub skip_full-Skipped :
    (rest : List ℕ) (size idx : ℕ)
    → idx ≤ size
    → Ends rest size idx
    → (j : ℕ) × (skip_full rest size idx ≡ some j) × Skipped rest size idx j
unfolding skip_full
skip_full-Skipped [] size idx h (inl e) = absurd (omega arith)
skip_full-Skipped [] size idx h (inr (k, lt, lk, ne)) = elim lk [ ]
skip_full-Skipped (b ∷ rest) size idx h e = elim (Bool-cases (b == 0xff && ltb idx size)) [
  | inl go ↦
      let full : b ≡ 255 = ground arith in
      let (j, found, s) =
        skip_full-Skipped rest size (idx + 1) (ground arith) (Ends-tail b rest size idx full e) in
      (j, rw go found, Skipped-cons b rest size idx j full s)
  | inr stop ↦ (
    idx,
    rw stop refl,
    record {
      past = omega arith;
      upto = h;
      full = λ k q. absurd (omega arith);
      stop = let z : idx - idx ≡ 0 = omega arith in rw z (ground arith);
    },
  )
]

test_zero : ℕ → Option ℕ → Bool
test_zero b none = false
test_zero b (some k) = ltb k 8 && bit b k == 0 && all_below k (λ j. bit b j == 1)

zero_ok : ℕ → Bool
unfolding test_zero
zero_ok b = test_zero b (zero_bit 9 b 0)

zero_table : all_below 255 zero_ok ≡ true
unfolding all_below zero_ok zero_bit
zero_table = refl

full_table : all_below 8 (λ j. bit 255 j == 1) ≡ true
unfolding all_below
full_table = refl

pub record ZeroAt (b k : ℕ) : Type 0 where
  pub lt : k < 8
  pub clear : bit b k ≡ 0
  pub below : (j : ℕ) → j < k → bit b j ≡ 1

test_zero-ZeroAt :
    (b : ℕ) (o : Option ℕ) → test_zero b o ≡ true → (k : ℕ) × (o ≡ some k) × ZeroAt b k
unfolding test_zero
test_zero-ZeroAt b none h = cc
test_zero-ZeroAt b (some k) h = (
  k,
  refl,
  record {
    lt = ground arith;
    clear = ground arith;
    below = λ j q. (==_iff _ _).0 (all_below_sound k (λ i. bit b i == 1) j (ground arith) q);
  },
)

pub zero_bit-ZeroAt : (b : ℕ) → b < 255 → (k : ℕ) × (zero_bit 9 b 0 ≡ some k) × ZeroAt b k
unfolding zero_ok
zero_bit-ZeroAt b h =
    test_zero-ZeroAt b (zero_bit 9 b 0) (all_below_sound 255 zero_ok b zero_table h)

-- Every bit of a full byte is in use.
pub bit-full : (j : ℕ) → j < 8 → bit 255 j ≡ 1
bit-full j h = (==_iff _ _).0 (all_below_sound 8 (λ i. bit 255 i == 1) j full_table h)

-- The bits before bit `start`, which is free, are in use.
pub record IsFirstZero (bm : BitMap) (start : ℕ) : Type 0 where
  pub in_map : start < bm.size * 8
  pub zero : bit_at bm.bytes start ≡ 0
  pub below : (s : ℕ) → s < start → bit_at bm.bytes s ≡ 1

bit_at_split :
    (bytes : List ℕ) (j k : ℕ) → k < 8 → bit_at bytes (8 * j + k) ≡ bit (get_or bytes j 0) k
bit_at_split bytes j k h =
    let q : (8 * j + k) / 8 ≡ j = omega arith in
    let r : (8 * j + k) % 8 ≡ k = omega arith in rw (q, r)

pub first_zero :
    (bm : BitMap) (j k : ℕ)
    → Skipped bm.bytes bm.size 0 j
    → j < bm.size
    → ZeroAt (get_or bm.bytes j 0) k
    → IsFirstZero bm (8 * j + k)
first_zero bm j k sk lt z = record {
  in_map = omega (arith, z.lt);
  zero = rw (bit_at_split bm.bytes j k z.lt) z.clear;
  below = low;
}
  where
    low : (s : ℕ) → s < 8 * j + k → bit_at bm.bytes s ≡ 1
    low s q = elim (dec_lt (s / 8) j) [
      | yes p ↦
          let full : get_or bm.bytes (s / 8) 0 ≡ 255 = sk.full (s / 8) (omega arith) in
          rw full (bit-full (s % 8) (omega arith))
      | no p ↦
          let e : s / 8 ≡ j = omega (arith, z.lt) in rw e (z.below (s % 8) (omega (arith, z.lt)))
    ]

-- When the first loop has gone through the whole map, no bit is free.
pub all_full :
    (bm : BitMap) (s : ℕ)
    → Skipped bm.bytes bm.size 0 bm.size
    → s < bm.size * 8
    → bit_at bm.bytes s ≡ 1
all_full bm s sk h =
    let full : get_or bm.bytes (s / 8) 0 ≡ 255 = sk.full (s / 8) (omega arith) in
    rw full (bit-full (s % 8) (omega arith))
