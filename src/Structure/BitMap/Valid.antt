-- ===== src/Structure/BitMap/Valid.antt =====
-- Well-formed bit maps, and what `bitMapTest` and `bitMapSet` do to their bits.
use gogoos.Common.{
  ℕ, zero, suc, ◌*◌, ◌/◌, ◌%◌, ◌^◌, ◌<◌, ◌≤◌, ◌≡◌, refl, Bool, true, false, some, List, [], ◌∷◌,
  arith, leb, zeros, ◌==◌, if◌then◌else◌, length, get_or, set, length-set, get_elem?-get_or,
}
use gogoos.Common.Bits.{
  bit, set_bit, clear_bit, bit-set_bit, bit-clear_bit, set_bit_lt, clear_bit_lt,
}
use gogoos.Structure.BitMap.{BitMap, bit_map_test, bit_map_set}

-- bit `i` of the memory: 1 is in use, 0 is free
abbrev pub bit_at : List ℕ → ℕ → ℕ
bit_at bytes i = bit (get_or bytes (i / 8) 0) (i % 8)

abbrev pub AllBytes : List ℕ → Type 0
AllBytes [] = Unit
AllBytes (b ∷ bs) = (b < 256) × AllBytes bs

pub zeros-AllBytes : (n : ℕ) → AllBytes (zeros n)
zeros-AllBytes zero = tt
zeros-AllBytes (suc n) = (omega arith, zeros-AllBytes n)

-- The map lies inside its memory, which holds bytes, and its bits have `uint32` indices.
pub record IsValid (bm : BitMap) : Type 0 where
  pub inside : bm.size ≤ length bm.bytes
  pub small : bm.size * 8 < 2 ^ 32
  pub bytes_lt : AllBytes bm.bytes

pub get_or_lt : (bs : List ℕ) (i : ℕ) → AllBytes bs → get_or bs i 0 < 256
get_or_lt [] i h = omega arith
get_or_lt (b ∷ bs) zero h = h.0
get_or_lt (b ∷ bs) (suc i) h = get_or_lt bs i h.1

pub get_or-set :
    (bs : List ℕ) (i j v : ℕ)
    → i < length bs
    → get_or (set bs i v) j 0 ≡ (if i == j then v else get_or bs j 0)
get_or-set [] i j v h = elim h [ ]
get_or-set (b ∷ bs) zero zero v h = refl
get_or-set (b ∷ bs) zero (suc j) v h = ground arith
get_or-set (b ∷ bs) (suc i) zero v h = ground arith
get_or-set (b ∷ bs) (suc i) (suc j) v h = ground (arith, get_or-set bs i j v)

AllBytes-set : (bs : List ℕ) (i v : ℕ) → AllBytes bs → v < 256 → AllBytes (set bs i v)
AllBytes-set [] i v h hv = h
AllBytes-set (b ∷ bs) zero v h hv = (hv, h.1)
AllBytes-set (b ∷ bs) (suc i) v h hv = (h.0, AllBytes-set bs i v h.1 hv)

-- `bitMapTest` reads the bit, and answers 0 behind the map.
pub bit_map_test_lem :
    (bm : BitMap) (i : ℕ)
    → IsValid bm
    → bit_map_test bm i ≡ some (if leb (bm.size * 8) i then 0 else bit_at bm.bytes i)
unfolding bit_map_test
bit_map_test_lem bm i v = ground (arith, get_elem?-get_or bm.bytes (i / 8) 0)

pub bit_map_test-in :
    (bm : BitMap) (i : ℕ)
    → IsValid bm
    → i < bm.size * 8
    → bit_map_test bm i ≡ some (bit_at bm.bytes i)
bit_map_test-in bm i v h = ground (arith, bit_map_test_lem bm i v)

abbrev pub write_bit : ℕ → ℕ → Bool → ℕ
write_bit b k val = if val then set_bit b k else clear_bit b k

-- what `bitMapSet` leaves of a valid map
abbrev pub updated : BitMap → ℕ → Bool → BitMap
updated bm i val = record bm {
  bytes = set bm.bytes (i / 8) (write_bit (get_or bm.bytes (i / 8) 0) (i % 8) val);
}

pub bit_map_set_lem :
    (bm : BitMap) (i : ℕ) (val : Bool)
    → IsValid bm
    → i < bm.size * 8
    → bit_map_set bm i val ≡ some (updated bm i val)
unfolding bit_map_set
bit_map_set_lem bm i val v h = ground (arith, get_elem?-get_or bm.bytes (i / 8) 0)

write_bit_lt : (b k : ℕ) (val : Bool) → b < 256 → k < 8 → write_bit b k val < 256
write_bit_lt b k true hb hk = set_bit_lt b k hb hk
write_bit_lt b k false hb hk = clear_bit_lt b k hb hk

abbrev pub bit_of : Bool → ℕ
bit_of val = if val then 1 else 0

bit-write_bit :
    (b i k : ℕ) (val : Bool)
    → b < 256
    → i < 8
    → k < 8
    → bit (write_bit b i val) k ≡ (if i == k then bit_of val else bit b k)
bit-write_bit b i k true hb hi hk = bit-set_bit b i k hb hi hk
bit-write_bit b i k false hb hi hk = bit-clear_bit b i k hb hi hk

pub updated-IsValid : (bm : BitMap) (i : ℕ) (val : Bool) → IsValid bm → IsValid (updated bm i val)
updated-IsValid bm i val v = record {
  inside = omega (
    arith,
    length-set bm.bytes (i / 8) (write_bit (get_or bm.bytes (i / 8) 0) (i % 8) val),
    v.inside,
  );
  small = v.small;
  bytes_lt =
      AllBytes-set bm.bytes (i / 8) _ v.bytes_lt
        (write_bit_lt _ (i % 8) val (get_or_lt bm.bytes (i / 8) v.bytes_lt) (omega arith));
}

-- The written bit has the value, and every other bit is as before.
pub bit_at-updated :
    (bm : BitMap) (i : ℕ) (val : Bool) (j : ℕ)
    → IsValid bm
    → i < bm.size * 8
    → bit_at (updated bm i val).bytes j ≡ (if i == j then bit_of val else bit_at bm.bytes j)
bit_at-updated bm i val j v h = ground (
  arith,
  get_or-set bm.bytes (i / 8) (j / 8) (write_bit (get_or bm.bytes (i / 8) 0) (i % 8) val)
      (omega (arith, v.inside)),
  bit-write_bit (get_or bm.bytes (i / 8) 0) (i % 8) (j % 8) val
      (get_or_lt bm.bytes (i / 8) v.bytes_lt) (omega arith) (omega arith),
)
