-- ===== src/Structure/BitMap.antt =====
-- lib/structure/bitmap.c. A bit map is a length in bytes and the memory at `startAddr`, which may
-- go on behind the map. `none` is a read or a write outside that memory.
pub mod Valid
pub mod FirstZero
pub mod Scan
pub mod Claim
mod Tests
use gogoos.Common.{
  ℕ, zero, suc, ◌+◌, ◌-◌, ◌*◌, ◌/◌, ◌%◌, ◌^◌, Bool, true, false, ◌&&◌, Option, none, some, List, [],
  ◌∷◌, ltb, leb, ◌==◌, if◌then◌else◌, length, get_elem?, set, take, drop, replicate, ◌++◌, ◌>>=◌,
  ◌>>◌, assert, u32, minus_one,
}
use gogoos.Common.Bits.{bit, set_bit, clear_bit}

pub record BitMap : Type 0 where
  pub size : ℕ  -- `length`
  pub bytes : List ℕ  -- the memory from `startAddr` on

-- `bitMapInit`: `memset` writes `length` bytes.
pub bit_map_init : BitMap → Option BitMap
bit_map_init bm = do
  assert (leb bm.size (length bm.bytes))
  some (record bm { bytes = replicate bm.size 0 ++ drop bm.size bm.bytes })

-- `bitMapTest`
pub bit_map_test : BitMap → ℕ → Option ℕ
bit_map_test bm i =
    if leb (u32 (bm.size * 8)) i
    then some 0
    else do b ← get_elem? bm.bytes (i / 8); some (bit b (i % 8))

-- `bitMapSet`, for a `val` that is or is not zero
pub bit_map_set : BitMap → ℕ → Bool → Option BitMap
bit_map_set bm i val = do
  b ← get_elem? bm.bytes (i / 8)
  let b' = if val then set_bit b (i % 8) else clear_bit b (i % 8)
  some (record bm { bytes = set bm.bytes (i / 8) b' })

-- The first loop of `bitMapScan`. The list is the memory from `startAddr + byteIdx` on: the byte
-- is read before the index is compared with the length.
pub skip_full : List ℕ → (size byte_idx : ℕ) → Option ℕ
skip_full [] size byte_idx = none
skip_full (b ∷ rest) size byte_idx =
    let next = skip_full rest size (byte_idx + 1) in
    if b == 0xff && ltb byte_idx size then next else some byte_idx

-- The second loop: the first clear bit of a byte. A byte that is not 0xff has one, so eight rounds
-- and the test that fails are enough fuel.
pub zero_bit : (fuel b bit_idx : ℕ) → Option ℕ
zero_bit zero b bit_idx = none
zero_bit (suc f) b bit_idx =
    let next = zero_bit f b (bit_idx + 1) in if bit b bit_idx == 0 then some bit_idx else next

-- The third loop, on the count of bits left.
pub find_run : (left_bit : ℕ) → BitMap → (cnt next_bit fd_cnt : ℕ) → Option ℕ
find_run zero bm cnt next_bit fd_cnt = some minus_one
find_run (suc left_bit) bm cnt next_bit fd_cnt = do
  t ← bit_map_test bm next_bit
  let fd = if t == 0 then u32 (fd_cnt + 1) else 0
  let rest = find_run left_bit bm cnt (u32 (next_bit + 1)) fd
  if fd == cnt then some (u32 (next_bit + 2 ^ 32 - cnt + 1)) else rest

-- `bitMapScan`
pub bit_map_scan : BitMap → ℕ → Option ℕ
unfolding skip_full zero_bit find_run
bit_map_scan bm cnt = do
  byte_idx ← skip_full bm.bytes bm.size 0
  if byte_idx == bm.size then some minus_one else do
    b ← get_elem? bm.bytes byte_idx
    bit_idx ← zero_bit 9 b 0
    let start = u32 (8 * byte_idx + bit_idx)
    if cnt == 1
        then some start
        else find_run (u32 (u32 (bm.size * 8) + 2 ^ 32 - start - 1)) bm cnt (u32 (start + 1)) 1

-- The loop of `bitMapScanAndSet`.
pub set_run : (cnt : ℕ) → BitMap → (idx : ℕ) → Bool → Option BitMap
set_run zero bm idx val = some bm
set_run (suc cnt) bm idx val = do bm' ← bit_map_set bm idx val; set_run cnt bm' (u32 (idx + 1)) val

-- `bitMapScanAndSet` returns the index and the map that it leaves.
pub bit_map_scan_and_set : BitMap → ℕ → Bool → Option (ℕ × BitMap)
unfolding set_run
bit_map_scan_and_set bm cnt val = do
  start ← bit_map_scan bm cnt
  if start == minus_one
      then some (minus_one, bm)
      else do bm' ← set_run cnt bm start val; some (start, bm')
