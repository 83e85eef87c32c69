-- ===== src/Fs/Write/Space.antt =====
-- fs/file.c, `blockBitMapAlloc` and `bitMapSync` of the block, while there is room below bit 512.
use gogoos.Common.{
  ℕ, suc, ◌+◌, ◌*◌, ◌/◌, ◌%◌, ◌<◌, ◌≤◌, ◌≡◌, inr, refl, true, some, arith, leb, ◌==◌, ==_refl,
  ==_false, lt→ltb, if◌then◌else◌, length, take, drop, length-take, u32, minus_one, dec_lt,
  ℕ_discrete,
}
use gogoos.Structure.BitMap.{BitMap}
use gogoos.Structure.BitMap.Valid.{bit_at, IsValid}
use gogoos.Structure.BitMap.FirstZero.{Readable, bit-full}
use gogoos.Structure.BitMap.Scan.{IsFirstRun}
use gogoos.Structure.BitMap.Claim.{Marked, Claimed, claimed, refused, bit_map_scan_and_set-Claimed}
use gogoos.Fs.{Disk, max_lba}
use gogoos.Fs.BitMaps.{Partition, block_bitmap, ide_write, block_bit_map_alloc, bit_map_sync}

-- `room` blocks are free below bit 512: `spare` numbers some of them. Bit 0 is in use.
pub record HasRoom (bm : BitMap) (room : ℕ) : Type 0 where
  pub valid : IsValid bm
  pub long : 512 ≤ bm.size
  pub root : bit_at bm.bytes 0 ≡ 1
  pub spare : ℕ → ℕ
  pub ordered : (i j : ℕ) → i < j → j < room → spare i < spare j
  pub low : (j : ℕ) → j < room → spare j < 512
  pub clear : (j : ℕ) → j < room → bit_at bm.bytes (spare j) ≡ 0

-- the map of blocks, the table of inodes and the data lie in this order, and the first 512 blocks on the disk
pub record IsLayout (part : Partition) : Type 0 where
  pub map_first : part.block_bit_map_lba_start < part.inode_table_lba_start
  pub data_last : part.inode_table_lba_start + 610 ≤ part.data_lba_start
  pub on_disk : part.data_lba_start + 512 ≤ max_lba

module _ (bm : BitMap) (k : ℕ) (v : HasRoom bm (suc k)) where
  readable : Readable bm.bytes bm.size
  readable =
      let low = v.low 0 (omega arith) in
      let clear = v.clear 0 (omega arith) in
      inr (
        v.spare 0 / 8,
        omega (arith, v.long, low),
        λ e.
            let one = bit-full (v.spare 0 % 8) (omega arith) in
            let one' : bit_at bm.bytes (v.spare 0) ≡ 1 = rw (e) one in omega (arith, one', clear),
      )

  -- What is found is not behind the first of the spare blocks.
  found_low : (r : ℕ) → IsFirstRun bm 1 r → r ≤ v.spare 0
  found_low r run = elim (dec_lt (v.spare 0) r) [
    | no n ↦ omega arith
    | yes lt ↦ absurd (
        run.first (v.spare 0) lt (λ i h.
          let e : v.spare 0 + i ≡ v.spare 0 = omega arith in rw (e) (v.clear 0 (omega arith))))
  ]

  room_left : (r : ℕ) (bm' : BitMap) → IsFirstRun bm 1 r → Marked bm r 1 true bm' → HasRoom bm' k
  room_left r bm' run m = record {
    valid = m.valid;
    long = omega (arith, m.size, v.long);
    root = ground (arith, m.bits 0, v.root);
    spare = λ j. v.spare (suc j);
    ordered = λ i j lt le. v.ordered (suc i) (suc j) (omega arith) (omega arith);
    low = λ j le. v.low (suc j) (omega arith);
    clear = λ j le.
        let behind = v.ordered 0 (suc j) (omega arith) (omega arith) in
        let before = found_low r run in
        ground (arith, m.bits (v.spare (suc j)), v.clear (suc j) (omega arith), behind, before);
  }

-- what `blockBitMapAlloc` takes
pub record Taken (bm : BitMap) (k r : ℕ) (bm' : BitMap) : Type 0 where
  pub low : r < 512
  pub was_free : bit_at bm.bytes r ≡ 0
  pub in_use : (j : ℕ) → bit_at bm'.bytes j ≡ (if r == j then 1 else bit_at bm.bytes j)
  pub room : HasRoom bm' k

module _ (part : Partition) (k : ℕ) (v : HasRoom part.block_bit_map (suc k))
    (lay : IsLayout part) where
  Claimed-Taken :
      (res : ℕ × BitMap)
      → Claimed part.block_bit_map 1 true res
      → (res.0 < 512) × Taken part.block_bit_map k res.0 res.1
  Claimed-Taken (r, bm') (claimed first m) =
      let before = found_low part.block_bit_map k v r first in
      let low : r < 512 = omega (arith, before, v.low 0 (omega arith)) in
      let e : r + 0 ≡ r = omega arith in
      (
        low,
        record {
          low = low;
          was_free = rw e at (first.free 0 (omega arith));
          in_use = λ j. ground (arith, m.bits j);
          room = room_left part.block_bit_map k v r bm' first m;
        },
      )
  Claimed-Taken (r, bm') (refused e same no_run) = absurd (
      no_run (v.spare 0) (omega (arith, v.low 0 (omega arith), v.long)) (λ i h.
        let e : v.spare 0 + i ≡ v.spare 0 = omega arith in rw (e) (v.clear 0 (omega arith))))

  -- A block is found, and its bit is set.
  pub block_bit_map_alloc-Taken :
      (r : ℕ) × (bm' : BitMap) × (block_bit_map_alloc part
        ≡ some (part.data_lba_start + r, record part { block_bit_map = bm' }))
      × Taken part.block_bit_map k r bm'
  unfolding block_bit_map_alloc
  block_bit_map_alloc-Taken =
      let on_disk = lay.on_disk in
      let (res, run, c) =
        bit_map_scan_and_set-Claimed part.block_bit_map 1 true v.valid
          (readable part.block_bit_map k v) (omega arith) in
      let (low, taken) = Claimed-Taken res c in
      let lba : u32 (part.data_lba_start + res.0) ≡ part.data_lba_start + res.0 =
        omega (arith, on_disk, low) in
      (res.0, res.1, rw (run, ==_false res.0 minus_one (omega (arith, low)), lba) refl, taken)

-- `bitMapSync` of such a block writes the first sector of the map.
pub bit_map_sync_lem :
    (disk : Disk) (part : Partition) (r room : ℕ)
    → HasRoom part.block_bit_map room
    → IsLayout part
    → r < 512
    → (disk' : Disk) × (bit_map_sync disk part r block_bitmap ≡ some disk')
      × (((s : ℕ) → length (disk s) ≡ 512) → (s : ℕ) → length (disk' s) ≡ 512)
      × ((s : ℕ) → part.inode_table_lba_start ≤ s → disk' s ≡ disk s)
unfolding bit_map_sync ide_write
bit_map_sync_lem disk part r room v lay low =
    let bytes = part.block_bit_map.bytes in
    let lba = part.block_bit_map_lba_start in
    let a = lay.map_first in
    let b = lay.data_last in
    let c = lay.on_disk in
    let zero_lba : r / 512 * 8 ≡ 0 = omega arith in
    let inside = v.valid.inside in
    let enough : leb 512 (length (drop 0 bytes)) ≡ true = ground (arith, inside, v.long) in
    let same : lba + 0 ≡ lba = omega arith in
    (
      (λ s. if s == lba then take 512 bytes else disk s),
      rw (zero_lba, same, lt→ltb lba max_lba (omega arith), enough) refl,
      (λ whole s. elim (ℕ_discrete s lba) [
        | yes e ↦ rw (e, ==_refl lba) (omega (arith, length-take 512 bytes, inside, v.long))
        | no ne ↦ rw (==_false s lba ne) (whole s)
      ]),
      λ s le. rw (==_false s lba (λ e. omega arith)) refl,
    )
