-- ===== src/Fs/Release/Cleared.antt =====
-- fs/inode.c: what clearing the bits of blocks does to the map.
use gogoos.Common.{
  ℕ, zero, suc, ◌+◌, ◌-◌, ◌^◌, ◌<◌, ◌≤◌, ◌≡◌, ◌≢◌, refl, ◌∙◌, Bool, false, not, ◌||◌, ◌&&◌, some,
  List, arith, ◌==◌, ==_false, ==_iff, lt→ltb, if◌then◌else◌, get_elem?, get_or, u32, ℕ_discrete,
}
use gogoos.Structure.BitMap.{BitMap, bit_map_set}
use gogoos.Structure.BitMap.Valid.{
  bit_at, IsValid, updated, updated-IsValid, bit_map_set_lem, bit_at-updated,
}
use gogoos.Fs.{Disk, max_lba}
use gogoos.Fs.BitMaps.{Partition, block_bitmap, bit_map_sync}
use gogoos.Fs.BitMaps.Sync.{bit_map_sync-sector}
use gogoos.Fs.Release.{free_block, free_blocks}

-- bit `j` stands for the block `lba`, which is not missing
abbrev pub is_of : (data_lba_start lba j : ℕ) → Bool
is_of data_lba_start lba j = not (lba == 0) && (lba == data_lba_start + j)

-- bit `j` stands for one of `n` blocks from `idx` on
abbrev pub is_of_any : (data_lba_start : ℕ) → (block : List ℕ) → (n idx j : ℕ) → Bool
is_of_any data_lba_start block zero idx j = false
is_of_any data_lba_start block (suc n) idx j =
    is_of data_lba_start (get_or block idx 0) j || is_of_any data_lba_start block n (idx + 1) j

-- A map of at least a sector, on the disk.
pub record IsMap (bm : BitMap) (lba_start : ℕ) : Type 0 where
  pub valid : IsValid bm
  pub long : 512 ≤ bm.size
  pub low : lba_start < max_lba

-- The block is missing, or has an index from 1 to 511.
abbrev pub IsOurs : (data_lba_start lba : ℕ) → Type 0
IsOurs data_lba_start lba =
    lba ≢ 0 → (data_lba_start < lba) × (lba < data_lba_start + 512) × (lba < max_lba)

-- `bm'` is `bm` with the bits cleared that pass the test.
pub record IsCleared (bm bm' : BitMap) (test : ℕ → Bool) : Type 0 where
  pub valid : IsValid bm'
  pub size : bm'.size ≡ bm.size
  pub bits : (j : ℕ) → bit_at bm'.bytes j ≡ (if test j then 0 else bit_at bm.bytes j)

free_block-run :
    (disk disk' : Disk) (part : Partition) (lba idx : ℕ) (bm : BitMap)
    → u32 (lba + 2 ^ 32 - part.data_lba_start) ≡ idx
    → 0 < idx
    → bit_map_set part.block_bit_map idx false ≡ some bm
    → bit_map_sync disk (record part { block_bit_map = bm }) idx block_bitmap ≡ some disk'
    → free_block disk part lba ≡ some (disk', record part { block_bit_map = bm })
unfolding free_block
free_block-run disk disk' part lba idx bm word some_idx clear sync =
    rw (word, lt→ltb 0 idx some_idx, clear, sync) refl

pub free_block-IsCleared :
    (disk : Disk) (part : Partition) (lba : ℕ)
    → IsMap part.block_bit_map part.block_bit_map_lba_start
    → IsOurs part.data_lba_start lba
    → lba ≢ 0
    → (disk' : Disk) × (bm : BitMap) × (free_block disk part lba
        ≡ some (disk', record part { block_bit_map = bm }))
      × IsCleared part.block_bit_map bm (is_of part.data_lba_start lba)
free_block-IsCleared disk part lba v ours nz =
    let bm = part.block_bit_map in
    let (lo, hi, on_disk) = ours nz in
    let idx = lba - part.data_lba_start in
    let long = v.long in
    let low = v.low in
    let inside = v.valid.inside in
    let bm' = updated bm idx false in
    let valid' = updated-IsValid bm idx false v.valid in
    let enough = valid'.inside in
    let word : u32 (lba + 2 ^ 32 - part.data_lba_start) ≡ idx = omega (arith, lo, hi, on_disk) in
    let clear = bit_map_set_lem bm idx false v.valid (omega (arith, hi, long)) in
    let (disk', sync, _, _, _, _) =
      bit_map_sync-sector disk (record part { block_bit_map = bm' }) idx block_bitmap
        (omega (arith, hi, low)) (omega (arith, hi, long, enough)) in
    (
      disk',
      bm',
      free_block-run disk disk' part lba idx bm' word (omega (arith, lo)) clear sync,
      record {
        valid = valid';
        size = refl;
        bits = λ j.
            ground (arith, bit_at-updated bm idx false j v.valid (omega (arith, hi, long)), lo, nz);
      },
    )

pub IsMap-IsCleared :
    (bm bm' : BitMap) (lba_start : ℕ) (test : ℕ → Bool)
    → IsMap bm lba_start
    → IsCleared bm bm' test
    → IsMap bm' lba_start
IsMap-IsCleared bm bm' lba_start test v c = record {
  valid = c.valid;
  long = omega (arith, v.long, c.size);
  low = v.low;
}

-- First the one bits are cleared, then the others.
pub IsCleared-both :
    (bm bm1 bm2 : BitMap) (test test' : ℕ → Bool)
    → IsCleared bm bm1 test
    → IsCleared bm1 bm2 test'
    → IsCleared bm bm2 (λ j. test j || test' j)
IsCleared-both bm bm1 bm2 test test' a b = record {
  valid = b.valid;
  size = b.size ∙ a.size;
  bits = λ j. ground (arith, a.bits j, b.bits j);
}

unchanged-IsCleared : (bm : BitMap) → IsValid bm → IsCleared bm bm (λ j. false)
unchanged-IsCleared bm v = record { valid = v; size = refl; bits = λ j. refl }

pub missing : (d j lba : ℕ) → lba ≡ 0 → is_of d lba j ≡ false
missing d j lba z = rw (z) refl

-- The loop.
pub free_blocks-IsCleared :
    (n idx : ℕ) (all block : List ℕ) (disk : Disk) (part : Partition)
    → IsMap part.block_bit_map part.block_bit_map_lba_start
    → ((i : ℕ)
        → idx ≤ i
        → i < idx + n
        → (get_elem? all i ≡ some (get_or block i 0))
          × IsOurs part.data_lba_start (get_or block i 0))
    → (disk' : Disk) × (bm : BitMap) × (free_blocks n idx all disk part
        ≡ some (disk', record part { block_bit_map = bm }))
      × IsCleared part.block_bit_map bm (is_of_any part.data_lba_start block n idx)
unfolding free_blocks
free_blocks-IsCleared zero idx all block disk part v ours =
    (disk, part.block_bit_map, refl, unchanged-IsCleared part.block_bit_map v.valid)
free_blocks-IsCleared (suc n) idx all block disk part v ours =
    let d = part.data_lba_start in
    let (here, mine) = ours idx (omega arith) (omega arith) in
    elim (ℕ_discrete (get_or block idx 0) 0) [
      | yes z ↦
          let (disk', bm, run, c) =
            free_blocks-IsCleared n (idx + 1) all block disk part v
              (λ i lo hi. ours i (omega arith) (omega arith)) in
          (
            disk',
            bm,
            rw (here, (==_iff (get_or block idx 0) 0).1 z) run,
            record {
              valid = c.valid;
              size = c.size;
              bits = λ j. rw (missing d j (get_or block idx 0) z) (c.bits j);
            },
          )
      | no nz ↦
          let (disk1, bm1, run1, c1) =
            free_block-IsCleared disk part (get_or block idx 0) v mine nz in
          let part1 = record part { block_bit_map = bm1 } in
          let v1 =
            IsMap-IsCleared part.block_bit_map bm1 part.block_bit_map_lba_start
              (is_of d (get_or block idx 0)) v c1 in
          let (disk2, bm2, run2, c2) =
            free_blocks-IsCleared n (idx + 1) all block disk1 part1 v1
              (λ i lo hi. ours i (omega arith) (omega arith)) in
          (
            disk2,
            bm2,
            rw (here, ==_false (get_or block idx 0) 0 nz, run1) run2,
            IsCleared-both part.block_bit_map bm1 bm2 (is_of d (get_or block idx 0))
                (is_of_any d block n (idx + 1)) c1 c2,
          )
    ]
