-- ===== src/Fs/BitMaps.antt =====
-- fs/file.c, the two bit maps of a partition: `inodeBitMapAlloc`, `blockBitMapAlloc` and `bitMapSync`,
-- with `ideWrite` of one sector. The macro BITS_PER_SECTOR stands without parentheses, and is expanded
-- as it stands.
pub mod Sync
mod Tests
use gogoos.Common.{
  ℕ, ◌+◌, ◌*◌, ◌/◌, true, Option, some, List, ltb, leb, ◌==◌, if◌then◌else◌, ◌>>=◌, ◌>>◌, assert,
  length, take, drop, minus_one, u32,
}
use gogoos.Structure.BitMap.{BitMap, bit_map_scan_and_set}
use gogoos.Fs.{Disk, max_lba, sector_byte_size}

pub data BitMapType : Type 0 where
  inode_bitmap : BitMapType
  block_bitmap : BitMapType

-- `Partition`, with the fields of its `SuperBlock` that say where the maps and the blocks lie
pub record Partition : Type 0 where
  pub block_bit_map : BitMap
  pub inode_bit_map : BitMap
  pub block_bit_map_lba_start : ℕ
  pub inode_bit_map_lba_start : ℕ
  pub inode_table_lba_start : ℕ
  pub data_lba_start : ℕ
  pub lba_start : ℕ
  pub sec_cnt : ℕ

-- `ideWrite` of one sector
unfoldable pub ide_write : Disk → (lba : ℕ) → (buf : List ℕ) → Option Disk
ide_write disk lba buf = do
  assert (ltb lba max_lba)
  assert (leb sector_byte_size (length buf))
  some (λ s. if s == lba then take sector_byte_size buf else disk s)

-- `ideWrite` of two sectors
unfoldable pub ide_write2 : Disk → (lba : ℕ) → (buf : List ℕ) → Option Disk
ide_write2 disk lba buf = do
  assert (ltb lba max_lba)
  assert (leb (2 * sector_byte_size) (length buf))
  some (λ s.
      if s == lba
      then take sector_byte_size buf
      else if s == lba + 1
      then take sector_byte_size (drop sector_byte_size buf)
      else disk s)

-- `inodeBitMapAlloc` returns the number, or -1, and the partition.
unfoldable pub inode_bit_map_alloc : Partition → Option (ℕ × Partition)
inode_bit_map_alloc part = do
  (bit_idx, bm) ← bit_map_scan_and_set part.inode_bit_map 1 true
  some (bit_idx, record part { inode_bit_map = bm })

-- `blockBitMapAlloc` returns the sector, or -1, and the partition.
unfoldable pub block_bit_map_alloc : Partition → Option (ℕ × Partition)
block_bit_map_alloc part = do
  (bit_idx, bm) ← bit_map_scan_and_set part.block_bit_map 1 true
  let part' = record part { block_bit_map = bm }
  some (if bit_idx == minus_one then minus_one else u32 (part.data_lba_start + bit_idx), part')

abbrev pub map_of : Partition → BitMapType → BitMap
map_of part inode_bitmap = part.inode_bit_map
map_of part block_bitmap = part.block_bit_map

abbrev pub lba_start_of : Partition → BitMapType → ℕ
lba_start_of part inode_bitmap = part.inode_bit_map_lba_start
lba_start_of part block_bitmap = part.block_bit_map_lba_start

-- `bitMapSync`: bitIdx / SECTOR_BYTE_SIZE*8 is the offset of the sector.
unfoldable pub bit_map_sync : Disk → Partition → (bit_idx : ℕ) → BitMapType → Option Disk
bit_map_sync disk part bit_idx btype =
    let sec_offset = bit_idx / sector_byte_size * 8 in
    let byte_offset = sec_offset * sector_byte_size in
    ide_write disk (lba_start_of part btype + sec_offset)
      (drop byte_offset (map_of part btype).bytes)
