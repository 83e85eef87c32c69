-- ===== src/Fs/Release.antt =====
-- fs/inode.c, `inodeRelease`: the blocks of an inode and its number are free again. `blockCnt` stays 12
-- where the inode has a table; the code sets `blockIdx` there, which the loop sets to 0.
pub mod Cleared
pub mod Freed
mod Tests
use gogoos.Common.{
  ℕ, zero, suc, ◌+◌, Bool, true, false, not, Option, none, some, List, [], ◌∷◌, ltb, ◌==◌,
  if◌then◌else◌, ◌>>=◌, ◌>>◌, assert, get_elem?,
}
use gogoos.Structure.BitMap.{bit_map_set}
use gogoos.Fs.{Disk, Inode}
use gogoos.Fs.BitMaps.{Partition, inode_bitmap, block_bitmap, bit_map_sync}
use gogoos.Fs.OpenFiles.{Files, inode_open, inode_close}
use gogoos.Fs.Write.{block_lba_to_bit_map_idx}
use gogoos.Fs.Dir.{load_blocks}

-- The bit of a block is cleared, in the memory and on the disk.
unfoldable pub free_block : Disk → Partition → (block_lba : ℕ) → Option (Disk × Partition)
free_block disk part block_lba = do
  let idx = block_lba_to_bit_map_idx part block_lba
  assert (ltb 0 idx)
  bm ← bit_map_set part.block_bit_map idx false
  let part' = record part { block_bit_map = bm }
  disk' ← bit_map_sync disk part' idx block_bitmap
  some (disk', part')

-- the loop over `allBlocks`
unfoldable pub free_blocks :
    (rounds block_idx : ℕ) → (all_blocks : List ℕ) → Disk → Partition → Option (Disk × Partition)
free_blocks zero block_idx all_blocks disk part = some (disk, part)
free_blocks (suc n) block_idx all_blocks disk part = do
  lba ← get_elem? all_blocks block_idx
  if lba == 0 then free_blocks n (block_idx + 1) all_blocks disk part else do
    (disk', part') ← free_block disk part lba
    free_blocks n (block_idx + 1) all_blocks disk' part'

-- the block of the table, if there is one
unfoldable pub free_table : Disk → Partition → Inode → Option (Disk × Partition)
free_table disk part inode = do
  table_lba ← get_elem? inode.block 12
  if table_lba == 0 then some (disk, part) else free_block disk part table_lba

-- the number of the inode
unfoldable pub free_ino : Disk → Partition → (ino : ℕ) → Option (Disk × Partition)
free_ino disk part ino = do
  bm ← bit_map_set part.inode_bit_map ino false
  let part' = record part { inode_bit_map = bm }
  disk' ← bit_map_sync disk part' ino inode_bitmap
  some (disk', part')

-- what `inodeRelease` does to the disk and the maps
unfoldable pub release_blocks : Disk → Partition → Inode → Option (Disk × Partition)
release_blocks disk part inode = do
  all_blocks ← load_blocks disk inode
  (disk1, part1) ← free_table disk part inode
  (disk2, part2) ← free_blocks 12 0 all_blocks disk1 part1
  free_ino disk2 part2 inode.ino

-- `inodeRelease`; whether the allocation of `allBlocks` succeeds is an argument: the code writes through it untested.
unfoldable pub inode_release :
    Disk
    → Partition
    → (fresh : ℕ) → (allocated : Bool) → Files
    → (ino : ℕ) → Option (Disk × (Partition × Files))
inode_release disk part fresh allocated m ino = do
  (at, m1) ← inode_open disk part.inode_table_lba_start fresh m ino
  let inode_to_del = m1.inodes at
  assert (inode_to_del.ino == ino)
  assert allocated
  (disk', part') ← release_blocks disk part inode_to_del
  some (disk', (part', inode_close m1 at))
