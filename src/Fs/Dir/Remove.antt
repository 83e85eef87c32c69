-- ===== src/Fs/Dir/Remove.antt =====
-- fs/dir.c, `deleteDirEntry`. What it changes is a `Writing`, as in `syncDirEntry`. The allocation of `allBlocks`,
-- which the code does not test, succeeds; `deFound` is NULL at the start of every block, since the function
-- returns from the block in which it is set.
pub mod Counts
pub mod Reached
pub mod Removed
use gogoos.Common.{
  ℕ, zero, suc, ◌+◌, ◌-◌, ◌*◌, ◌/◌, ◌%◌, ◌^◌, Bool, true, false, not, ◌&&◌, Option, none, some,
  List, [], ◌∷◌, ltb, leb, ◌==◌, if◌then◌else◌, ◌>>=◌, ◌>>◌, assert, get_elem?, overwrite, drop,
  zeros, u32,
}
use gogoos.Common.Int.{is_zero}
use gogoos.CString.{strcmp}
use gogoos.Structure.BitMap.{bit_map_set}
use gogoos.Fs.{Disk, Inode, ide_read}
use gogoos.Fs.BitMaps.{Partition, block_bitmap, ide_write, bit_map_sync}
use gogoos.Fs.InodeSync.{inode_sync}
use gogoos.Fs.Write.{Writing, with_block, with_listed, block_lba_to_bit_map_idx}
use gogoos.Fs.Dir.{DirEntry, dir_entry_size, dir_entry_cnt_per_sec, entry_at, load_blocks}
use gogoos.Fs.Dir.Add.{write_blocks_table}

-- the variables that the inner loop changes; `de_found` is the index of the entry
pub record Counted : Type 0 where
  pub is_dir_first_block : Bool
  pub dir_entry_cnt : ℕ
  pub de_found : Option ℕ

abbrev pub is_null : Option ℕ → Bool
is_null none = true
is_null (some i) = false

-- An entry that is in use, and not named ".", is counted, and found by its number.
abbrev pub count_named : DirEntry → (ino dir_entry_idx : ℕ) → Counted → Option Counted
count_named de ino idx c =
    let counted = record c { dir_entry_cnt = c.dir_entry_cnt + 1 } in
    if de.ino == ino
    then (do assert (is_null c.de_found); some (record counted { de_found = some idx }))
    else some counted

-- one round of the inner loop
unfoldable pub count_entry : DirEntry → (ino dir_entry_idx : ℕ) → Counted → Option Counted
count_entry de ino idx c = if de.file_type == 0 then some c else do
  r ← strcmp de.file_name (b'.' ∷ 0 ∷ [])
  if is_zero r then some (record c { is_dir_first_block = true }) else count_named de ino idx c

-- the inner loop
unfoldable pub count_entries :
    (rounds dir_entry_idx : ℕ) → (sector : List ℕ) → (ino : ℕ) → Counted → Option Counted
count_entries zero idx sector ino c = some c
count_entries (suc n) idx sector ino c = do
  c' ← count_entry (entry_at sector idx) ino idx c
  count_entries n (idx + 1) sector ino c'

abbrev pub nothing_counted : Counted
nothing_counted = record { is_dir_first_block = false; dir_entry_cnt = 0; de_found = none }

-- bitMapSet to 0, and bitMapSync
unfoldable pub clear_bit_of : Writing → (block_lba : ℕ) → Option Writing
clear_bit_of w block_lba = do
  let idx = block_lba_to_bit_map_idx w.part block_lba
  bm ← bit_map_set w.part.block_bit_map idx false
  let part = record w.part { block_bit_map = bm }
  disk ← bit_map_sync w.disk part idx block_bitmap
  some (record w { disk = disk; part = part })

-- the loop that counts the blocks of the table
unfoldable pub indirect_blocks_cnt : List ℕ → ℕ
indirect_blocks_cnt [] = 0
indirect_blocks_cnt (lba ∷ lbas) =
    let rest = indirect_blocks_cnt lbas in if lba == 0 then rest else rest + 1

-- A block of the table leaves it, or the table is given up.
abbrev pub drop_indirect : Writing → (block_idx : ℕ) → Option Writing
drop_indirect w block_idx = do
  let cnt = indirect_blocks_cnt (drop 12 w.all_blocks)
  assert (leb 1 cnt)
  if ltb 1 cnt
      then write_blocks_table (with_listed w block_idx 0)
      else do lba ← get_elem? w.all_blocks 12; w1 ← clear_bit_of w lba; some (with_block w1 12 0)

-- The entry was the only one of its block, which is given back.
unfoldable pub drop_block : Writing → (block_idx : ℕ) → Option Writing
drop_block w block_idx = do
  lba ← get_elem? w.all_blocks block_idx
  w1 ← clear_bit_of w lba
  if ltb block_idx 12 then some (with_block w1 block_idx 0) else drop_indirect w1 block_idx

-- The entry is cleared in its block.
abbrev pub clear_entry :
    Writing → (lba : ℕ) → (io_buf : List ℕ) → (dir_entry_idx : ℕ) → Option Writing
clear_entry w lba io_buf i = do
  disk ← ide_write w.disk lba (overwrite (dir_entry_size * i) (zeros dir_entry_size) io_buf)
  some (record w { disk = disk })

-- dirInode->size -= dirEntrySize, `inodeSync` and true
abbrev pub shrink : Writing → Option (Bool × Writing)
shrink w = do
  assert (leb dir_entry_size w.inode.size)
  let w1 = record w { inode = record w.inode { size = w.inode.size - dir_entry_size } }
  disk ← inode_sync w1.disk w1.part w1.inode
  some (true, record w1 { disk = disk })

-- The entry is removed, or the outer loop goes on.
abbrev pub after_count :
    Writing
    → (block_idx lba : ℕ) → (io_buf : List ℕ) → (next : Option (Bool × Writing)) → Counted
    → Option ℕ
    → Option (Bool × Writing)
after_count w block_idx lba io_buf next c none = next
after_count w block_idx lba io_buf next c (some i) = do
  assert (leb 1 c.dir_entry_cnt)
  w1 ←
      if c.dir_entry_cnt == 1 && not c.is_dir_first_block
      then drop_block w block_idx
      else clear_entry w lba io_buf i
  shrink w1

-- the outer loop
unfoldable pub remove_entry : (rounds block_idx : ℕ) → Writing → (ino : ℕ) → Option (Bool × Writing)
remove_entry zero block_idx w ino = some (false, w)
remove_entry (suc n) block_idx w ino = do
  lba ← get_elem? w.all_blocks block_idx
  let next = remove_entry n (block_idx + 1) w ino
  let here = (do
    io_buf ← ide_read w.disk lba
    c ← count_entries dir_entry_cnt_per_sec 0 io_buf ino nothing_counted
    after_count w block_idx lba io_buf next c c.de_found)
  if lba == 0 then next else here

-- `deleteDirEntry`
unfoldable pub delete_dir_entry :
    Disk → Partition → Inode → (ino : ℕ) → Option (Bool × (Disk × (Partition × Inode)))
delete_dir_entry disk part inode ino = do
  all_blocks ← load_blocks disk inode
  (ok, w) ←
      remove_entry 140 0
        (record { disk = disk; part = part; inode = inode; all_blocks = all_blocks }) ino
  some (ok, (w.disk, (w.part, w.inode)))
