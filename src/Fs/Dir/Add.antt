-- ===== src/Fs/Dir/Add.antt =====
-- fs/dir.c, `syncDirEntry`. What it changes is a `Writing`, as in `fileWrite`: the inode is the one of the
-- directory, the disk and the partition those of `curPart`.
pub mod Inserted
pub mod Slots
pub mod Added
use gogoos.Common.{
  ℕ, zero, suc, ◌+◌, ◌-◌, ◌*◌, ◌/◌, ◌%◌, ◌^◌, Bool, true, false, not, Option, none, some, List, [],
  ◌∷◌, ◌++◌, ltb, leb, ◌==◌, if◌then◌else◌, ◌>>=◌, ◌>>◌, assert, get_elem?, overwrite, drop, u32,
  minus_one,
}
use gogoos.Structure.BitMap.{bit_map_set}
use gogoos.Fs.{Disk, Inode, ide_read}
use gogoos.Fs.BitMaps.{Partition, block_bitmap, ide_write, bit_map_sync}
use gogoos.Fs.Sectors.{le32, bytes_of}
use gogoos.Fs.Write.{
  Writing, take_block, with_block, with_listed, sync_block, block_lba_to_bit_map_idx, blank_sector,
}
use gogoos.Fs.Dir.{DirEntry, dir_entry_size, dir_entry_cnt_per_sec, entry_at, load_blocks}

-- an entry as its 24 bytes
abbrev pub entry_bytes : DirEntry → List ℕ
entry_bytes de = de.file_name ++ (le32 de.ino ++ le32 de.file_type)

-- the inner loop: the first entry that is FT_UNKNOWN
unfoldable pub free_entry : (rounds dir_entry_idx : ℕ) → (sector : List ℕ) → Option ℕ
free_entry zero idx sector = none
free_entry (suc n) idx sector =
    let next = free_entry n (idx + 1) sector in
    if (entry_at sector idx).file_type == 0 then some idx else next

-- `ideWrite` of the sector, dirInode->size += dirEntrySize, and true
abbrev pub write_entry : Writing → (lba : ℕ) → (io_buf : List ℕ) → Option (Bool × Writing)
write_entry w lba io_buf = do
  disk ← ide_write w.disk lba io_buf
  some (
    true,
    record w { disk = disk; inode = record w.inode { size = u32 (w.inode.size + dir_entry_size) } },
  )

-- ideWrite(curPart->disk, dirInode->block[12], allBlocks + 12, 1)
abbrev pub write_blocks_table : Writing → Option Writing
write_blocks_table w = do
  table_lba ← get_elem? w.inode.block 12
  disk ← ide_write w.disk table_lba (bytes_of (drop 12 w.all_blocks))
  some (record w { disk = disk })

-- No block is left for the entries, when `block_lba` has become the table: it is given back.
abbrev pub give_table_back : Writing → (block_lba : ℕ) → Option (Bool × Writing)
give_table_back w block_lba = do
  let bit_idx = block_lba_to_bit_map_idx w.part block_lba
  bm ← bit_map_set w.part.block_bit_map bit_idx false
  let w1 = with_block (record w { part = record w.part { block_bit_map = bm } }) 12 0
  disk ← bit_map_sync w1.disk w1.part bit_idx block_bitmap
  some (false, record w1 { disk = disk })

-- a new block whose first entry is `de`
abbrev pub write_new : Writing → (block_idx : ℕ) → DirEntry → Option (Bool × Writing)
write_new w block_idx de = do
  lba ← get_elem? w.all_blocks block_idx
  write_entry w lba (overwrite 0 (entry_bytes de) blank_sector)

-- the block behind the table is `block_lba`, and the entries get another one
unfoldable pub new_table : Writing → (block_lba : ℕ) → DirEntry → Option (Bool × Writing)
new_table w block_lba de = do
  (lba, w1) ← take_block (with_block w 12 block_lba)
  if lba == minus_one then give_table_back w1 block_lba else do
    assert (not (block_lba_to_bit_map_idx w1.part lba == minus_one))
    w2 ← sync_block w1 lba
    w3 ← write_blocks_table (with_listed w2 12 lba)
    write_new w3 12 de

-- the block that has been taken gets its place
abbrev pub place_block : Writing → (block_idx block_lba : ℕ) → DirEntry → Option (Bool × Writing)
place_block w block_idx block_lba de =
    if ltb block_idx 12
    then write_new (with_listed (with_block w block_idx block_lba) block_idx block_lba) block_idx de
    else if block_idx == 12
    then new_table w block_lba de
    else (do w1 ← write_blocks_table (with_listed w block_idx block_lba); write_new w1 block_idx de)

-- allBlocks[blockIdx] == 0
unfoldable pub new_block : Writing → (block_idx : ℕ) → DirEntry → Option (Bool × Writing)
new_block w block_idx de = do
  (lba, w1) ← take_block w
  if lba == minus_one then some (false, w1) else do
    assert (not (block_lba_to_bit_map_idx w1.part lba == minus_one))
    w2 ← sync_block w1 lba
    place_block w2 block_idx lba de

-- The entry goes to the free place, or the outer loop goes on.
abbrev pub at_free :
    Writing
    → (lba : ℕ) → (io_buf : List ℕ) → DirEntry
    → (next : Option (Bool × Writing)) → Option ℕ
    → Option (Bool × Writing)
at_free w lba io_buf de next (some i) =
    write_entry w lba (overwrite (dir_entry_size * i) (entry_bytes de) io_buf)
at_free w lba io_buf de next none = next

-- the outer loop
unfoldable pub add_entry : (rounds block_idx : ℕ) → Writing → DirEntry → Option (Bool × Writing)
add_entry zero block_idx w de = some (false, w)
add_entry (suc n) block_idx w de = do
  lba ← get_elem? w.all_blocks block_idx
  if lba == 0 then new_block w block_idx de else do
    io_buf ← ide_read w.disk lba
    at_free w lba io_buf de (add_entry n (block_idx + 1) w de)
        (free_entry dir_entry_cnt_per_sec 0 io_buf)

-- `syncDirEntry`; whether the allocation succeeds is an argument
unfoldable pub sync_dir_entry :
    Disk
    → Partition
    → Inode
    → (allocated : Bool) → DirEntry
    → Option (Bool × (Disk × (Partition × Inode)))
sync_dir_entry disk part inode allocated de = do
  assert (inode.size % dir_entry_size == 0)
  if not allocated then some (false, (disk, (part, inode))) else do
    all_blocks ← load_blocks disk inode
    (ok, w) ←
        add_entry 140 0
          (record { disk = disk; part = part; inode = inode; all_blocks = all_blocks }) de
    some (ok, (w.disk, (w.part, w.inode)))
