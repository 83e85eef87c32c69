-- ===== src/Fs/Write.antt =====
-- fs/file.c, `fileWrite`. The bytes to write are a list, whose length is `count`; whether the two
-- allocations succeed is an argument, and the memory that they give is cleared. `sysFree` is left out.
pub mod Blocks
pub mod Direct
pub mod Found
pub mod Limit
pub mod Loop
pub mod RoundTrip
pub mod Sample
pub mod Small
pub mod Space
mod Tests
use gogoos.Common.{
  ℕ, zero, suc, ◌+◌, ◌-◌, ◌*◌, ◌/◌, ◌%◌, ◌^◌, Bool, true, false, not, Option, none, some, List, [],
  ◌∷◌, ◌++◌, ltb, leb, ◌==◌, if◌then◌else◌, ◌>>=◌, ◌>>◌, assert, length, get_elem?, set, take, drop,
  zeros, overwrite, u32, min, minus_one,
}
use gogoos.Common.Int.{ℤ, pos, negsuc}
use gogoos.Fs.{Disk, Inode, ide_read}
use gogoos.Fs.BitMaps.{Partition, block_bitmap, ide_write, block_bit_map_alloc, bit_map_sync}
use gogoos.Fs.Read.{cleared, has_table, read_table}
use gogoos.Fs.InodeSync.{inode_sync}
use gogoos.Fs.Sectors.{bytes_of}

-- what `fileWrite` changes while it looks for the blocks
pub record Writing : Type 0 where
  pub disk : Disk
  pub part : Partition
  pub inode : Inode
  pub all_blocks : List ℕ

-- The blocks are found, or there is none left and `fileWrite` returns -1.
pub data Attempt : Type 0 where
  done : Writing → Attempt
  out_of_space : Writing → Attempt

-- `blockLbaToBitMapIdx`
abbrev pub block_lba_to_bit_map_idx : Partition → (block_lba : ℕ) → ℕ
block_lba_to_bit_map_idx part block_lba = u32 (block_lba + 2 ^ 32 - part.data_lba_start)

-- `blockBitMapAlloc(curPart)`
abbrev pub take_block : Writing → Option (ℕ × Writing)
take_block w = do (lba, part) ← block_bit_map_alloc w.part; some (lba, record w { part = part })

-- file->fdInode->block[blockIdx] = blockLba
abbrev pub with_block : Writing → (block_idx block_lba : ℕ) → Writing
with_block w block_idx block_lba = record w {
  inode = record w.inode { block = set w.inode.block block_idx block_lba };
}

-- allBlocks[blockIdx] = blockLba
abbrev pub with_listed : Writing → (block_idx block_lba : ℕ) → Writing
with_listed w block_idx block_lba = record w { all_blocks = set w.all_blocks block_idx block_lba }

-- `bitMapSync` of the block
abbrev pub sync_block : Writing → (block_lba : ℕ) → Option Writing
sync_block w block_lba = do
  disk ← bit_map_sync w.disk w.part (block_lba_to_bit_map_idx w.part block_lba) block_bitmap
  some (record w { disk = disk })

-- the same behind ASSERT(blockBitMapIdx != 0)
abbrev pub sync_nonzero : Writing → (block_lba : ℕ) → Option Writing
sync_nonzero w block_lba = do
  assert (not (block_lba_to_bit_map_idx w.part block_lba == 0))
  sync_block w block_lba

-- an empty file gets its first block
unfoldable pub first_block : Writing → Option Attempt
first_block w = do
  first ← get_elem? w.inode.block 0
  if not (first == 0) then some (done w) else do
    (lba, w1) ← take_block w
    if lba == minus_one
        then some (out_of_space w1)
        else do w2 ← sync_nonzero (with_block w1 0 lba) lba; some (done w2)

-- ASSERT(block[blockIdx] != 0); allBlocks[blockIdx] = block[blockIdx]
abbrev pub list_block : Writing → (block_idx : ℕ) → Option Writing
list_block w block_idx = do
  lba ← get_elem? w.inode.block block_idx
  assert (not (lba == 0))
  some (with_listed w block_idx lba)

-- ASSERT(block[12] != 0), and the table is read
abbrev pub list_table : Writing → Option Writing
list_table w = do
  has_table w.inode.block
  all_blocks ← read_table w.disk w.inode.block w.all_blocks
  some (record w { all_blocks = all_blocks })

-- ASSERT(block[blockIdx] == 0)
abbrev pub is_free : Writing → (block_idx : ℕ) → Option (Unit {0})
is_free w block_idx = do lba ← get_elem? w.inode.block block_idx; assert (lba == 0)

-- a round of the loop of situation 1
abbrev pub put_direct : Writing → (block_idx block_lba : ℕ) → Option Writing
put_direct w block_idx block_lba = do
  is_free w block_idx
  sync_nonzero (with_listed (with_block w block_idx block_lba) block_idx block_lba) block_lba

-- a round of the loop of situation 4
abbrev pub put_table : Writing → (block_idx block_lba : ℕ) → Option Writing
put_table w block_idx block_lba = sync_block (with_listed w block_idx block_lba) block_lba

-- a round of the loop of situation 3
abbrev pub put_mixed : Writing → (block_idx block_lba : ℕ) → Option Writing
put_mixed w block_idx block_lba =
    if ltb block_idx 12
    then (do
      is_free w block_idx
      sync_block (with_listed (with_block w block_idx block_lba) block_idx block_lba) block_lba)
    else put_table w block_idx block_lba

-- the loops, which differ in `put`: while (blockIdx <= fileWillUseBlocks)
unfoldable pub add_blocks :
    (put : Writing → ℕ → ℕ → Option Writing) → (rounds block_idx : ℕ) → Writing → Option Attempt
add_blocks put zero block_idx w = some (done w)
add_blocks put (suc n) block_idx w = do
  (lba, w1) ← take_block w
  if lba == minus_one
      then some (out_of_space w1)
      else do w2 ← put w1 block_idx lba; add_blocks put n (block_idx + 1) w2

-- ideWrite(curPart->disk, indirectBlockTable, allBlocks + 12, 1)
abbrev pub write_table : (table_lba : ℕ) → Attempt → Option Attempt
write_table table_lba (out_of_space w) = some (out_of_space w)
write_table table_lba (done w) = do
  disk ← ide_write w.disk table_lba (bytes_of (drop 12 w.all_blocks))
  some (done (record w { disk = disk }))

-- The blocks reach over to the table: the table itself is a new block.
unfoldable pub new_table : Writing → (used will : ℕ) → Option Attempt
new_table w used will = do
  w1 ← list_block w used
  (lba, w2) ← take_block w1
  if lba == minus_one then some (out_of_space w2) else do
    is_free w2 12
    found ← add_blocks put_mixed (will - used) (used + 1) (with_block w2 12 lba)
    write_table lba found

-- the blocks from the one where the file ends to the one where it is going to end
unfoldable pub find_blocks : Writing → (used will : ℕ) → Option Attempt
find_blocks w used will =
    if will == used
    then (if ltb will 12
        then (do w1 ← list_block w used; some (done w1))
        else (do w1 ← list_table w; some (done w1)))
    else if ltb will 12
    then (do w1 ← list_block w used; add_blocks put_direct (will - used) (used + 1) w1)
    else if ltb used 12
    then new_table w used will
    else (do
      w1 ← list_table w
      table_lba ← get_elem? w1.inode.block 12
      found ← add_blocks put_table (will - used) (used + 1) w1
      write_table table_lba found)

-- memset(ioBuf, 0, BLOCK_BYTE_SIZE)
unfoldable pub blank_sector : List ℕ
blank_sector = zeros 512

-- The last loop, with the bytes left in `src`, the size and the position. Every round writes a byte or more,
-- so as many rounds as bytes are enough. `ioBuf` holds zeros, and in the first round the sector.
unfoldable pub write_loop :
    (fuel : ℕ)
    → (first_write_block : Bool) → Disk
    → (all_blocks : List ℕ) → (size fd_pos : ℕ) → (src : List ℕ) → Option (Disk × (ℕ × ℕ))
write_loop zero first_write_block disk all_blocks size fd_pos src =
    if length src == 0 then some (disk, (size, fd_pos)) else none
write_loop (suc f) first_write_block disk all_blocks size fd_pos src =
    let chunk = min (length src) (512 - size % 512) in
    let round = (do
      lba ← get_elem? all_blocks (size / 512)
      io_buf ← (if first_write_block then ide_read disk lba else some blank_sector)
      disk' ← ide_write disk lba (overwrite (size % 512) (take chunk src) io_buf)
      write_loop f false disk' all_blocks (u32 (size + chunk)) (u32 (fd_pos + chunk))
          (drop chunk src)) in
    if length src == 0 then some (disk, (size, fd_pos)) else round

-- What `fileWrite` returns, and what it leaves.
pub record WriteResult : Type 0 where
  pub returned : ℤ
  pub disk : Disk
  pub part : Partition
  pub inode : Inode
  pub fd_pos : ℕ

-- -1 with what has been done so far
abbrev pub gives_up : Writing → (fd_pos : ℕ) → WriteResult
gives_up w fd_pos = record {
  returned = negsuc 0;
  disk = w.disk;
  part = w.part;
  inode = w.inode;
  fd_pos = fd_pos;
}

-- `fileWrite` behind the search for the blocks
unfoldable pub write_found : Attempt → (fd_pos : ℕ) → (src : List ℕ) → Option WriteResult
write_found (out_of_space w) fd_pos src = some (gives_up w fd_pos)
write_found (done w) fd_pos src = do
  (disk1, (size, fd_pos')) ←
      write_loop (length src) true w.disk w.all_blocks w.inode.size
        (u32 (w.inode.size + 2 ^ 32 - 1)) src
  let inode = record w.inode { size = size }
  disk2 ← inode_sync disk1 w.part inode
  some (record {
    returned = pos (length src);
    disk = disk2;
    part = w.part;
    inode = inode;
    fd_pos = fd_pos';
  })

-- `fileWrite` from the first block on
unfoldable pub write_blocks : Attempt → (fd_pos : ℕ) → (src : List ℕ) → Option WriteResult
write_blocks (out_of_space w) fd_pos src = some (gives_up w fd_pos)
write_blocks (done w) fd_pos src = do
  let used = w.inode.size / 512
  let will = u32 (w.inode.size + length src) / 512
  assert (ltb will 140)
  found ← find_blocks w used will
  write_found found fd_pos src

-- `fileWrite`
unfoldable pub file_write :
    Disk
    → Partition
    → Inode
    → (allocated : Bool) → (fd_pos : ℕ) → (src : List ℕ) → Option WriteResult
file_write disk part inode allocated fd_pos src =
    let w : Writing = record { disk = disk; part = part; inode = inode; all_blocks = cleared } in
    if ltb (512 * 140) (u32 (inode.size + length src))
    then some (gives_up w fd_pos)
    else if not allocated
    then some (gives_up w fd_pos)
    else do started ← first_block w; write_blocks started fd_pos src
