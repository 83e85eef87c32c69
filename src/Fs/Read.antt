-- ===== src/Fs/Read.antt =====
-- fs/file.c, `fileRead`. The list `allBlocks` has 140 entries, which `sysMalloc` has cleared;
-- whether the two allocations succeed is an argument.
pub mod Bytes
pub mod Blocks
pub mod Result
mod Tests
use gogoos.Common.{
  ℕ, zero, suc, ◌+◌, ◌-◌, ◌*◌, ◌/◌, ◌%◌, ◌^◌, ◌<◌, Bool, true, false, not, Option, none, some, List,
  [], ◌∷◌, ◌++◌, ltb, leb, ◌==◌, if◌then◌else◌, ◌>>=◌, ◌>>◌, assert, length, get_elem?, set, take,
  drop, replicate, u32, min,
}
use gogoos.Common.Int.{ℤ, pos, negsuc}
use gogoos.Fs.{Disk, ide_read, words, Inode}

-- while (blockIdx < end) { allBlocks[blockIdx] = block[blockIdx]; blockIdx++; }
pub copy_blocks : (rounds block_idx : ℕ) → (block all_blocks : List ℕ) → Option (List ℕ)
copy_blocks zero block_idx block all_blocks = some all_blocks
copy_blocks (suc n) block_idx block all_blocks = do
  lba ← get_elem? block block_idx
  copy_blocks n (block_idx + 1) block (set all_blocks block_idx lba)

-- ideRead(curPart->disk, block[12], allBlocks + 12, 1)
pub read_table : Disk → (block all_blocks : List ℕ) → Option (List ℕ)
read_table disk block all_blocks = do
  lba ← get_elem? block 12
  sector ← ide_read disk lba
  some (take 12 all_blocks ++ words sector)

-- ASSERT(block[12] != 0)
pub has_table : (block : List ℕ) → Option (Unit {0})
has_table block = do lba ← get_elem? block 12; assert (not (lba == 0))

-- `allBlocks` as `sysMalloc(560)` gives it
pub cleared : List ℕ
cleared = replicate 140 0

-- which entries of `allBlocks` are filled
pub collect_blocks : Disk → (block : List ℕ) → (start end : ℕ) → Option (List ℕ)
collect_blocks disk block start end =
    let all_blocks = cleared in
    if start == end
    then (if ltb end 12
        then copy_blocks 1 end block all_blocks
        else read_table disk block all_blocks)
    else if ltb end 12
    then copy_blocks (end + 1 - start) start block all_blocks
    else if ltb start 12
    then (do
      all_blocks' ← copy_blocks (12 - start) start block all_blocks
      has_table block
      read_table disk block all_blocks')
    else do has_table block; read_table disk block all_blocks

-- The last loop, with the bytes left; it puts out what it copies. Every round copies a byte or
-- more, so as many rounds as bytes are enough.
pub read_loop : (fuel : ℕ) → Disk → (all_blocks : List ℕ) → (fd_pos size_left : ℕ) → Option (List ℕ)
read_loop zero disk all_blocks fd_pos size_left = if size_left == 0 then some [] else none
read_loop (suc f) disk all_blocks fd_pos size_left =
    let chunk = min size_left (512 - fd_pos % 512) in
    let round = (do
      lba ← get_elem? all_blocks (fd_pos / 512)
      sector ← ide_read disk lba
      rest ← read_loop f disk all_blocks (u32 (fd_pos + chunk)) (size_left - chunk)
      some (take chunk (drop (fd_pos % 512) sector) ++ rest)) in
    if size_left == 0 then some [] else round

-- What `fileRead` returns, the bytes that it puts at `buf`, and the position that it leaves.
pub record ReadResult : Type 0 where
  pub returned : ℤ
  pub bytes : List ℕ
  pub fd_pos : ℕ

-- from the allocations on, for the bytes that are there
pub read_bytes : Disk → Inode → (allocated : Bool) → (fd_pos size : ℕ) → Option ReadResult
read_bytes disk inode false fd_pos size =
    some (record { returned = negsuc 0; bytes = []; fd_pos = fd_pos })
read_bytes disk inode true fd_pos size = do
  let start = fd_pos / 512
  let end = u32 (fd_pos + size) / 512
  assert (ltb start 140)
  assert (ltb end 140)
  all_blocks ← collect_blocks disk inode.block start end
  bytes ← read_loop size disk all_blocks fd_pos size
  some (record { returned = pos size; bytes = bytes; fd_pos = u32 (fd_pos + size) })

-- `fileRead`
pub file_read : Disk → Inode → (allocated : Bool) → (fd_pos count : ℕ) → Option ReadResult
file_read disk inode allocated fd_pos count =
    if ltb inode.size (u32 (fd_pos + count))
    then (let size = u32 (inode.size + 2 ^ 32 - fd_pos) in
        if size == 0
        then some (record { returned = negsuc 0; bytes = []; fd_pos = fd_pos })
        else read_bytes disk inode allocated fd_pos size)
    else read_bytes disk inode allocated fd_pos count
