-- ===== src/Fs/Write/Limit.antt =====
-- fs/file.c, `fileWrite` at the largest size of a file, 71680 bytes.
use gogoos.Common.{
  ℕ, ◌+◌, ◌^◌, ◌<◌, ◌≡◌, ◌≢◌, refl, Bool, true, false, none, some, List, arith, ==_false, lt→ltb,
  length, get_elem?, u32,
}
use gogoos.Common.Int.{negsuc}
use gogoos.Fs.{Disk, Inode}
use gogoos.Fs.BitMaps.{Partition}
use gogoos.Fs.Write.{first_block, write_blocks, file_write}

-- `fileWrite`, where the sum of the size and the count does not overflow 32 bits, returns -1 and changes nothing
-- if the sum is above 71680, and if the first allocation fails. If the sum is 71680 it does not
-- refuse: the size passes the first test, and with memory, on a file that has a first block, an assertion fails.
pub file_write_limit :
    (disk : Disk) (part : Partition) (inode : Inode) (fd_pos : ℕ) (src : List ℕ)
    → inode.size + length src < 2 ^ 32
    → ((allocated : Bool)
        → 71680 < inode.size + length src
        → file_write disk part inode allocated fd_pos src
          ≡ some (record {
            returned = negsuc 0;
            disk = disk;
            part = part;
            inode = inode;
            fd_pos = fd_pos;
          }))
      × (file_write disk part inode false fd_pos src
          ≡ some (record {
            returned = negsuc 0;
            disk = disk;
            part = part;
            inode = inode;
            fd_pos = fd_pos;
          }))
      × ((lba : ℕ)
          → get_elem? inode.block 0 ≡ some lba
          → lba ≢ 0
          → inode.size + length src ≡ 71680
          → file_write disk part inode true fd_pos src ≡ none)
unfolding file_write first_block write_blocks
file_write_limit disk part inode fd_pos src small =
    let total : u32 (inode.size + length src) ≡ inode.size + length src = omega arith in
    (
      (λ allocated above. rw (total, lt→ltb 71680 (inode.size + length src) above) refl),
      ground arith,
      λ lba first nonzero e.
          let full : u32 (inode.size + length src) ≡ 71680 = omega (arith, e) in
          rw (full, first, ==_false lba 0 nonzero, full) refl,
    )
