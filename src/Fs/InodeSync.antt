-- ===== src/Fs/InodeSync.antt =====
-- fs/inode.c, `inodeSync` and `inodeRelease`. The bytes of an inode are its fields in order; the padding
-- behind `writeDeny` is taken to be zero.
pub mod Table
pub mod Written
pub mod RoundTrip
mod Tests
use gogoos.Common.{
  ℕ, ◌+◌, ◌-◌, ◌^◌, Bool, true, false, Option, some, List, [], ◌∷◌, ◌++◌, leb, if◌then◌else◌, ◌>>=◌,
  ◌>>◌, assert, overwrite, u32,
}
use gogoos.Fs.{Disk, Inode, ide_read, ide_read2}
use gogoos.Fs.BitMaps.{Partition, ide_write, ide_write2}
use gogoos.Fs.OpenFiles.{InodePosition, inode_locate}
use gogoos.Fs.Sectors.{bytes_of}

-- `pureInode` as the bytes of its `sizeof(Inode)`
abbrev pub inode_bytes : Inode → List ℕ
inode_bytes inode = bytes_of (inode.ino ∷ inode.size ∷ 0 ∷ 0 ∷ (inode.block ++ (0 ∷ 0 ∷ [])))

-- one branch of `inodeSync`: read, copy, write
abbrev pub rewrite_inode :
    (read : Disk → ℕ → Option (List ℕ))
    → (write : Disk → ℕ → List ℕ → Option Disk) → Disk
    → InodePosition
    → Inode
    → Option Disk
rewrite_inode read write disk ip inode = do
  inode_buf ← read disk ip.sec_lba
  write disk ip.sec_lba (overwrite ip.byte_offset (inode_bytes inode) inode_buf)

-- `inodeSync`
unfoldable pub inode_sync : Disk → Partition → Inode → Option Disk
inode_sync disk part inode = do
  ip ← inode_locate part.inode_table_lba_start inode.ino
  assert (leb ip.sec_lba (part.lba_start + part.sec_cnt))
  if ip.cross_sec
      then rewrite_inode ide_read2 ide_write2 disk ip inode
      else rewrite_inode ide_read ide_write disk ip inode
