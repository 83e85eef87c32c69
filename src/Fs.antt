-- ===== src/Fs.antt =====
-- fs: the disk, inodes and open files. A disk is its sectors, lists of 512 bytes, by number; what
-- the drive and device/ide.c do to read one is not modelled here, but for the bound on its number.
pub mod BitMaps
pub mod Calls
pub mod Descriptors
pub mod Dir
pub mod InodeSync
pub mod OpenFiles
pub mod PathName
pub mod Read
pub mod Release
pub mod Sectors
pub mod Write
use gogoos.Common.{
  ℕ, ◌+◌, ◌*◌, ◌-◌, ◌/◌, Bool, true, Option, none, some, List, [], ◌∷◌, ◌++◌, ltb, ◌>>=◌, ◌>>◌,
  assert,
}

abbrev pub sector_byte_size : ℕ
sector_byte_size = 512

-- `MAX_LBA`
abbrev pub max_lba : ℕ
max_lba = 80 * 1024 * 1024 / 512 - 1

abbrev pub Disk : Type 0
Disk = ℕ → List ℕ

-- `ideRead` of one sector
unfoldable pub ide_read : Disk → ℕ → Option (List ℕ)
ide_read disk lba = do assert (ltb lba max_lba); some (disk lba)

-- `ideRead` of two sectors
unfoldable pub ide_read2 : Disk → ℕ → Option (List ℕ)
ide_read2 disk lba = do assert (ltb lba max_lba); some (disk lba ++ disk (lba + 1))

-- a sector as `uint32` numbers, the low byte first
abbrev pub words : List ℕ → List ℕ
words (a ∷ b ∷ c ∷ d ∷ rest) = (a + 256 * b + 65536 * c + 16777216 * d) ∷ words rest
words rest = []

-- `struct inode`: `block` holds twelve sectors of the file and the sector of its table.
pub record Inode : Type 0 where
  pub ino : ℕ
  pub size : ℕ
  pub open_cnt : ℕ
  pub write_deny : Bool
  pub block : List ℕ

-- `File`; `fdInode` is a place in the memory of inodes, 0 is NULL
pub record File : Type 0 where
  pub fd_pos : ℕ
  pub fd_flag : ℕ
  pub fd_inode : ℕ
