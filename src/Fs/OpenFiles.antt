-- ===== src/Fs/OpenFiles.antt =====
-- fs/inode.c, fs/file.c and fs/fs.c: inodes in the memory and the files that use them. `inodes` is the
-- memory of inodes by their places, and `open_inodes` the list of the partition, which holds places.
-- sysMalloc is the place that it answers, the argument `fresh`. A descriptor is an `int32` that is not
-- negative; other integers are patterns of 32 bits.
pub mod Counts
pub mod Seek
pub mod Users
pub mod Reachable
mod Tests
use gogoos.Common.{
  ℕ, zero, suc, ◌+◌, ◌-◌, ◌*◌, ◌/◌, ◌%◌, ◌^◌, Bool, true, false, not, ◌||◌, ◌&&◌, Option, none,
  some, List, [], ◌∷◌, ◌++◌, ltb, leb, ◌==◌, if◌then◌else◌, ◌>>=◌, ◌>>◌, assert, get_elem?, set,
  take, drop, replicate, u32, minus_one,
}
use gogoos.Common.Int.{ℤ, pos, negsuc}
use gogoos.Fs.{Disk, Inode, File, ide_read, ide_read2, words}
use gogoos.Fs.Descriptors.{get_free_slot_in_global, pcb_fd_install, max_file_open_all}

pub record InodePosition : Type 0 where
  pub cross_sec : Bool
  pub sec_lba : ℕ
  pub byte_offset : ℕ

-- `sizeof(Inode)`
abbrev pub inode_size : ℕ
inode_size = 76

-- `inodeLocate`
unfoldable pub inode_locate : (inode_table_lba ino : ℕ) → Option InodePosition
inode_locate inode_table_lba ino = do
  assert (ltb ino 4096)
  let offset = ino * inode_size
  some (record {
    cross_sec = ltb (512 - offset % 512) inode_size;
    sec_lba = inode_table_lba + offset / 512;
    byte_offset = offset % 512;
  })

-- An inode out of its bytes: `writeDeny` is one byte, and `block` begins at byte 16.
unfoldable pub inode_of : List ℕ → Option Inode
inode_of bytes = do
  ino ← get_elem? (words bytes) 0
  size ← get_elem? (words bytes) 1
  open_cnt ← get_elem? (words bytes) 2
  write_deny ← get_elem? bytes 12
  some (record {
    ino = ino;
    size = size;
    open_cnt = open_cnt;
    write_deny = not (write_deny == 0);
    block = take 13 (words (drop 16 bytes));
  })

-- what `inodeOpen` reads: one sector or two
unfoldable pub read_inode : Disk → InodePosition → Option Inode
read_inode disk ip = do
  buf ← (if ip.cross_sec then ide_read2 disk ip.sec_lba else ide_read disk ip.sec_lba)
  inode_of (take inode_size (drop ip.byte_offset buf))

-- `fileTable`, `fdTable` of the current thread, and the inodes of the partition
pub record Files : Type 0 where
  pub inodes : ℕ → Inode
  pub open_inodes : List ℕ
  pub file_table : List File
  pub fd_table : List ℤ

abbrev pub with_inode : Files → (at : ℕ) → Inode → Files
with_inode m at inode = record m { inodes = λ p. if p == at then inode else m.inodes p }

-- The loop of `inodeOpen`: the first inode of the list with the number.
unfoldable pub find_inode : (ℕ → Inode) → List ℕ → (ino : ℕ) → Option ℕ
find_inode inodes [] ino = none
find_inode inodes (at ∷ rest) ino =
    let next = find_inode inodes rest ino in if (inodes at).ino == ino then some at else next

abbrev pub reopened : Files → (at : ℕ) → Files
reopened m at =
    with_inode m at (record (m.inodes at) { open_cnt = u32 ((m.inodes at).open_cnt + 1) })

-- `inodeOpen` behind the loop: the inode is read, and put in front of the list. `fresh` is what `sysMalloc` gives for
-- it, which is written through untested; the allocation of the buffer for the sectors succeeds.
pub load_inode : Disk → (inode_table_lba fresh : ℕ) → Files → (ino : ℕ) → Option (ℕ × Files)
load_inode disk inode_table_lba fresh m ino = do
  ip ← inode_locate inode_table_lba ino
  assert (not (fresh == 0))
  inode ← read_inode disk ip
  some (
    fresh,
    record (with_inode m fresh (record inode { open_cnt = 1 })) {
      open_inodes = fresh ∷ m.open_inodes;
    },
  )

-- `inodeOpen` returns the place.
unfoldable pub inode_open :
    Disk → (inode_table_lba fresh : ℕ) → Files → (ino : ℕ) → Option (ℕ × Files)
inode_open disk inode_table_lba fresh m ino = elim (find_inode m.inodes m.open_inodes ino) [
  | some at ↦ some (at, reopened m at)
  | none ↦ load_inode disk inode_table_lba fresh m ino
]

-- `listRemove` of the element at a place
pub without : List ℕ → (at : ℕ) → List ℕ
without [] at = []
without (p ∷ rest) at = let r = without rest at in if p == at then rest else p ∷ r

-- `inodeClose`
pub inode_close : Files → (at : ℕ) → Files
inode_close m at =
    let cnt = u32 ((m.inodes at).open_cnt + 2 ^ 32 - 1) in
    let m' = with_inode m at (record (m.inodes at) { open_cnt = cnt }) in
    if cnt == 0 then record m' { open_inodes = without m'.open_inodes at } else m'

-- `inodeInit`; the list element stays as it is
pub inode_init : ℕ → Inode
inode_init ino = record {
  ino = ino;
  size = 0;
  open_cnt = 0;
  write_deny = false;
  block = replicate 13 0;
}

-- flag & O_WRONLY || flag & O_RDWR
abbrev pub writes : ℕ → Bool
writes flag = (flag % 2 == 1) || (flag / 2 % 2 == 1)

abbrev pub with_file : Files → (slot : ℕ) → File → Files
with_file m slot file = record m { file_table = set m.file_table slot file }

-- `pcbFdInstall` on the table of the thread
pub install_fd : Files → (slot : ℕ) → Option (ℤ × Files)
install_fd m slot = do
  (fd, table) ← pcb_fd_install m.fd_table (pos slot)
  some (fd, record m { fd_table = table })

-- `fileOpen` from the tests of the flags on
pub deny_writers : Files → (slot at flag : ℕ) → Option (ℤ × Files)
deny_writers m slot at flag =
    let mine = with_inode m at (record (m.inodes at) { write_deny = true }) in
    let refused =
      with_file (inode_close m at) slot (record { fd_pos = 0; fd_flag = flag; fd_inode = 0 }) in
    if not (writes flag)
    then install_fd m slot
    else if (m.inodes at).write_deny
    then some (negsuc 0, refused)
    else install_fd mine slot

-- `fileOpen` with what `getFreeSlotInGlobal` answers
pub open_at :
    Disk → (inode_table_lba fresh : ℕ) → Files → (ino flag : ℕ) → (fd_idx : ℤ) → Option (ℤ × Files)
open_at disk inode_table_lba fresh m ino flag (negsuc n) = some (negsuc 0, m)
open_at disk inode_table_lba fresh m ino flag (pos slot) = do
  (at, m1) ← inode_open disk inode_table_lba fresh m ino
  deny_writers (with_file m1 slot (record { fd_pos = 0; fd_flag = flag; fd_inode = at })) slot at
      flag

-- `fileOpen` returns the descriptor, or -1.
pub file_open : Disk → (inode_table_lba fresh : ℕ) → Files → (ino flag : ℕ) → Option (ℤ × Files)
file_open disk inode_table_lba fresh m ino flag = do
  fd_idx ← get_free_slot_in_global m.file_table
  open_at disk inode_table_lba fresh m ino flag fd_idx

-- `fileClose` of a slot of the table
pub file_close : Files → (slot : ℕ) → Option Files
file_close m slot = do
  file ← get_elem? m.file_table slot
  assert (not (file.fd_inode == 0))
  let m1 = with_inode m file.fd_inode (record (m.inodes file.fd_inode) { write_deny = false })
  some (with_file (inode_close m1 file.fd_inode) slot (record file { fd_inode = 0 }))

-- ASSERT(globalFd >= 0 && globalFd < MAX_FILE_OPEN_ALL)
unfoldable pub in_table : ℤ → Option ℕ
in_table (pos g) = do assert (ltb g max_file_open_all); some g
in_table (negsuc n) = none

-- `fdLocalToGlobal`
unfoldable pub fd_local_to_global : Files → (local_fd : ℕ) → Option ℕ
fd_local_to_global m local_fd = do fd ← get_elem? m.fd_table local_fd; in_table fd

-- `sysClose` returns 0 or -1.
pub sys_close : Files → (fd : ℤ) → Option (ℤ × Files)
sys_close m (negsuc n) = some (negsuc 0, m)
sys_close m (pos fd) = if not (ltb 2 fd) then some (negsuc 0, m) else do
  global_fd ← fd_local_to_global m fd
  m' ← file_close m global_fd
  some (pos 0, record m' { fd_table = set m'.fd_table fd (negsuc 0) })

-- a < b of `int32`
abbrev pub signed_lt : ℕ → ℕ → Bool
signed_lt a b = ltb (u32 (a + 2 ^ 31)) (u32 (b + 2 ^ 31))

-- the switch of `sysLseek`: SEEK_SET, SEEK_CUR and SEEK_END, and no other flag
pub new_pos : (fd_pos size offset seek_flag : ℕ) → Option ℕ
new_pos fd_pos size offset seek_flag =
    if seek_flag == 1
    then some (u32 offset)
    else if seek_flag == 2
    then some (u32 (fd_pos + offset))
    else if seek_flag == 3
    then some (u32 (size + offset))
    else none

-- `sysLseek` returns the position, or -1; the sum is taken to wrap around.
pub sys_lseek : Files → (fd : ℤ) → (offset seek_flag : ℕ) → Option (ℤ × Files)
sys_lseek m (negsuc n) offset seek_flag = some (negsuc 0, m)
sys_lseek m (pos fd) offset seek_flag = do
  assert (ltb 0 seek_flag && ltb seek_flag 4)
  slot ← fd_local_to_global m fd
  file ← get_elem? m.file_table slot
  assert (not (file.fd_inode == 0))
  let size = u32 (m.inodes file.fd_inode).size
  p ← new_pos file.fd_pos size offset seek_flag
  some (
      if signed_lt p 0 || signed_lt (u32 (size + 2 ^ 32 - 1)) p
      then (negsuc 0, m)
      else (pos p, with_file m slot (record file { fd_pos = p })))
