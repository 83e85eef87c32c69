-- ===== src/Fs/OpenFiles/Seek.antt =====
-- fs/fs.c: where `sysLseek` goes.
use gogoos.Common.{
  ℕ, ◌+◌, ◌-◌, ◌^◌, ◌<◌, ◌≡◌, ◌≢◌, ap, ◌&&◌, ◌||◌, Option, none, some, arith, ltb, leb, ◌==◌,
  ==_false, if◌then◌else◌, get_elem?, u32, lt→ltb,
}
use gogoos.Common.Int.{ℤ, pos, negsuc}
use gogoos.Fs.{File}
use gogoos.Fs.OpenFiles.{Files, with_file, fd_local_to_global, signed_lt, new_pos, sys_lseek}

-- the place that a flag counts from: the start, the position, or the end
abbrev pub base : File → (size seek_flag : ℕ) → ℕ
base file size seek_flag =
    if seek_flag == 1 then 0 else if seek_flag == 2 then file.fd_pos else size

-- A place in the file, `offset` on from the base or back from it, or none.
abbrev pub sought : (base size offset : ℕ) → Option ℕ
sought b size offset =
    if ltb offset (2 ^ 31)
    then (if ltb (b + offset) size then some (b + offset) else none)
    else if leb (2 ^ 32 - offset) b && ltb (b - (2 ^ 32 - offset)) size
    then some (b - (2 ^ 32 - offset))
    else none

abbrev pub answer : Files → (slot : ℕ) → File → Option ℕ → ℤ × Files
answer m slot file none = (negsuc 0, m)
answer m slot file (some p) = (pos p, with_file m slot (record file { fd_pos = p }))

refused_or_moved :
    (m : Files) (slot : ℕ) (file : File) (b size offset : ℕ)
    → b < 2 ^ 30
    → size < 2 ^ 30
    → offset < 2 ^ 32
    → (if signed_lt (u32 (b + offset)) 0 || signed_lt (u32 (size + 2 ^ 32 - 1)) (u32 (b + offset))
        then (negsuc 0, m)
        else (pos (u32 (b + offset)), with_file m slot (record file { fd_pos = u32 (b + offset) })))
      ≡ answer m slot file (sought b size offset)
refused_or_moved m slot file b size offset hb hs ho = ground arith

new_pos-base :
    (file : File) (size offset seek_flag : ℕ)
    → 0 < seek_flag
    → seek_flag < 4
    → new_pos file.fd_pos size offset seek_flag ≡ some (u32 (base file size seek_flag + offset))
unfolding new_pos
new_pos-base file size offset seek_flag lo hi = ground arith

-- Of a descriptor that is open on a file, where position and size are below 2 ^ 30, `sysLseek` goes
-- to the place `offset` bytes on from the start, the position or the end, or back from it, if that
-- place is in the file, and returns it; otherwise it returns -1 and changes nothing.
pub sys_lseek-sought :
    (m : Files) (fd slot : ℕ) (file : File) (offset seek_flag : ℕ)
    → fd_local_to_global m fd ≡ some slot
    → get_elem? m.file_table slot ≡ some file
    → file.fd_inode ≢ 0
    → file.fd_pos < 2 ^ 30
    → (m.inodes file.fd_inode).size < 2 ^ 30
    → offset < 2 ^ 32
    → 0 < seek_flag
    → seek_flag < 4
    → sys_lseek m (pos fd) offset seek_flag
      ≡ some (
          answer m slot file (
            sought
              (base file (m.inodes file.fd_inode).size seek_flag)
              (m.inodes file.fd_inode).size
              offset))
unfolding sys_lseek
sys_lseek-sought m fd slot file offset seek_flag local_fd at used hp hs ho lo hi =
    let size = (m.inodes file.fd_inode).size in
    let small : u32 size ≡ size = omega arith in
    let below : base file size seek_flag < 2 ^ 30 = ground arith in
    rw
      (
        lt→ltb 0 seek_flag lo,
        lt→ltb seek_flag 4 hi,
        local_fd,
        at,
        ==_false file.fd_inode 0 used,
        small,
        new_pos-base file size offset seek_flag lo hi,
      )
      (ap some (refused_or_moved m slot file (base file size seek_flag) size offset below hs ho))
