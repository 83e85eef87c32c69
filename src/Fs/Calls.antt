-- ===== src/Fs/Calls.antt =====
-- fs/fs.c, `sysWrite` and `sysRead`. What is written to the console, and the characters that the keyboard
-- gives to `ioQueueGetChar`, are values, messages to the
-- user are left out, and whether the memory can be had is an argument.
pub mod Shared
mod Tests
use gogoos.Common.{
  ℕ, zero, suc, ◌+◌, ◌-◌, Bool, true, false, not, ◌||◌, Option, none, some, List, [], ◌∷◌, ◌++◌,
  leb, ◌==◌, if◌then◌else◌, ◌>>=◌, ◌>>◌, assert, get_elem?, length, take, zeros,
}
use gogoos.Common.Int.{ℤ, pos, negsuc}
use gogoos.Fs.{Disk}
use gogoos.Fs.BitMaps.{Partition}
use gogoos.Fs.OpenFiles.{Files, with_inode, with_file, writes, fd_local_to_global}
use gogoos.Fs.Read.{file_read}
use gogoos.Fs.Write.{file_write}

-- the disk, the partition `curPart` and the open files
pub record FileSystem : Type 0 where
  pub disk : Disk
  pub part : Partition
  pub files : Files

-- `consolePutString` of a buffer puts out what stands before the NUL, and reads behind a buffer without one.
unfoldable pub until_nul : List ℕ → Option (List ℕ)
until_nul [] = none
until_nul (c ∷ cs) = if c == 0 then some [] else do rest ← until_nul cs; some (c ∷ rest)

-- `sysWrite` to stdout and stderr, through `tmpBuf`
unfoldable pub put_console : (buf : List ℕ) → Option (List ℕ)
put_console buf = do assert (leb (length buf) 1024); until_nul (buf ++ zeros (1024 - length buf))

-- what `sysWrite` returns, leaves, and puts on the console
pub record Written : Type 0 where
  pub returned : ℤ
  pub fs : FileSystem
  pub console : List ℕ

-- `sysWrite` to a file
unfoldable pub write_file :
    FileSystem → (fd : ℕ) → (allocated : Bool) → (buf : List ℕ) → Option Written
write_file fs fd allocated buf = do
  slot ← fd_local_to_global fs.files fd
  wf ← get_elem? fs.files.file_table slot
  if not (writes wf.fd_flag)
      then some (record { returned = negsuc 0; fs = fs; console = [] })
      else do
        assert (not (wf.fd_inode == 0))
        r ← file_write fs.disk fs.part (fs.files.inodes wf.fd_inode) allocated wf.fd_pos buf
        some (record {
          returned = r.returned;
          fs = record {
            disk = r.disk;
            part = r.part;
            files =
                with_file (with_inode fs.files wf.fd_inode r.inode) slot
                  (record wf { fd_pos = r.fd_pos });
          };
          console = [];
        })

-- `sysWrite`
unfoldable pub sys_write :
    FileSystem → (fd : ℤ) → (allocated : Bool) → (buf : List ℕ) → Option Written
sys_write fs (negsuc n) allocated buf = some (record { returned = negsuc 0; fs = fs; console = [] })
sys_write fs (pos fd) allocated buf =
    if (fd == 1) || (fd == 2)
    then (do
      console ← put_console buf
      some (record { returned = pos (length buf); fs = fs; console = console }))
    else write_file fs fd allocated buf

-- what `sysRead` returns, leaves, and puts at `buf`
pub record ReadBack : Type 0 where
  pub returned : ℤ
  pub fs : FileSystem
  pub bytes : List ℕ

-- `sysRead` from a file
unfoldable pub read_file :
    FileSystem → (fd : ℕ) → (allocated : Bool) → (count : ℕ) → Option ReadBack
read_file fs fd allocated count = do
  slot ← fd_local_to_global fs.files fd
  file ← get_elem? fs.files.file_table slot
  assert (not (file.fd_inode == 0))
  r ← file_read fs.disk (fs.files.inodes file.fd_inode) allocated file.fd_pos count
  some (record {
    returned = r.returned;
    fs = record fs { files = with_file fs.files slot (record file { fd_pos = r.fd_pos }) };
    bytes = r.bytes;
  })

-- `sysRead` from the keyboard, where `keyboard` is what it is going to give
unfoldable pub read_keyboard : FileSystem → (keyboard : List ℕ) → (count : ℕ) → Option ReadBack
read_keyboard fs keyboard count = do
  assert (leb count (length keyboard))
  some (record {
    returned = if count == 0 then negsuc 0 else pos count;
    fs = fs;
    bytes = take count keyboard;
  })

-- `sysRead`
unfoldable pub sys_read :
    FileSystem → (keyboard : List ℕ) → (fd : ℤ) → (allocated : Bool) → (count : ℕ) → Option ReadBack
sys_read fs keyboard (negsuc n) allocated count =
    some (record { returned = negsuc 0; fs = fs; bytes = [] })
sys_read fs keyboard (pos fd) allocated count =
    if (fd == 1) || (fd == 2)
    then some (record { returned = negsuc 0; fs = fs; bytes = [] })
    else if fd == 0
    then read_keyboard fs keyboard count
    else read_file fs fd allocated count
