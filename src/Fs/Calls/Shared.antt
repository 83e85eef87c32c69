-- ===== src/Fs/Calls/Shared.antt =====
-- fs/fs.c: what a process writes through one descriptor, another reads through its own.
use gogoos.Common.{
  ℕ, ◌+◌, ◌<◌, ◌≡◌, ◌≢◌, refl, ◌∙◌, true, some, List, [], ◌++◌, arith, ==_refl, ==_false, get_elem?,
  length, get_elem?-set_ne,
}
use gogoos.Common.Int.{pos}
use gogoos.Fs.{File}
use gogoos.Fs.OpenFiles.{with_inode, with_file, writes, fd_local_to_global}
use gogoos.Fs.Read.{file_read, ReadResult}
use gogoos.Fs.Read.Result.{slice}
use gogoos.Fs.Write.{WriteResult, file_write}
use gogoos.Fs.Write.Space.{HasRoom, IsLayout}
use gogoos.Fs.Write.Found.{IsHome}
use gogoos.Fs.Write.Small.{HasBlocksUpTo}
use gogoos.Fs.Write.RoundTrip.{new_blocks, file_write-IsWritten}
use gogoos.Fs.Calls.{FileSystem, Written, ReadBack, write_file, sys_write, read_file, sys_read}

-- The descriptor names slot `slot` of the table of files, which holds `file`.
pub record IsOpen (fs : FileSystem) (fd slot : ℕ) (file : File) : Type 0 where
  pub behind : 2 < fd
  pub global : fd_local_to_global fs.files fd ≡ some slot
  pub entry : get_elem? fs.files.file_table slot ≡ some file
  pub used : file.fd_inode ≢ 0

-- the state behind a write
abbrev pub after_write : FileSystem → (slot : ℕ) → File → WriteResult → FileSystem
after_write fs slot wf r = record {
  disk = r.disk;
  part = r.part;
  files =
      with_file (with_inode fs.files wf.fd_inode r.inode) slot (record wf { fd_pos = r.fd_pos });
}

sys_write-file_write :
    (fs : FileSystem) (fd slot : ℕ) (wf : File) (buf : List ℕ) (r : WriteResult)
    → IsOpen fs fd slot wf
    → writes wf.fd_flag ≡ true
    → file_write fs.disk fs.part (fs.files.inodes wf.fd_inode) true wf.fd_pos buf ≡ some r
    → sys_write fs (pos fd) true buf
      ≡ some (record { returned = r.returned; fs = after_write fs slot wf r; console = [] })
unfolding sys_write write_file
sys_write-file_write fs fd slot wf buf r v flag run =
    let behind = v.behind in
    rw
      (
        ==_false fd 1 (omega (arith, behind)),
        ==_false fd 2 (omega (arith, behind)),
        v.global,
        v.entry,
        flag,
        ==_false wf.fd_inode 0 v.used,
        run,
      )
      refl

sys_read-file_read :
    (fs : FileSystem) (keyboard : List ℕ) (fd slot : ℕ) (file : File) (count : ℕ) (r : ReadResult)
    → IsOpen fs fd slot file
    → file_read fs.disk (fs.files.inodes file.fd_inode) true file.fd_pos count ≡ some r
    → sys_read fs keyboard (pos fd) true count
      ≡ some (record {
        returned = r.returned;
        fs = record fs { files = with_file fs.files slot (record file { fd_pos = r.fd_pos }) };
        bytes = r.bytes;
      })
unfolding sys_read read_file
sys_read-file_read fs keyboard fd slot file count r v run =
    let behind = v.behind in
    rw
      (
        ==_false fd 1 (omega (arith, behind)),
        ==_false fd 2 (omega (arith, behind)),
        ==_false fd 0 (omega (arith, behind)),
        v.global,
        v.entry,
        ==_false file.fd_inode 0 v.used,
        run,
      )
      refl

-- Behind a write, the other descriptor is as it was.
after_write-IsOpen :
    (fs : FileSystem) (fd slot fd' slot' : ℕ) (wf file : File) (r : WriteResult)
    → IsOpen fs fd' slot' file
    → slot ≢ slot'
    → IsOpen (after_write fs slot wf r) fd' slot' file
unfolding fd_local_to_global
after_write-IsOpen fs fd slot fd' slot' wf file r v ne = record {
  behind = v.behind;
  global = v.global;
  entry =
      get_elem?-set_ne fs.files.file_table slot slot' (record wf { fd_pos = r.fd_pos }) ne
      ∙ v.entry;
  used = v.used;
}

-- Two descriptors, of two slots, name one inode.
pub record IsShared (fs : FileSystem) (fd slot : ℕ) (wf : File) (fd' slot' : ℕ) (file : File)
    : Type 0 where
  pub writer : IsOpen fs fd slot wf
  pub reader : IsOpen fs fd' slot' file
  pub apart : slot ≢ slot'
  pub one_inode : file.fd_inode ≡ wf.fd_inode
  pub writable : writes wf.fd_flag ≡ true
  pub rewound : file.fd_pos ≡ 0

-- `sysWrite` through a descriptor that may write returns the count where `fileWrite` can put all the bytes into the
-- direct blocks; and `sysRead` through another descriptor of the same inode, which stands at the start, then
-- returns the old bytes and the new ones behind them.
pub sys_write-sys_read :
    (fs : FileSystem) (keyboard : List ℕ) (fd slot fd' slot' b : ℕ) (wf file : File) (buf : List ℕ)
    → IsShared fs fd slot wf fd' slot' file
    → IsHome fs.disk fs.part (fs.files.inodes wf.fd_inode)
    → IsLayout fs.part
    → HasBlocksUpTo fs.part (fs.files.inodes wf.fd_inode) b
    → (fs.files.inodes wf.fd_inode).size + length buf < 6144
    → HasRoom fs.part.block_bit_map (new_blocks (fs.files.inodes wf.fd_inode) b buf)
    → (w : Written) × (r : ReadBack) × (sys_write fs (pos fd) true buf ≡ some w)
      × (sys_read w.fs keyboard (pos fd') true ((fs.files.inodes wf.fd_inode).size + length buf)
          ≡ some r)
      × (w.returned ≡ pos (length buf))
      × (r.bytes
          ≡ slice fs.disk (fs.files.inodes wf.fd_inode) 0 (fs.files.inodes wf.fd_inode).size ++ buf)
sys_write-sys_read fs keyboard fd slot fd' slot' b wf file buf v home lay blocks few space =
    let inode = fs.files.inodes wf.fd_inode in
    let (r, run, written) =
      file_write-IsWritten fs.disk fs.part inode b wf.fd_pos buf home lay blocks few space in
    let reader = after_write-IsOpen fs fd slot fd' slot' wf file r v.reader v.apart in
    let same : (after_write fs slot wf r).files.inodes file.fd_inode ≡ r.inode =
      rw (v.one_inode, ==_refl wf.fd_inode) refl in
    let all : ReadResult = record {
      returned = pos (inode.size + length buf);
      bytes = slice fs.disk inode 0 inode.size ++ buf;
      fd_pos = inode.size + length buf;
    } in
    let reads : file_read r.disk ((after_write fs slot wf r).files.inodes file.fd_inode) true
          file.fd_pos (inode.size + length buf)
        ≡ some all =
      rw (same, v.rewound) written.reads in
    (
      _,
      _,
      sys_write-file_write fs fd slot wf buf r v.writer v.writable run,
      sys_read-file_read (after_write fs slot wf r) keyboard fd' slot' file
          (inode.size + length buf) all reader reads,
      written.returned_all,
      refl,
    )
