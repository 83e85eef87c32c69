-- ===== src/Fs/Calls/Tests.antt =====
-- fs/fs.c: two descriptors of a small file.
use gogoos.Common.{◌≡◌, inl, refl, true, some, [], ◌∷◌, ◌++◌, arith}
use gogoos.Common.Int.{pos}
use gogoos.Fs.{File}
use gogoos.Fs.OpenFiles.{fd_local_to_global, in_table}
use gogoos.Fs.Read.Result.{slice}
use gogoos.Fs.Write.Sample.{
  part, nines, short, short-IsHome, part-IsLayout, short-HasDirect, part-HasRoom,
}
use gogoos.Fs.Calls.{FileSystem, Written, ReadBack, sys_write, sys_read}
use gogoos.Fs.Calls.Shared.{IsShared, sys_write-sys_read}

abbrev unused : File
unused = record { fd_pos = 0; fd_flag = 0; fd_inode = 0 }

-- O_WRONLY
abbrev writer : File
writer = record { fd_pos = 0; fd_flag = 1; fd_inode = 9 }

abbrev reader : File
reader = record { fd_pos = 0; fd_flag = 0; fd_inode = 9 }

-- the descriptors 3 and 4 are the slots 3 and 5 of the table
abbrev opened : FileSystem
opened = record {
  disk = nines;
  part = part;
  files = record {
    inodes = λ p. short;
    open_inodes = 9 ∷ [];
    file_table = unused ∷ unused ∷ unused ∷ writer ∷ unused ∷ reader ∷ [];
    fd_table = pos 0 ∷ pos 1 ∷ pos 2 ∷ pos 3 ∷ pos 5 ∷ [];
  };
}

opened-IsShared : IsShared opened 3 3 writer 4 5 reader
unfolding fd_local_to_global in_table
opened-IsShared = record {
  writer = record { behind = omega arith; global = refl; entry = refl; used = λ e. omega arith };
  reader = record { behind = omega arith; global = refl; entry = refl; used = λ e. omega arith };
  apart = λ e. omega arith;
  one_inode = refl;
  writable = refl;
  rewound = refl;
}

sys_write-sys_read_example :
    (w : Written) × (r : ReadBack) × (sys_write opened (pos 3) true (1 ∷ 2 ∷ 3 ∷ 4 ∷ []) ≡ some w)
    × (sys_read w.fs [] (pos 4) true 514 ≡ some r)
    × (w.returned ≡ pos 4)
    × (r.bytes ≡ slice nines short 0 510 ++ (1 ∷ 2 ∷ 3 ∷ 4 ∷ []))
sys_write-sys_read_example =
    sys_write-sys_read opened [] 3 3 4 5 1 writer reader (1 ∷ 2 ∷ 3 ∷ 4 ∷ []) opened-IsShared
      short-IsHome part-IsLayout (short-HasDirect, inl refl) (omega arith) part-HasRoom
