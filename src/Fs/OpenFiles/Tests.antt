-- ===== src/Fs/OpenFiles/Tests.antt =====
-- fs/fs.c and fs/file.c: a thread with one open file.
use gogoos.Common.{
  ℕ, ◌+◌, ◌-◌, ◌^◌, ◌≡◌, ◌≢◌, refl, sym, ◌∙◌, true, false, some, [], ◌∷◌, ==_false, arith,
  replicate, ◌>>=◌,
}
use gogoos.Common.Int.{pos}
use gogoos.Kernel.Thread.Count.{count}
use gogoos.Fs.OpenFiles.Users.{refs, Held}
use gogoos.Fs.OpenFiles.Reachable.{here, next, closes, Reach-Held}
use gogoos.Fs.{File}
use gogoos.Fs.OpenFiles.{
  Files, with_file, with_inode, fd_local_to_global, in_table, sys_lseek, file_close, inode_close,
}
use gogoos.Fs.OpenFiles.Seek.{answer, sought, sys_lseek-sought}

abbrev a_file : File
a_file = record { fd_pos = 40; fd_flag = 1; fd_inode = 7 }

-- descriptor 3 stands for slot 3, whose inode is at place 7 and is open for another descriptor, too
abbrev one_open : Files
one_open = record {
  inodes = λ p. record { ino = p; size = 100; open_cnt = 2; write_deny = true; block = [] };
  open_inodes = 7 ∷ [];
  file_table = a_file ∷ a_file ∷ a_file ∷ a_file ∷ [];
  fd_table = pos 0 ∷ pos 1 ∷ pos 2 ∷ pos 3 ∷ [];
}

slot_three : fd_local_to_global one_open 3 ≡ some 3
unfolding fd_local_to_global in_table
slot_three = refl

-- ten bytes back from the end
sys_lseek-sought_example :
    sys_lseek one_open (pos 3) (2 ^ 32 - 10) 3
    ≡ some (answer one_open 3 a_file (sought 100 100 (2 ^ 32 - 10)))
sys_lseek-sought_example =
    sys_lseek-sought one_open 3 3 a_file (2 ^ 32 - 10) 3 slot_three refl (λ q. omega (arith, q))
      (omega arith) (omega arith) (omega arith) (omega arith) (omega arith)

-- The other descriptor is still open, but the inode may be written again.
write_deny_test : (file_close one_open 3 >>= λ m. some (m.inodes 7).write_deny) ≡ some false
unfolding file_close inode_close
write_deny_test = refl

abbrev unused : File
unused = record { fd_pos = 0; fd_flag = 0; fd_inode = 0 }

-- slot 3 of the table names the inode at place 7, which has no other user
abbrev lone : Files
lone = record {
  inodes = λ p. record { ino = p; size = 100; open_cnt = 1; write_deny = true; block = [] };
  open_inodes = 7 ∷ [];
  file_table = unused ∷ unused ∷ unused ∷ a_file ∷ replicate 28 unused;
  fd_table = pos 0 ∷ pos 1 ∷ pos 2 ∷ pos 3 ∷ [];
}

lone_users : (p : ℕ) → p ≢ 0 → refs p lone.file_table + 0 ≡ count p (7 ∷ [])
unfolding refs count
lone_users p ne = rw (==_false 0 p (λ e. ne (sym e))) (omega arith)

lone-Held : Held (λ p. 0) lone
unfolding count
lone-Held = record {
  size = refl;
  counted = record {
    once = λ p. ground arith;
    no_user = λ p ne c. lone_users p ne ∙ c;
    counted = λ p c.
        let ne : p ≢ 0 = ground arith in
        (ne, sym (lone_users p ne ∙ c), omega (arith, lone_users p ne, c));
    few = λ p ne. ground (arith, lone_users p ne);
  };
}

abbrev closed : Files
closed =
    with_file (inode_close (with_inode lone 7 (record (lone.inodes 7) { write_deny = false })) 7) 3
      (record a_file { fd_inode = 0 })

close_lone : file_close lone 3 ≡ some closed
unfolding file_close
close_lone = refl

Reach-Held_example : Held (λ p. 0) closed
Reach-Held_example =
    Reach-Held (λ p. 0) (λ p ne. omega arith) lone-Held (next here (closes 3 close_lone))
