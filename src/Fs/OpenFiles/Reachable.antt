-- ===== src/Fs/OpenFiles/Reachable.antt =====
-- fs/file.c: all opens and closes of files, in any order.
use mathlib.Core.Option.{some-injective}
use gogoos.Common.{
  ℕ, ◌^◌, ◌<◌, ◌≡◌, ◌≢◌, sym, ◌∙◌, true, not, some, ◌==◌, arith, >>=-eq-some, assert-eq-some,
  get_elem?,
}
use gogoos.Common.Int.{ℤ}
use gogoos.Kernel.Thread.Count.{count}
use gogoos.Fs.{Disk}
use gogoos.Fs.OpenFiles.{Files, file_open, file_close}
use gogoos.Fs.OpenFiles.Users.{Held, file_open-Held, file_close-Held}

-- A file is opened, with a place that is not in use, or closed.
pub data Step (m : Files) : Files → Type 0 where
  opens :
      {m' : Files} (disk : Disk) (inode_table_lba fresh ino flag : ℕ) (fd : ℤ)
      → fresh ≢ 0
      → count fresh m.open_inodes ≡ 0
      → file_open disk inode_table_lba fresh m ino flag ≡ some (fd, m')
      → Step m m'
  closes : {m' : Files} (slot : ℕ) → file_close m slot ≡ some m' → Step m m'

pub data Reach (m : Files) : Files → Type 0 where
  here : Reach m m
  next : {u w : Files} → Reach m u → Step u w → Reach m w

Step-Held :
    (others : ℕ → ℕ)
    → ((p : ℕ) → p ≢ 0 → others p < 2 ^ 20)
    → {m m' : Files} → Step m m'
    → Held others m
    → Held others m'
unfolding file_close
Step-Held others bound {m = m} {m' = m'} (opens disk lba fresh ino flag fd new absent run) h =
    file_open-Held others bound disk lba fresh m m' ino flag fd h new absent run
Step-Held others bound {m = m} {m' = m'} (closes slot run) h =
    let (file, at, e) = >>=-eq-some (get_elem? m.file_table slot) _ run in
    let (used, e1) = assert-eq-some (not (file.fd_inode == 0)) _ e in
    let (w, run', held) =
      file_close-Held others bound m slot file h at (λ z. in_use file.fd_inode used z) in
    rw (some-injective _ _ (sym run ∙ run')) held
  where
    in_use : (n : ℕ) → not (n == 0) ≡ true → n ≢ 0
    in_use n t z = ground arith

-- Where directories use no inode 2 ^ 20 times or more, in every state that opening and closing files
-- reach from a state of the invariant, every inode that is in memory counts exactly its users: the
-- entries of the file table that name it, and the directories. No other place has users, and no
-- inode is in the list twice.
pub Reach-Held :
    (others : ℕ → ℕ) {m m' : Files}
    → ((p : ℕ) → p ≢ 0 → others p < 2 ^ 20)
    → Held others m
    → Reach m m'
    → Held others m'
Reach-Held others bound h here = h
Reach-Held others bound h (next r st) = Step-Held others bound st (Reach-Held others bound h r)
