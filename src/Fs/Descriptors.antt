-- ===== src/Fs/Descriptors.antt =====
-- fs/file.c, the two tables of descriptors: `getFreeSlotInGlobal` and `pcbFdInstall`. Both search
-- from slot 3 on, behind the standard streams.
pub mod Slots
mod Tests
use gogoos.Common.{
  ℕ, zero, suc, ◌+◌, Bool, true, false, Option, none, some, List, ◌==◌, if◌then◌else◌, ◌>>=◌,
  get_elem?, set,
}
use gogoos.Common.Int.{ℤ, pos, negsuc}
use gogoos.Fs.{File}

abbrev pub max_file_open_all : ℕ
max_file_open_all = 32

abbrev pub max_file_open_per_proc : ℕ
max_file_open_per_proc = 7

-- The loop that both have: the first slot from `idx` on that `free` accepts, or the bound, which is
-- `rounds` slots on.
pub first_slot {ℓ} : {A : Type ℓ} → (free : A → Bool) → List A → (rounds idx : ℕ) → Option ℕ
first_slot free table zero idx = some idx
first_slot free table (suc rounds) idx = do
  entry ← get_elem? table idx
  let rest = first_slot free table rounds (idx + 1)
  if free entry then some idx else rest

-- `fdInode == NULL`
abbrev pub is_unused : File → Bool
is_unused file = file.fd_inode == 0

-- `fdTable[localFdIdx] == -1`
abbrev pub is_minus_one : ℤ → Bool
is_minus_one (pos n) = false
is_minus_one (negsuc n) = n == 0

-- `getFreeSlotInGlobal`
pub get_free_slot_in_global : (file_table : List File) → Option ℤ
get_free_slot_in_global file_table = do
  fd_idx ← first_slot is_unused file_table 29 3
  some (if fd_idx == max_file_open_all then negsuc 0 else pos fd_idx)

-- `pcbFdInstall` returns the local descriptor and the table of the process as it leaves it.
pub pcb_fd_install : (fd_table : List ℤ) → (global_fd_idx : ℤ) → Option (ℤ × List ℤ)
pcb_fd_install fd_table global_fd_idx = do
  local ← first_slot is_minus_one fd_table 4 3
  some (
      if local == max_file_open_per_proc
      then (negsuc 0, fd_table)
      else (pos local, set fd_table local global_fd_idx))
