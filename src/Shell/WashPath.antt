-- ===== src/Shell/WashPath.antt =====
-- shell/buildin_cmd.c, `washPath` and `makeClearAbsPath`: a path without "." and "..".
pub mod Stack
pub mod Memory
pub mod Clean
mod Tests
use gogoos.Common.{
  ℕ, zero, suc, Bool, true, false, not, ◌&&◌, Option, none, some, List, [], ◌∷◌, ◌==◌,
  if◌then◌else◌, ◌>>=◌, length, set, get_elem?, replicate,
}
use gogoos.Common.Int.{ℤ, pos, negsuc, is_zero}
use gogoos.CString.{memset, strcmp, strrchr, strcat}
use gogoos.Fs.PathName.{path_parse, parse_next, max_file_name_len}

abbrev pub max_path_len : ℕ
max_path_len = 512

-- the strings "/", "." and ".."
abbrev pub slash : List ℕ
slash = b'/' ∷ 0 ∷ []

abbrev pub dot : List ℕ
dot = b'.' ∷ 0 ∷ []

abbrev pub dot_dot : List ℕ
dot_dot = b'.' ∷ b'.' ∷ 0 ∷ []

-- a byte written through a pointer
pub store : List ℕ → (idx c : ℕ) → Option (List ℕ)
store m idx c = do old ← get_elem? m idx; some (set m idx c)

-- `slashPtr` is the index that `strrchr` finds; NULL is written through
pub cut : (new_abs_path : List ℕ) → Option ℕ → Option (List ℕ)
cut new none = none
cut new (some zero) = store new 1 0
cut new (some (suc i)) = store new (suc i) 0

-- for ".."
pub go_up : List ℕ → Option (List ℕ)
go_up new = do slash_ptr ← strrchr new b'/'; cut new slash_ptr

-- for a name other than "."
pub go_down : (new_abs_path name : List ℕ) → Option (List ℕ)
go_down new name = do
  r ← strcmp new slash
  new' ← (if is_zero r then some new else strcat new slash)
  strcat new' name

-- what a name does to the path
pub walk : (new_abs_path name : List ℕ) → Option (List ℕ)
walk new name = do
  up ← strcmp dot_dot name
  stay ← strcmp dot name
  if is_zero up then go_up new else if is_zero stay then some new else go_down new name

-- The loop. Each round takes a component, so that as many rounds as the path has characters are
-- enough.
pub wash_loop : (fuel : ℕ) → Option (List ℕ) → (name new_abs_path : List ℕ) → Option (List ℕ)
wash_loop zero sub_path name new = none
wash_loop (suc fuel) sub_path [] new = none
wash_loop (suc fuel) sub_path (c ∷ name) new =
    let round = (do
      new' ← walk new (c ∷ name)
      cleared ← memset (c ∷ name) 0 max_file_name_len
      (sub_path', name') ← parse_next sub_path cleared
      wash_loop fuel sub_path' name' new') in
    if c == 0 then some new else round

-- from `newAbsPath[0] = 0` on
pub wash_names : (fuel : ℕ) → Option (List ℕ) → (name new_abs_path : List ℕ) → Option (List ℕ)
wash_names fuel sub_path name new = do
  new1 ← store new 0 0
  new2 ← strcat new1 slash
  wash_loop fuel sub_path name new2

-- `washPath`: the memory at `newAbsPath` as it leaves it
pub wash_path : (old_abs_path new_abs_path : List ℕ) → Option (List ℕ)
wash_path old new = do
  first ← get_elem? old 0
  if not (first == b'/') then some new else do
    (sub_path, name) ← path_parse old (replicate max_path_len 0)
    c ← get_elem? name 0
    if c == 0
        then (do new1 ← store new 0 b'/'; store new1 1 0)
        else wash_names (suc (length old)) sub_path name new

-- `makeClearAbsPath`. The system call `getCwd` is an argument: what it does to the buffer, or
-- `none` inside where it returns NULL.
pub make_clear_abs_path :
    (get_cwd : List ℕ → Option (Option (List ℕ))) → (path final_path : List ℕ) → Option (List ℕ)
make_clear_abs_path get_cwd path final = do
  first ← get_elem? path 0
  abs_path ←
      (if first == b'/'
        then some (replicate max_path_len 0)
        else do answer ← get_cwd (replicate max_path_len 0); with_cwd answer)
  abs_path' ← strcat abs_path path
  wash_path abs_path' final
  where
    with_cwd : Option (List ℕ) → Option (List ℕ)
    with_cwd none = some (replicate max_path_len 0)
    with_cwd (some cwd) = do
      a ← get_elem? cwd 0
      b ← get_elem? cwd 1
      if a == b'/' && b == 0 then some cwd else strcat cwd slash
