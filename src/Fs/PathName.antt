-- ===== src/Fs/PathName.antt =====
-- fs/fs.c, `pathParse` and `pathDepthCnt`. Pointers are as in CString: the memory from them on.
pub mod Components
pub mod Depth
mod Tests
use gogoos.Common.{
  ℕ, zero, suc, ◌+◌, Bool, true, false, ◌||◌, Option, none, some, List, [], ◌∷◌, length, ◌==◌,
  if◌then◌else◌, ◌>>=◌, u32,
}
use gogoos.CString.{memset}

-- while (*(++pathName) == '/');
pub skip_slashes : List ℕ → Option (List ℕ)
skip_slashes [] = none
skip_slashes (c ∷ path) = if c == b'/' then skip_slashes path else some (c ∷ path)

-- The loop that copies a name: the path behind it, and the memory at `nameStore` as it leaves it.
pub copy_name : (path name_store : List ℕ) → Option (List ℕ × List ℕ)
copy_name [] store = none
copy_name (c ∷ path) [] = if c == b'/' || c == 0 then some (c ∷ path, []) else none
copy_name (c ∷ path) (b ∷ store) =
    let copied = (do (path', store') ← copy_name path store; some (path', c ∷ store')) in
    if c == b'/' || c == 0 then some (c ∷ path, b ∷ store) else copied

-- if (pathName[0] == '/') ...
pub behind_slashes : List ℕ → Option (List ℕ)
behind_slashes [] = none
behind_slashes (c ∷ path) = if c == b'/' then skip_slashes path else some (c ∷ path)

-- NULL at the end of the path
pub rest_or_null : List ℕ → Option (Option (List ℕ))
rest_or_null [] = none
rest_or_null (c ∷ path) = some (if c == 0 then none else some (c ∷ path))

-- `pathParse` returns NULL or the rest of the path, and the memory at `nameStore`.
pub path_parse : (path_name name_store : List ℕ) → Option (Option (List ℕ) × List ℕ)
path_parse path_name name_store = do
  path ← behind_slashes path_name
  (path', name) ← copy_name path name_store
  rest ← rest_or_null path'
  some (rest, name)

abbrev pub max_file_name_len : ℕ
max_file_name_len = 16

-- `if (p) p = pathParse(p, name)`
pub parse_next : Option (List ℕ) → List ℕ → Option (Option (List ℕ) × List ℕ)
parse_next none name = some (none, name)
parse_next (some p) name = path_parse p name

-- The loop of `pathDepthCnt`. Each round takes a component, so that as many rounds as the path has
-- characters are enough.
pub count_components : (fuel : ℕ) → Option (List ℕ) → (name : List ℕ) → (depth : ℕ) → Option ℕ
count_components zero p name depth = none
count_components (suc fuel) p [] depth = none
count_components (suc fuel) p (c ∷ name) depth =
    let round = (do
      cleared ← memset (c ∷ name) 0 max_file_name_len
      (p', name') ← parse_next p cleared
      count_components fuel p' name' (u32 (depth + 1))) in
    if c == 0 then some depth else round

-- `pathDepthCnt`, with what the array `name` holds before it is written
pub path_depth_cnt : (uninitialised path_name : List ℕ) → Option ℕ
path_depth_cnt uninitialised path_name = do
  (p, name) ← path_parse path_name uninitialised
  count_components (suc (length path_name)) p name 0
