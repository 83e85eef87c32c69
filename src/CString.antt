-- ===== src/CString.antt =====
-- lib/string.c. A pointer is the memory from it to the end of its object, a list of bytes;
-- `none` is an access behind that end. A function that writes returns the memory at `dst` as it
-- leaves it; the source and the destination are different objects.
pub mod Laws
pub mod Compare
pub mod Find
mod Tests
use gogoos.Common.{
  ℕ, zero, suc, ◌+◌, ◌%◌, Bool, true, false, ◌&&◌, not, Option, none, some, List, [], ◌∷◌, ltb,
  ◌==◌, if◌then◌else◌, ◌>>=◌, u32,
}
use gogoos.Common.Int.{ℤ, pos, negsuc}

-- `memset`
unfoldable pub memset : List ℕ → (val size : ℕ) → Option (List ℕ)
memset d val zero = some d
memset [] val (suc size) = none
memset (_ ∷ d) val (suc size) = do r ← memset d val size; some (val ∷ r)

-- `memcpy`
pub memcpy : (dst src : List ℕ) → (size : ℕ) → Option (List ℕ)
memcpy d s zero = some d
memcpy [] s (suc size) = none
memcpy (_ ∷ d) [] (suc size) = none
memcpy (_ ∷ d) (c ∷ s) (suc size) = do r ← memcpy d s size; some (c ∷ r)

-- `memcmp` compares bytes without sign.
pub memcmp : (s1 s2 : List ℕ) → (size : ℕ) → Option ℤ
memcmp s1 s2 zero = some (pos 0)
memcmp [] s2 (suc size) = none
memcmp (a ∷ s1) [] (suc size) = none
memcmp (a ∷ s1) (b ∷ s2) (suc size) =
    if not (a == b) then some (if ltb b a then pos 1 else negsuc 0) else memcmp s1 s2 size

-- `strcpy`
unfoldable pub strcpy : (dst src : List ℕ) → Option (List ℕ)
strcpy d [] = none
strcpy [] (c ∷ s) = none
strcpy (_ ∷ d) (c ∷ s) = if c == 0 then some (0 ∷ d) else do r ← strcpy d s; some (c ∷ r)

-- the loop of `strlen`, from `size` on
strlen_from : List ℕ → (size : ℕ) → Option ℕ
strlen_from [] size = none
strlen_from (c ∷ str) size =
    let rest = strlen_from str (u32 (size + 1)) in if c == 0 then some size else rest

-- `strlen`
unfoldable pub strlen : List ℕ → Option ℕ
unfolding strlen_from
strlen str = strlen_from str 0

-- a `char` as a number that orders as the signed character does
abbrev pub char_key : ℕ → ℕ
char_key c = (c + 128) % 256

-- `strcmp` compares signed characters.
unfoldable pub strcmp : (s1 s2 : List ℕ) → Option ℤ
strcmp [] s2 = none
strcmp (a ∷ s1) [] = none
strcmp (a ∷ s1) (b ∷ s2) =
    if not (a == 0) && a == b
    then strcmp s1 s2
    else some (
        if ltb (char_key a) (char_key b)
        then negsuc 0
        else if ltb (char_key b) (char_key a)
        then pos 1
        else pos 0)

-- `strchr`; a pointer into `str` is its index, `none` inside the result is NULL
strchr_from : List ℕ → (c i : ℕ) → Option (Option ℕ)
strchr_from [] c i = none
strchr_from (a ∷ str) c i =
    let rest = strchr_from str c (i + 1) in
    if a == 0 then some none else if a == c then some (some i) else rest

pub strchr : List ℕ → ℕ → Option (Option ℕ)
unfolding strchr_from
strchr str c = strchr_from str c 0

-- `strrchr`, with the last match so far
strrchr_from : List ℕ → (c i : ℕ) → Option ℕ → Option (Option ℕ)
strrchr_from [] c i lc = none
strrchr_from (a ∷ str) c i lc =
    let rest = strrchr_from str c (i + 1) (if a == c then some i else lc) in
    if a == 0 then some lc else rest

unfoldable pub strrchr : List ℕ → ℕ → Option (Option ℕ)
unfolding strrchr_from
strrchr str c = strrchr_from str c 0 none

-- `strcat`: to the end of `dst`, then a copy
unfoldable pub strcat : (dst src : List ℕ) → Option (List ℕ)
unfolding strcpy
strcat [] s = none
strcat (a ∷ d) s = if a == 0 then strcpy (a ∷ d) s else do r ← strcat d s; some (a ∷ r)

-- `strchrs`, with the count so far
strchrs_from : List ℕ → (c cnt : ℕ) → Option ℕ
strchrs_from [] c cnt = none
strchrs_from (a ∷ str) c cnt =
    let rest = strchrs_from str c (if a == c then u32 (cnt + 1) else cnt) in
    if a == 0 then some cnt else rest

pub strchrs : List ℕ → ℕ → Option ℕ
unfolding strchrs_from
strchrs str c = strchrs_from str c 0
