-- ===== src/CString/Laws.antt =====
-- Strings in memory: `strlen`, `strcpy`, `strcat`, `memset` and `memcpy`.
use gogoos.Common.{
  ℕ, zero, suc, ◌+◌, ◌^◌, ◌<◌, ◌≤◌, ◌≡◌, ◌≢◌, refl, ◌∙◌, ap, none, some, List, [], ◌∷◌, ◌++◌, arith,
  u32, length, take, drop, replicate, ==_false,
}
use gogoos.CString.{memset, memcpy, strcpy, strlen_from, strlen, strcat}

-- no NUL inside
abbrev pub IsText : List ℕ → Type 0
IsText [] = Unit
IsText (c ∷ s) = (c ≢ 0) × IsText s

strlen_from-text :
    (s rest : List ℕ) (n : ℕ)
    → IsText s
    → n + length s < 2 ^ 32
    → strlen_from (s ++ (0 ∷ rest)) n ≡ some (n + length s)
unfolding strlen_from
strlen_from-text [] rest n t h = ap some (omega arith)
strlen_from-text (c ∷ s) rest n t h =
    let e : u32 (n + 1) ≡ n + 1 = omega arith in
    rw (==_false c 0 t.0, e)
      (strlen_from-text s rest (n + 1) t.1 (omega arith) ∙ ap some (omega arith))

-- `strlen` counts the characters before the NUL of a text shorter than 4 GB.
pub strlen-text :
    (s rest : List ℕ) → IsText s → length s < 2 ^ 32 → strlen (s ++ (0 ∷ rest)) ≡ some (length s)
unfolding strlen
strlen-text s rest t h = strlen_from-text s rest 0 t (omega arith) ∙ ap some (omega arith)

-- Into a destination longer than the text, `strcpy` writes the text and its NUL, and leaves what
-- lies behind them.
pub strcpy-text :
    (s rest d : List ℕ)
    → IsText s
    → length s < length d
    → strcpy d (s ++ (0 ∷ rest)) ≡ some (s ++ (0 ∷ drop (suc (length s)) d))
unfolding strcpy
strcpy-text [] rest [] t h = elim h [ ]
strcpy-text [] rest (x ∷ d) t h = refl
strcpy-text (c ∷ s) rest [] t h = elim h [ ]
strcpy-text (c ∷ s) rest (x ∷ d) t h = rw (==_false c 0 t.0, strcpy-text s rest d t.1 (omega arith))

-- A destination that is too small is overrun.
pub strcpy-overrun :
    (s rest d : List ℕ) → IsText s → length d ≤ length s → strcpy d (s ++ (0 ∷ rest)) ≡ none
unfolding strcpy
strcpy-overrun [] rest [] t h = refl
strcpy-overrun [] rest (x ∷ d) t h = absurd (omega arith)
strcpy-overrun (c ∷ s) rest [] t h = refl
strcpy-overrun (c ∷ s) rest (x ∷ d) t h =
    rw (==_false c 0 t.0, strcpy-overrun s rest d t.1 (omega arith))

-- Where the memory behind the first text has room for the second, `strcat` puts the second behind
-- the first with its NUL, and leaves what lies behind.
pub strcat-text :
    (a d s rest : List ℕ)
    → IsText a
    → IsText s
    → length s ≤ length d
    → strcat (a ++ (0 ∷ d)) (s ++ (0 ∷ rest)) ≡ some (a ++ (s ++ (0 ∷ drop (length s) d)))
unfolding strcat
strcat-text [] d s rest ta ts h = strcpy-text s rest (0 ∷ d) ts (omega arith)
strcat-text (c ∷ a) d s rest ta ts h = rw (==_false c 0 ta.0, strcat-text a d s rest ta.1 ts h)

pub strcat-overrun :
    (a d s rest : List ℕ)
    → IsText a
    → IsText s
    → length d < length s
    → strcat (a ++ (0 ∷ d)) (s ++ (0 ∷ rest)) ≡ none
unfolding strcat
strcat-overrun [] d s rest ta ts h = strcpy-overrun s rest (0 ∷ d) ts (omega arith)
strcat-overrun (c ∷ a) d s rest ta ts h =
    rw (==_false c 0 ta.0, strcat-overrun a d s rest ta.1 ts h)

pub memset_lem :
    (d : List ℕ) (val size : ℕ)
    → size ≤ length d
    → memset d val size ≡ some (replicate size val ++ drop size d)
unfolding memset
memset_lem d val zero h = refl
memset_lem [] val (suc size) h = elim h [ ]
memset_lem (x ∷ d) val (suc size) h = rw (memset_lem d val size (omega arith))

pub memcpy_lem :
    (d s : List ℕ) (size : ℕ)
    → size ≤ length d
    → size ≤ length s
    → memcpy d s size ≡ some (take size s ++ drop size d)
unfolding memcpy
memcpy_lem d s zero h k = refl
memcpy_lem [] s (suc size) h k = elim h [ ]
memcpy_lem (x ∷ d) [] (suc size) h k = elim k [ ]
memcpy_lem (x ∷ d) (c ∷ s) (suc size) h k = rw (memcpy_lem d s size (omega arith) (omega arith))
