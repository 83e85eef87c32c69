-- ===== src/CString/Find.antt =====
-- `strrchr` finds the last match, and `strchrs` counts the matches.
use gogoos.Common.{
  ℕ, ◌+◌, ◌≡◌, ◌≢◌, refl, ◌∙◌, ap, Option, none, some, List, [], ◌∷◌, ◌++◌, arith, length, ==_false,
  ==_refl,
}
use gogoos.CString.{strrchr_from, strrchr}
use gogoos.CString.Laws.{IsText}

-- no `c` inside
abbrev pub Lacks : ℕ → List ℕ → Type 0
Lacks c [] = Unit
Lacks c (a ∷ s) = (a ≢ c) × Lacks c s

strrchr_from-Lacks :
    (c : ℕ) (s rest : List ℕ) (i : ℕ) (lc : Option ℕ)
    → IsText s
    → Lacks c s
    → strrchr_from (s ++ (0 ∷ rest)) c i lc ≡ some lc
unfolding strrchr_from
strrchr_from-Lacks c [] rest i lc t l = refl
strrchr_from-Lacks c (a ∷ s) rest i lc t l =
    rw (==_false a 0 t.0, ==_false a c l.0) (strrchr_from-Lacks c s rest (i + 1) lc t.1 l.1)

strrchr_from-last :
    (c : ℕ) (s u rest : List ℕ) (i : ℕ) (lc : Option ℕ)
    → c ≢ 0
    → IsText s
    → IsText u
    → Lacks c u
    → strrchr_from (s ++ (c ∷ (u ++ (0 ∷ rest)))) c i lc ≡ some (some (i + length s))
unfolding strrchr_from
strrchr_from-last c [] u rest i lc ne t tu l =
    rw (==_false c 0 ne, ==_refl c)
      (strrchr_from-Lacks c u rest (i + 1) (some i) tu l
        ∙ ap (λ (k : ℕ). some (some k)) (omega arith))
strrchr_from-last c (a ∷ s) u rest i lc ne t tu l = rw (==_false a 0 t.0) (
    strrchr_from-last c s u rest (i + 1) _ ne t.1 tu l
    ∙ ap (λ (k : ℕ). some (some k)) (omega arith))

-- `strrchr` returns the last place of a character, not NUL, that the text has.
pub strrchr-last :
    (c : ℕ) (s u rest : List ℕ)
    → c ≢ 0
    → IsText s
    → IsText u
    → Lacks c u
    → strrchr (s ++ (c ∷ (u ++ (0 ∷ rest)))) c ≡ some (some (length s))
unfolding strrchr
strrchr-last c s u rest ne t tu l =
    strrchr_from-last c s u rest 0 none ne t tu l ∙ ap (λ (k : ℕ). some (some k)) (omega arith)

-- It returns NULL for a character that the text lacks.
pub strrchr-Lacks :
    (c : ℕ) (s rest : List ℕ) → IsText s → Lacks c s → strrchr (s ++ (0 ∷ rest)) c ≡ some none
unfolding strrchr
strrchr-Lacks c s rest t l = strrchr_from-Lacks c s rest 0 none t l
