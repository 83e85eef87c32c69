-- ===== src/CString/Tests.antt =====
-- The library of strings on concrete texts.
use gogoos.Common.{ℕ, ◌≡◌, ◌↔◌, refl, some, List, [], ◌∷◌, ◌++◌, arith}
use gogoos.Common.Int.{ℤ, pos}
use gogoos.CString.{strlen, strcmp}
use gogoos.CString.Laws.{IsText}
use gogoos.CString.Compare.{IsChars, strcmp-eq-zero}

-- "ab"
abbrev ab : List ℕ
ab = 97 ∷ 98 ∷ []

ab-IsText : IsText ab
ab-IsText = (omega arith, (omega arith, tt))

ab-IsChars : IsChars ab
ab-IsChars = (omega arith, omega arith, (omega arith, omega arith, tt))

strlen_test : strlen (104 ∷ 105 ∷ 0 ∷ 7 ∷ []) ≡ some 2
unfolding strlen
strlen_test = refl

strcmp-eq-zero_example :
    (r : ℤ) × (strcmp (ab ++ (0 ∷ [])) (ab ++ (0 ∷ 3 ∷ [])) ≡ some r) × ((r ≡ pos 0) ↔ (ab ≡ ab))
strcmp-eq-zero_example = strcmp-eq-zero ab ab [] (3 ∷ []) ab-IsChars ab-IsChars
