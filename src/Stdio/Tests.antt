-- ===== src/Stdio/Tests.antt =====
-- Numbers and formats, printed.
use gogoos.Common.{ℕ, ◌≡◌, ◌^◌, ◌-◌, refl, some, List, [], ◌∷◌, ◌++◌, arith, replicate}
use gogoos.CString.Laws.{IsText}
use gogoos.Stdio.{
  Arg, word, text, itoa, itoha, digits_from, reverse_onto, hex_char, map_hex, vsprintf,
}
use gogoos.Stdio.Numbers.{IsDecimal, itoa-IsDecimal}
use gogoos.Stdio.Hex.{IsHex, itoha-IsHex}
use gogoos.Stdio.Texts.{positional}
use gogoos.Stdio.Rendered.{rendered, piece, until_nul, vsprintf-rendered}

-- "0x2AF"
itoha_test : itoha 687 ≡ some (48 ∷ 120 ∷ 50 ∷ 65 ∷ 70 ∷ [])
unfolding itoha digits_from reverse_onto map_hex hex_char
itoha_test = refl

-- "%d is %s%%"
abbrev format : List ℕ
format = 37 ∷ 100 ∷ 32 ∷ 105 ∷ 115 ∷ 32 ∷ 37 ∷ 115 ∷ 37 ∷ 37 ∷ 0 ∷ []

-- -12 and "up"
abbrev args : List Arg
args = word (2 ^ 32 - 12) ∷ text (117 ∷ 112 ∷ 0 ∷ []) ∷ []

-- "-12 is up%"
abbrev printed : List ℕ
printed = 45 ∷ 49 ∷ 50 ∷ 32 ∷ 105 ∷ 115 ∷ 32 ∷ 117 ∷ 112 ∷ 37 ∷ []

rendered_test : rendered format args ≡ some printed
unfolding rendered piece until_nul positional
rendered_test = refl

itoa-IsDecimal_example : (t : List ℕ) × (itoa 4096 ≡ some t) × IsDecimal 4096 t
itoa-IsDecimal_example = itoa-IsDecimal 4096 (omega arith)

itoha-IsHex_example : (t : List ℕ) × (itoha 687 ≡ some t) × IsHex 687 t
itoha-IsHex_example = itoha-IsHex 687 (omega arith)

printed-IsText : IsText printed
printed-IsText = ground arith

vsprintf-rendered_example :
    vsprintf (replicate 16 0) format args ≡ some (10, printed ++ replicate 6 0)
vsprintf-rendered_example =
    vsprintf-rendered format args printed 16 rendered_test printed-IsText (omega arith)
      (omega arith)
