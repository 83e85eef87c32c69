-- ===== src/CString/Compare.antt =====
-- `strcmp` as a test of equality.
use gogoos.Common.{
  ℕ, ◌==◌, false, not, ◌&&◌, inl, inr, Bool-cases, length, ◌<◌, ◌≡◌, refl, ◌↔◌, ap₂, some, List, [],
  ◌∷◌, ◌++◌, arith, ltb, if◌then◌else◌, ℕ_discrete,
}
use gogoos.Common.Int.{ℤ, pos, negsuc}
use gogoos.CString.{strcmp, char_key}

-- bytes that are not NUL
abbrev pub IsChars : List ℕ → Type 0
IsChars [] = Unit
IsChars (c ∷ s) = (0 < c) × (c < 256) × IsChars s

-- `strcmp` ends on texts, and answers 0 for equal texts and for no others.
pub strcmp-eq-zero :
    (s t rest rest' : List ℕ)
    → IsChars s
    → IsChars t
    → (r : ℤ) × (strcmp (s ++ (0 ∷ rest)) (t ++ (0 ∷ rest')) ≡ some r) × ((r ≡ pos 0) ↔ (s ≡ t))
unfolding strcmp
strcmp-eq-zero [] [] rest rest' hs ht = (pos 0, refl, (λ _. refl, λ _. refl))
strcmp-eq-zero [] (b ∷ t) rest rest' hs ht = (
  if ltb (char_key 0) (char_key b)
      then negsuc 0
      else if ltb (char_key b) (char_key 0)
      then pos 1
      else pos 0,
  refl,
  (λ e. ground arith, λ e. cc),
)
strcmp-eq-zero (a ∷ s) [] rest rest' hs ht = (
  if ltb (char_key a) (char_key 0)
      then negsuc 0
      else if ltb (char_key 0) (char_key a)
      then pos 1
      else pos 0,
  ground arith,
  (λ e. ground arith, λ e. cc),
)
strcmp-eq-zero (a ∷ s) (b ∷ t) rest rest' hs ht = elim (ℕ_discrete a b) [
  | yes e ↦
      let (r, run, iff) = strcmp-eq-zero s t rest rest' hs.2 ht.2 in
      (r, ground (arith, run), (λ z. ap₂ ◌∷◌ e (iff.0 z), λ q. iff.1 (cons_tail q)))
  | no ne ↦ (
    if ltb (char_key a) (char_key b)
        then negsuc 0
        else if ltb (char_key b) (char_key a)
        then pos 1
        else pos 0,
    ground arith,
    (λ e. ground arith, λ q. absurd (ne (cons_head q))),
  )
]
  where
    cons_tail : (a ∷ s) ≡ (b ∷ t) → s ≡ t
    cons_tail q = cc

    cons_head : (a ∷ s) ≡ (b ∷ t) → a ≡ b
    cons_head q = cc

-- where `strcmp` stops, it returns
strcmp_stop :
    (a b : ℕ) (s t : List ℕ)
    → (not (a == 0) && a == b) ≡ false
    → (r : ℤ) × (strcmp (a ∷ s) (b ∷ t) ≡ some r)
unfolding strcmp
strcmp_stop a b s t h = (
  if ltb (char_key a) (char_key b)
      then negsuc 0
      else if ltb (char_key b) (char_key a)
      then pos 1
      else pos 0,
  rw (h) refl,
)

-- `strcmp` of a text ends in a longer memory.
pub strcmp_ends :
    (s name : List ℕ) → length name < length s → (r : ℤ) × (strcmp s (name ++ (0 ∷ [])) ≡ some r)
unfolding strcmp
strcmp_ends [] name lt = absurd (omega arith)
strcmp_ends (a ∷ s) [] lt = strcmp_stop a 0 s [] (ground arith)
strcmp_ends (a ∷ s) (b ∷ name) lt = elim (Bool-cases (not (a == 0) && a == b)) [
  | inl on ↦ let (r, run) = strcmp_ends s name (omega arith) in (r, rw (on) run)
  | inr stop ↦ strcmp_stop a b s (name ++ (0 ∷ [])) stop
]
