-- ===== src/Shell/WashPath/Stack.antt =====
-- A clean path as a stack of names, the last one first, and how it is written.
use gogoos.Common.{
  ℕ, suc, ◌+◌, ◌≤◌, ◌≡◌, ◌≢◌, refl, ap₂, Bool, true, false, ◌&&◌, List, [], ◌∷◌, ◌++◌, arith,
  length, length-append, ◌==◌, ==_false, ==_refl, if◌then◌else◌, ℕ_discrete,
}
use gogoos.CString.Laws.{IsText}
use gogoos.CString.Compare.{IsChars}
use gogoos.CString.Find.{Lacks}
use gogoos.Fs.PathName.Components.{
  flush, split, components, first_word, behind_word, drop_slashes, next_word, next_rest,
}

unfoldable pub same_text : List ℕ → List ℕ → Bool
same_text [] [] = true
same_text [] (b ∷ t) = false
same_text (a ∷ s) [] = false
same_text (a ∷ s) (b ∷ t) = a == b && same_text s t

pub same_text-eq : (s t : List ℕ) → same_text s t ≡ true → s ≡ t
unfolding same_text
same_text-eq [] [] h = refl
same_text-eq [] (b ∷ t) h = cc
same_text-eq (a ∷ s) [] h = cc
same_text-eq (a ∷ s) (b ∷ t) h = elim (ℕ_discrete a b) [
  | yes e ↦ ap₂ ◌∷◌ e (same_text-eq s t (ground arith))
  | no ne ↦ absurd (true_ne (rw (==_false a b ne) at h))
]
  where
    true_ne : false ≡ true → ⊥
    true_ne q = cc

pub same_text_refl : (s : List ℕ) → same_text s s ≡ true
unfolding same_text
same_text_refl [] = refl
same_text_refl (a ∷ s) = rw (==_refl a) (same_text_refl s)

-- ".." on the stack
abbrev pub up : List (List ℕ) → List (List ℕ)
up [] = []
up (x ∷ st) = st

-- what a name does to the stack: ".." takes the last name off, "." nothing
unfoldable pub step : List (List ℕ) → List ℕ → List (List ℕ)
step st c =
    if same_text (b'.' ∷ b'.' ∷ []) c then up st else if same_text (b'.' ∷ []) c then st else c ∷ st

unfoldable pub resolve : List (List ℕ) → List (List ℕ) → List (List ℕ)
resolve st [] = st
resolve st (c ∷ cs) = resolve (step st c) cs

-- a slash in front of each name
unfoldable pub body : List (List ℕ) → List ℕ
body [] = []
body (c ∷ st) = body st ++ (b'/' ∷ c)

-- the path that a stack stands for, "/" for the empty one
unfoldable pub shown : List (List ℕ) → List ℕ
shown [] = b'/' ∷ []
shown (c ∷ st) = body (c ∷ st)

-- a name: characters other than NUL and '/', at least one
pub record IsName (w : List ℕ) : Type 0 where
  pub nonempty : w ≢ []
  pub chars : IsChars w
  pub no_slash : Lacks b'/' w

abbrev pub AllNames : List (List ℕ) → Type 0
AllNames [] = Unit
AllNames (c ∷ st) = IsName c × AllNames st

-- characters that the names take, with their slashes
abbrev pub cost : List (List ℕ) → ℕ
cost [] = 0
cost (c ∷ cs) = suc (length c) + cost cs

pub cost-flush : (w : List ℕ) (cs : List (List ℕ)) → cost (flush w cs) ≤ suc (length w) + cost cs
unfolding flush
cost-flush [] cs = omega arith
cost-flush (c ∷ w) cs = omega arith

cost-split : (cur s : List ℕ) → cost (split cur s) ≤ length cur + length s + 1
unfolding split
cost-split cur [] = omega (arith, cost-flush cur [])
cost-split cur (c ∷ s) = elim (ℕ_discrete c b'/') [
  | yes e ↦ rw e (omega (arith, cost-flush cur (split [] s), cost-split [] s))
  | no ne ↦
      rw (==_false c b'/' ne)
        (omega (arith, cost-split (cur ++ (c ∷ [])) s, length-append cur (c ∷ [])))
]

pub cost-components : (s : List ℕ) → cost (components s) ≤ length s + 1
cost-components s = omega (arith, cost-split [] s)

pub IsChars-IsText : (s : List ℕ) → IsChars s → IsText s
IsChars-IsText [] h = tt
IsChars-IsText (c ∷ s) h = (λ e. absurd (omega (arith, h.0, e)), IsChars-IsText s h.2)

drop_slashes-IsChars : (s : List ℕ) → IsChars s → IsChars (drop_slashes s)
unfolding drop_slashes
drop_slashes-IsChars [] t = tt
drop_slashes-IsChars (c ∷ s) t = elim (ℕ_discrete c b'/') [
  | yes e ↦ rw e (drop_slashes-IsChars s t.2)
  | no ne ↦ rw (==_false c b'/' ne) t
]

first_word-IsChars : (s : List ℕ) → IsChars s → IsChars (first_word s)
unfolding first_word
first_word-IsChars [] t = tt
first_word-IsChars (c ∷ s) t = elim (ℕ_discrete c b'/') [
  | yes e ↦ rw e tt
  | no ne ↦ rw (==_false c b'/' ne) (t.0, t.1, first_word-IsChars s t.2)
]

behind_word-IsChars : (s : List ℕ) → IsChars s → IsChars (behind_word s)
unfolding behind_word
behind_word-IsChars [] t = tt
behind_word-IsChars (c ∷ s) t = elim (ℕ_discrete c b'/') [
  | yes e ↦ rw e (rw e at t)
  | no ne ↦ rw (==_false c b'/' ne) (behind_word-IsChars s t.2)
]

first_word-Lacks : (s : List ℕ) → Lacks b'/' (first_word s)
unfolding first_word
first_word-Lacks [] = tt
first_word-Lacks (c ∷ s) = elim (ℕ_discrete c b'/') [
  | yes e ↦ rw e tt
  | no ne ↦ rw (==_false c b'/' ne) (ne, first_word-Lacks s)
]

pub next_word-IsChars : (s : List ℕ) → IsChars s → IsChars (next_word s)
next_word-IsChars s h = first_word-IsChars (drop_slashes s) (drop_slashes-IsChars s h)

pub next_rest-IsChars : (s : List ℕ) → IsChars s → IsChars (next_rest s)
next_rest-IsChars s h = behind_word-IsChars (drop_slashes s) (drop_slashes-IsChars s h)

pub next_word-Lacks : (s : List ℕ) → Lacks b'/' (next_word s)
next_word-Lacks s = first_word-Lacks (drop_slashes s)
