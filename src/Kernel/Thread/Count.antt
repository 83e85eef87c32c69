-- ===== src/Kernel/Thread/Count.antt =====
-- How often a thread stands in a list of threads.
use gogoos.Common.{
  ℕ, suc, ◌+◌, ◌≡◌, ◌≢◌, refl, ap, false, List, [], ◌∷◌, ◌++◌, ◌==◌, if◌then◌else◌, ==_refl,
  ==_false, arith, ℕ_discrete,
}
use gogoos.Structure.LinkedList.Walk.{contains}

unfoldable pub count : ℕ → List ℕ → ℕ
count t [] = 0
count t (x ∷ xs) = (if x == t then 1 else 0) + count t xs

pub count-append : (t : ℕ) (xs ys : List ℕ) → count t (xs ++ ys) ≡ count t xs + count t ys
unfolding count
count-append t [] ys = omega arith
count-append t (x ∷ xs) ys = omega (arith, count-append t xs ys)

pub count_here : (t : ℕ) (xs : List ℕ) → count t (t ∷ xs) ≡ suc (count t xs)
unfolding count
count_here t xs = rw (==_refl t) (omega arith)

pub count_skip : (t x : ℕ) (xs : List ℕ) → x ≢ t → count t (x ∷ xs) ≡ count t xs
unfolding count
count_skip t x xs ne = rw (==_false x t ne) (omega arith)

pub contains-absent : (t : ℕ) (xs : List ℕ) → count t xs ≡ 0 → contains t xs ≡ false
unfolding count contains
contains-absent t [] h = refl
contains-absent t (x ∷ xs) h = elim (ℕ_discrete x t) [
  | yes e ↦ absurd (omega (arith, count_here t xs, ap (λ y. count t (y ∷ xs)) e, h))
  | no ne ↦ rw (==_false x t ne) (contains-absent t xs (omega (arith, count_skip t x xs ne, h)))
]
