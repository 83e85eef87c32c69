-- ===== src/Structure/LinkedList/Walk.antt =====
-- `listElemExist`, `listLen`, `listTraversal` and `listIsEmpty` read the sequence.
use gogoos.Common.{
  ℕ, zero, suc, ◌+◌, ◌^◌, ◌<◌, ◌≡◌, ◌≢◌, ◌∙◌, ap, sym, Bool, false, ◌||◌, some, List, [], ◌∷◌, ◌++◌,
  arith, ◌==◌, if◌then◌else◌, ==_false, ==_refl, length, u32, Bool-cases, inl, inr,
}
use gogoos.Structure.LinkedList.{
  Ptr, null, Memory, Ends, load_next, exist_from, list_elem_exist, len_from, list_len,
  list_is_empty, traverse_from, list_traversal,
}
use gogoos.Structure.LinkedList.Chain.{NotIn, Distinct, Chain, IsList, NotIn-split, load_next_lem}

unfoldable pub contains : Ptr → List Ptr → Bool
contains e [] = false
contains e (x ∷ xs) = x == e || contains e xs

-- the first element that `func` accepts, or NULL
pub first_match : (Ptr → Bool) → List Ptr → Ptr
first_match func [] = null
first_match func (x ∷ xs) = if func x then x else first_match func xs

module _ (m : Memory) (l : Ends) where
  -- what a walk that stands at `a` and has `xs` before it knows
  record Ahead (a : Ptr) (xs : List Ptr) : Type 0 where
    chain : Chain m a (xs ++ (l.tail ∷ []))
    distinct : Distinct (a ∷ xs ++ (l.tail ∷ []))
    real : NotIn null (a ∷ xs ++ (l.tail ∷ []))

  Ahead-next : (a x : Ptr) (xs : List Ptr) → Ahead a (x ∷ xs) → Ahead x xs
  Ahead-next a x xs h = record { chain = h.chain.2; distinct = h.distinct.1; real = h.real.1 }

  load-Ahead : (a : Ptr) (xs : List Ptr) → Ahead a xs → load_next a m ≡ some (m.next a, m)
  load-Ahead a xs h = load_next_lem a (λ z. h.real.0 (sym z)) m

  not_tail : (a x : Ptr) (xs : List Ptr) → Ahead a (x ∷ xs) → x ≢ l.tail
  not_tail a x xs h = (NotIn-split x xs (l.tail ∷ []) h.distinct.1.0).1.0

  exist_from_lem :
      (f : ℕ) (a e : Ptr) (xs : List Ptr)
      → Ahead a xs
      → length xs < f
      → exist_from f l e (m.next a) m ≡ some (contains e xs, m)
  unfolding exist_from contains
  exist_from_lem zero a e xs h lt = elim lt [ ]
  exist_from_lem (suc f) a e [] h lt = rw (h.chain.0, ==_refl l.tail)
  exist_from_lem (suc f) a e (x ∷ xs) h lt = elim (Bool-cases (x == e)) [
    | inl same ↦ rw (h.chain.0, ==_false x l.tail (not_tail a x xs h), same)
    | inr other ↦
        rw
          (
            h.chain.0,
            ==_false x l.tail (not_tail a x xs h),
            other,
            load-Ahead x xs (Ahead-next a x xs h),
          )
          (exist_from_lem f x e xs (Ahead-next a x xs h) (omega arith))
  ]

  len_from_lem :
      (f : ℕ) (a : Ptr) (xs : List Ptr) (n : ℕ)
      → Ahead a xs
      → length xs < f
      → n + length xs < 2 ^ 32
      → len_from f l (m.next a) n m ≡ some (n + length xs, m)
  unfolding len_from
  len_from_lem zero a xs n h lt b = elim lt [ ]
  len_from_lem (suc f) a [] n h lt b =
      rw (h.chain.0, ==_refl l.tail) (ap (λ (k : ℕ). some (k, m)) (omega arith))
  len_from_lem (suc f) a (x ∷ xs) n h lt b =
      let e : u32 (n + 1) ≡ suc n = omega arith in
      rw
        (h.chain.0, ==_false x l.tail (not_tail a x xs h), load-Ahead x xs (Ahead-next a x xs h), e)
        (len_from_lem f x xs (suc n) (Ahead-next a x xs h) (omega arith) (omega arith)
          ∙ ap (λ (k : ℕ). some (k, m)) (omega arith))

  traverse_from_lem :
      (f : ℕ) (func : Ptr → Bool) (a : Ptr) (xs : List Ptr)
      → Ahead a xs
      → length xs < f
      → traverse_from f l func (m.next a) m ≡ some (first_match func xs, m)
  unfolding traverse_from first_match
  traverse_from_lem zero func a xs h lt = elim lt [ ]
  traverse_from_lem (suc f) func a [] h lt = rw (h.chain.0, ==_refl l.tail)
  traverse_from_lem (suc f) func a (x ∷ xs) h lt = elim (Bool-cases (func x)) [
    | inl same ↦ rw (h.chain.0, ==_false x l.tail (not_tail a x xs h), same)
    | inr other ↦
        rw
          (
            h.chain.0,
            ==_false x l.tail (not_tail a x xs h),
            other,
            load-Ahead x xs (Ahead-next a x xs h),
          )
          (traverse_from_lem f func x xs (Ahead-next a x xs h) (omega arith))
  ]

  at_head : (xs : List Ptr) → IsList m l xs → Ahead l.head xs
  at_head xs is = record { chain = is.chain; distinct = is.distinct; real = is.real }

  load_head : (xs : List Ptr) → IsList m l xs → load_next l.head m ≡ some (m.next l.head, m)
  load_head xs is = load-Ahead l.head xs (at_head xs is)

  -- On a well-formed list of fewer than 2^32 elements, `listElemExist` answers whether the element
  -- stands in the list, and `listLen` how many there are; neither changes anything. More rounds
  -- than elements are enough.
  pub list_elem_exist-contains :
      (fuel : ℕ) (e : Ptr) (xs : List Ptr)
      → IsList m l xs
      → length xs < fuel
      → length xs < 2 ^ 32
      → (list_elem_exist fuel l e m ≡ some (contains e xs, m))
        × (list_len fuel l m ≡ some (length xs, m))
  unfolding list_elem_exist list_len
  list_elem_exist-contains fuel e xs is lt small = (
    rw (load_head xs is) (exist_from_lem fuel l.head e xs (at_head xs is) lt),
    rw (load_head xs is) (
        len_from_lem fuel l.head xs 0 (at_head xs is) lt (omega arith)
        ∙ ap (λ (k : ℕ). some (k, m)) (omega arith)),
  )

  -- `listIsEmpty` tells the empty list.
  pub list_is_empty_lem :
      (xs : List Ptr) → IsList m l xs → list_is_empty l m ≡ some (length xs == 0, m)
  unfolding list_is_empty
  list_is_empty_lem [] is = rw (load_head [] is, is.chain.0, ==_refl l.tail)
  list_is_empty_lem (x ∷ xs) is = rw (
    load_head (x ∷ xs) is,
    is.chain.0,
    ==_false x l.tail (not_tail l.head x xs (at_head (x ∷ xs) is)),
    ==_false (suc (length xs)) 0 (omega arith),
  )

  -- On a well-formed list `listTraversal` returns the first element that the test accepts, or
  -- NULL, and changes nothing. More rounds than elements are enough.
  pub list_traversal-first_match :
      (fuel : ℕ) (func : Ptr → Bool) (xs : List Ptr)
      → IsList m l xs
      → length xs < fuel
      → list_traversal fuel l func m ≡ some (first_match func xs, m)
  unfolding list_traversal first_match
  list_traversal-first_match fuel func [] is lt = rw (list_is_empty_lem [] is)
  list_traversal-first_match fuel func (x ∷ xs) is lt =
      rw
        (
          list_is_empty_lem (x ∷ xs) is,
          ==_false (suc (length xs)) 0 (omega arith),
          load_head (x ∷ xs) is,
        )
        (traverse_from_lem fuel func l.head (x ∷ xs) (at_head (x ∷ xs) is) lt)
