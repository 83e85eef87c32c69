-- ===== src/Structure/LinkedList/Chain.antt =====
-- What a list in memory stands for: the sequence of its elements.
use gogoos.Common.{◌≡◌, ◌≢◌, refl, ◌∙◌, List, [], ◌∷◌, ◌++◌, some, ==_false}
use gogoos.Structure.LinkedList.{
  Ptr, null, Memory, Ends, update, load_next, load_prev, store_next, store_prev,
}

-- `x` is none of `xs`
abbrev pub NotIn : Ptr → List Ptr → Type 0
NotIn x [] = Unit
NotIn x (y ∷ ys) = (x ≢ y) × NotIn x ys

abbrev pub Distinct : List Ptr → Type 0
Distinct [] = Unit
Distinct (x ∷ xs) = NotIn x xs × Distinct xs

-- The links lead from `a` through `xs`, and back.
abbrev pub Chain : Memory → Ptr → List Ptr → Type 0
Chain m a [] = Unit
Chain m a (b ∷ r) = (m.next a ≡ b) × (m.prev b ≡ a) × Chain m b r

-- In memory `m` the list `l` holds the elements `xs`, in order.
pub record IsList (m : Memory) (l : Ends) (xs : List Ptr) : Type 0 where
  pub chain : Chain m l.head (xs ++ (l.tail ∷ []))
  pub distinct : Distinct (l.head ∷ xs ++ (l.tail ∷ []))
  pub real : NotIn null (l.head ∷ xs ++ (l.tail ∷ []))

pub NotIn-append : (x : Ptr) (xs ys : List Ptr) → NotIn x xs → NotIn x ys → NotIn x (xs ++ ys)
NotIn-append x [] ys h k = k
NotIn-append x (y ∷ xs) ys h k = (h.0, NotIn-append x xs ys h.1 k)

pub NotIn-split : (x : Ptr) (xs ys : List Ptr) → NotIn x (xs ++ ys) → NotIn x xs × NotIn x ys
NotIn-split x [] ys h = (tt, h)
NotIn-split x (y ∷ xs) ys h = let (l, r) = NotIn-split x xs ys h.1 in ((h.0, l), r)

-- the last of `a ∷ xs`
abbrev pub last_of : Ptr → List Ptr → Ptr
last_of a [] = a
last_of a (b ∷ xs) = last_of b xs

pub prev-last :
    (m : Memory) (a : Ptr) (xs : List Ptr) (b : Ptr) (ys : List Ptr)
    → Chain m a (xs ++ (b ∷ ys))
    → m.prev b ≡ last_of a xs
prev-last m a [] b ys c = c.1
prev-last m a (x ∷ xs) b ys c = prev-last m x xs b ys c.2

pub NotIn-last : (x a : Ptr) (xs : List Ptr) → NotIn x (a ∷ xs) → x ≢ last_of a xs
NotIn-last x a [] h = h.0
NotIn-last x a (b ∷ xs) h = NotIn-last x b xs h.1

module _ (f g : Memory) where
  -- A chain outlives any change that spares its links.
  pub Chain-frame :
      (a : Ptr) (xs : List Ptr)
      → ((x : Ptr) → (NotIn x (a ∷ xs) → ⊥) → g.next x ≡ f.next x)
      → ((x : Ptr) → (NotIn x xs → ⊥) → g.prev x ≡ f.prev x)
      → Chain f a xs
      → Chain g a xs
  Chain-frame a [] hn hp c = tt
  Chain-frame a (b ∷ xs) hn hp c = (
    hn a (λ k. k.0 refl) ∙ c.0,
    hp b (λ k. k.0 refl) ∙ c.1,
    Chain-frame b xs (λ x k. hn x (λ q. k q.1)) (λ x k. hp x (λ q. k q.1)) c.2,
  )

module _ (p : Ptr) (h : p ≢ null) where
  pub load_next_lem : (m : Memory) → load_next p m ≡ some (m.next p, m)
  unfolding load_next
  load_next_lem m = rw (==_false p null h)

  pub load_prev_lem : (m : Memory) → load_prev p m ≡ some (m.prev p, m)
  unfolding load_prev
  load_prev_lem m = rw (==_false p null h)

  pub store_next_lem :
      (v : Ptr) (m : Memory) → store_next p v m ≡ some (tt, record m { next = update m.next p v })
  unfolding store_next
  store_next_lem v m = rw (==_false p null h)

  pub store_prev_lem :
      (v : Ptr) (m : Memory) → store_prev p v m ≡ some (tt, record m { prev = update m.prev p v })
  unfolding store_prev
  store_prev_lem v m = rw (==_false p null h)
