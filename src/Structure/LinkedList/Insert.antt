-- ===== src/Structure/LinkedList/Insert.antt =====
-- `listInsertBefore`, `listPush` and `listAppend` insert into the sequence.
use gogoos.Common.{
  ◌≡◌, ◌≢◌, refl, ◌∙◌, sym, some, List, [], ◌∷◌, ◌++◌, ==_false, ==_refl, append_assoc,
}
use mathlib.Core.Path.{subst}
use gogoos.Structure.LinkedList.{
  Ptr, null, Memory, Ends, update, list_insert_before, list_push, list_append,
}
use gogoos.Structure.LinkedList.Chain.{
  NotIn, Distinct, Chain, IsList, NotIn-append, NotIn-split, last_of, prev-last, NotIn-last,
  Chain-frame, load_next_lem, load_prev_lem, store_next_lem, store_prev_lem,
}

-- `x` stands among `xs` and `e` does not.
pub ne_of_NotIn : (x e : Ptr) (xs : List Ptr) → NotIn e xs → (NotIn x xs → ⊥) → x ≢ e
ne_of_NotIn x e xs h k q = k (rw q h)

-- the memory with `e` between `p` and `b`
abbrev pub inserted : Memory → (p b e : Ptr) → Memory
inserted m p b e = record m {
  next = update (update m.next p e) e b;
  prev = update (update m.prev e p) b e;
}

pub insert_lem :
    (m : Memory) (b e : Ptr)
    → b ≢ null
    → e ≢ null
    → m.prev b ≢ null
    → list_insert_before b e m ≡ some (tt, inserted m (m.prev b) b e)
unfolding list_insert_before
insert_lem m b e hb he hp = simp (
  load_prev_lem b hb,
  store_next_lem (m.prev b) hp,
  store_prev_lem e he,
  store_next_lem e he,
  store_prev_lem b hb,
)

module _ (m : Memory) (p b e : Ptr) where
  tail_kept :
      (post : List Ptr)
      → NotIn p (b ∷ post)
      → NotIn e (b ∷ post)
      → NotIn b post
      → Chain m b post
      → Chain (inserted m p b e) b post
  tail_kept post hp he hb =
      Chain-frame m (inserted m p b e) b post
        (λ x k. rw (
          ==_false x e (ne_of_NotIn x e (b ∷ post) he k),
          ==_false x p (ne_of_NotIn x p (b ∷ post) hp k),
        ))
        (λ x k.
          rw (==_false x b (ne_of_NotIn x b post hb k), ==_false x e (ne_of_NotIn x e post he.1 k)))

  Chain-insert :
      (a : Ptr) (pre post : List Ptr)
      → p ≡ last_of a pre
      → Chain m a (pre ++ (b ∷ post))
      → Distinct (a ∷ pre ++ (b ∷ post))
      → NotIn e (a ∷ pre ++ (b ∷ post))
      → Chain (inserted m p b e) a (pre ++ (e ∷ b ∷ post))
  Chain-insert a [] post q c d h = (
    rw (==_false a e (λ z. h.0 (sym z)), q, ==_refl a),
    rw (==_false e b h.1.0, ==_refl e, q),
    (
      rw (==_refl e),
      rw (==_refl b),
      tail_kept post (subst (λ z. NotIn z (b ∷ post)) (sym q) d.0) h.1 d.1.0 c.2,
    ),
  )
  Chain-insert a (x ∷ pre) post q c d h = (
    rw
        (
          ==_false a e (λ z. h.0 (sym z)),
          ==_false a p (λ z. NotIn-last a x pre (before a (x ∷ pre) d.0) (z ∙ q)),
        )
        c.0,
    rw (==_false x b (front x pre d.1.0), ==_false x e (λ z. h.1.0 (sym z))) c.1,
    Chain-insert x pre post q c.2 d.1 h.1,
  )
    where
      before : (z : Ptr) (zs : List Ptr) → NotIn z (zs ++ (b ∷ post)) → NotIn z zs
      before z zs k = (NotIn-split z zs (b ∷ post) k).0

      front : (z : Ptr) (zs : List Ptr) → NotIn z (zs ++ (b ∷ post)) → z ≢ b
      front z zs k = (NotIn-split z zs (b ∷ post) k).1.0

pub list_insert-Chain :
    (m : Memory) (l : Ends) (pre post : List Ptr) (b e : Ptr)
    → Chain m l.head (pre ++ (b ∷ post))
    → Distinct (l.head ∷ pre ++ (b ∷ post))
    → NotIn null (l.head ∷ pre ++ (b ∷ post))
    → NotIn e (l.head ∷ pre ++ (b ∷ post))
    → e ≢ null
    → (m' : Memory) × (list_insert_before b e m ≡ some (tt, m'))
      × Chain m' l.head (pre ++ (e ∷ b ∷ post))
      × (m'.intr_on ≡ m.intr_on)
list_insert-Chain m l pre post b e c d z h he =
    let q = prev-last m l.head pre b post c in
    let k = NotIn-split null pre (b ∷ post) z.1 in
    let hp : m.prev b ≢ null = λ w. NotIn-last null l.head pre (z.0, k.0) (sym (sym q ∙ w)) in
    (
      inserted m (m.prev b) b e,
      insert_lem m b e (λ w. k.1.0 (sym w)) he hp,
      Chain-insert m (m.prev b) b e l.head pre post q c d h,
      refl,
    )

Distinct-insert :
    (pre post : List Ptr) (e : Ptr)
    → Distinct (pre ++ post)
    → NotIn e (pre ++ post)
    → Distinct (pre ++ (e ∷ post))
Distinct-insert [] post e d h = (h, d)
Distinct-insert (x ∷ pre) post e d h =
    let k = NotIn-split x pre post d.0 in
    (NotIn-append x pre (e ∷ post) k.0 (λ z. h.0 (sym z), k.1), Distinct-insert pre post e d.1 h.1)

-- `e` goes between the elements `pre` and `post`.
insert_between :
    (m : Memory) (l : Ends) (pre post : List Ptr) (b e : Ptr)
    → Chain m l.head (pre ++ (b ∷ post))
    → Distinct (l.head ∷ pre ++ (b ∷ post))
    → NotIn null (l.head ∷ pre ++ (b ∷ post))
    → NotIn e (l.head ∷ pre ++ (b ∷ post))
    → e ≢ null
    → (m' : Memory) × (list_insert_before b e m ≡ some (tt, m'))
      × (m'.intr_on ≡ m.intr_on)
      × Chain m' l.head (pre ++ (e ∷ b ∷ post))
      × Distinct (l.head ∷ pre ++ (e ∷ b ∷ post))
      × NotIn null (l.head ∷ pre ++ (e ∷ b ∷ post))
insert_between m l pre post b e c d z h he =
    let (m', run, ch, intr) = list_insert-Chain m l pre post b e c d z h he in
    let k = NotIn-split null pre (b ∷ post) z.1 in
    (
      m',
      run,
      intr,
      ch,
      Distinct-insert (l.head ∷ pre) (b ∷ post) e d h,
      (z.0, NotIn-append null pre (e ∷ b ∷ post) k.0 (λ w. he (sym w), k.1)),
    )

-- `e` is a node that does not stand in the list.
abbrev pub IsFreshFor : Ptr → Ends → List Ptr → Type 0
IsFreshFor e l xs = (e ≢ null) × NotIn e (l.head ∷ xs ++ (l.tail ∷ []))

-- `listAppend` puts an element that is not in a well-formed list last in it, and leaves the
-- interrupt flag as it was; the list stays well formed.
pub list_append-IsList :
    (m : Memory) (l : Ends) (xs : List Ptr) (e : Ptr)
    → IsList m l xs
    → IsFreshFor e l xs
    → (m' : Memory) × (list_append l e m ≡ some (tt, m'))
      × IsList m' l (xs ++ (e ∷ []))
      × (m'.intr_on ≡ m.intr_on)
unfolding list_append
list_append-IsList m l xs e is fresh =
    let (m', run, intr, c, d, z) =
      insert_between m l xs [] l.tail e is.chain is.distinct is.real fresh.1 fresh.0 in
    let q = append_assoc xs (e ∷ []) (l.tail ∷ []) in
    (m', run, record { chain = rw q c; distinct = rw q d; real = rw q z }, intr)

push_before :
    (m : Memory) (l : Ends) (b e : Ptr) (post : List Ptr)
    → Chain m l.head (b ∷ post)
    → Distinct (l.head ∷ b ∷ post)
    → NotIn null (l.head ∷ b ∷ post)
    → NotIn e (l.head ∷ b ∷ post)
    → e ≢ null
    → (m' : Memory) × (list_push l e m ≡ some (tt, m'))
      × (m'.intr_on ≡ m.intr_on)
      × Chain m' l.head (e ∷ b ∷ post)
      × Distinct (l.head ∷ e ∷ b ∷ post)
      × NotIn null (l.head ∷ e ∷ b ∷ post)
unfolding list_push
push_before m l b e post c d z h he =
    let (m', run, intr, c', d', z') = insert_between m l [] post b e c d z h he in
    (m', rw (load_next_lem l.head (λ w. z.0 (sym w)), c.0) run, intr, c', d', z')

-- `listPush` puts an element that is not in a well-formed list first in it, and leaves the
-- interrupt flag as it was; the list stays well formed.
pub list_push-IsList :
    (m : Memory) (l : Ends) (xs : List Ptr) (e : Ptr)
    → IsList m l xs
    → IsFreshFor e l xs
    → (m' : Memory) × (list_push l e m ≡ some (tt, m'))
      × IsList m' l (e ∷ xs)
      × (m'.intr_on ≡ m.intr_on)
list_push-IsList m l [] e is fresh =
    let (m', run, intr, c, d, z) =
      push_before m l l.tail e [] is.chain is.distinct is.real fresh.1 fresh.0 in
    (m', run, record { chain = c; distinct = d; real = z }, intr)
list_push-IsList m l (x ∷ xs) e is fresh =
    let (m', run, intr, c, d, z) =
      push_before m l x e (xs ++ (l.tail ∷ [])) is.chain is.distinct is.real fresh.1 fresh.0 in
    (m', run, record { chain = c; distinct = d; real = z }, intr)
