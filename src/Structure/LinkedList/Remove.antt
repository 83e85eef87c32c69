-- ===== src/Structure/LinkedList/Remove.antt =====
-- `listInit`, `listRemove` and `listPop`.
use mathlib.Core.Path.{subst}
use gogoos.Common.{
  ◌≡◌, ◌≢◌, refl, ◌∙◌, ap, sym, some, List, [], ◌∷◌, ◌++◌, arith, ==_false, ==_refl, append_assoc,
}
use gogoos.Structure.LinkedList.{Ptr, null, Memory, Ends, update, list_init, list_remove, list_pop}
use gogoos.Structure.LinkedList.Chain.{
  NotIn, Distinct, Chain, IsList, NotIn-append, NotIn-split, last_of, prev-last, NotIn-last,
  Chain-frame, load_next_lem, load_prev_lem, store_next_lem, store_prev_lem,
}
use gogoos.Structure.LinkedList.Insert.{ne_of_NotIn}

-- `listInit` makes an empty list of two nodes.
pub list_init-IsList :
    (m : Memory) (l : Ends)
    → l.head ≢ null
    → l.tail ≢ null
    → l.head ≢ l.tail
    → (m' : Memory) × (list_init l m ≡ some (tt, m')) × IsList m' l []
unfolding list_init
list_init-IsList m l hh ht ne = (
  record m {
    prev = update (update m.prev l.head null) l.tail l.head;
    next = update (update m.next l.head l.tail) l.tail null;
  },
  rw (
    store_prev_lem l.head hh,
    store_next_lem l.head hh,
    store_prev_lem l.tail ht,
    store_next_lem l.tail ht,
  ),
  record {
    chain = (rw (==_false l.head l.tail ne, ==_refl l.head), rw (==_refl l.tail), tt);
    distinct = ((ne, tt), (tt, tt));
    real = (λ z. hh (sym z), (λ z. ht (sym z), tt));
  },
)

-- the memory without the links of `e`, which stands between `p` and `b`
abbrev pub removed : Memory → (p b : Ptr) → Memory
removed m p b = record m { next = update m.next p b; prev = update m.prev b p }

remove_lem :
    (m : Memory) (e : Ptr)
    → e ≢ null
    → m.prev e ≢ null
    → m.next e ≢ null
    → list_remove e m ≡ some (tt, removed m (m.prev e) (m.next e))
unfolding list_remove
remove_lem m e he hp hn =
    let again : update m.next (m.prev e) (m.next e) e ≡ m.next e = ground arith in
    rw (
      load_prev_lem e he,
      load_next_lem e he,
      store_next_lem (m.prev e) hp,
      load_next_lem e he,
      load_prev_lem e he,
      again,
      store_prev_lem (m.next e) hn,
    )

module _ (m : Memory) (p b e : Ptr) where
  tail_kept :
      (post : List Ptr)
      → NotIn p (b ∷ post)
      → NotIn b post
      → Chain m b post
      → Chain (removed m p b) b post
  tail_kept post hp hb =
      Chain-frame m (removed m p b) b post
        (λ x k. rw (==_false x p (ne_of_NotIn x p (b ∷ post) hp k)))
        (λ x k. rw (==_false x b (ne_of_NotIn x b post hb k)))

  Chain-remove :
      (a : Ptr) (pre post : List Ptr)
      → p ≡ last_of a pre
      → Chain m a (pre ++ (e ∷ b ∷ post))
      → Distinct (a ∷ pre ++ (e ∷ b ∷ post))
      → Chain (removed m p b) a (pre ++ (b ∷ post))
  Chain-remove a [] post q c d = (
    rw (q, ==_refl a),
    rw (==_refl b) q,
    tail_kept post (subst (λ z. NotIn z (b ∷ post)) (sym q) d.0.1) d.1.1.0 c.2.2,
  )
  Chain-remove a (x ∷ pre) post q c d = (
    rw (==_false a p (λ z. NotIn-last a x pre (before a (x ∷ pre) d.0) (z ∙ q))) c.0,
    rw (==_false x b (front x pre d.1.0)) c.1,
    Chain-remove x pre post q c.2 d.1,
  )
    where
      before : (z : Ptr) (zs : List Ptr) → NotIn z (zs ++ (e ∷ b ∷ post)) → NotIn z zs
      before z zs k = (NotIn-split z zs (e ∷ b ∷ post) k).0

      front : (z : Ptr) (zs : List Ptr) → NotIn z (zs ++ (e ∷ b ∷ post)) → z ≢ b
      front z zs k = (NotIn-split z zs (e ∷ b ∷ post) k).1.1.0

NotIn-drop : (x e : Ptr) (pre post : List Ptr) → NotIn x (pre ++ (e ∷ post)) → NotIn x (pre ++ post)
NotIn-drop x e pre post h =
    let k = NotIn-split x pre (e ∷ post) h in NotIn-append x pre post k.0 k.1.1

Distinct-drop :
    (e : Ptr) (pre post : List Ptr) → Distinct (pre ++ (e ∷ post)) → Distinct (pre ++ post)
Distinct-drop e [] post d = d.1
Distinct-drop e (x ∷ pre) post d = (NotIn-drop x e pre post d.0, Distinct-drop e pre post d.1)

-- The links of the element at hand.
next-Chain :
    (m : Memory) (a : Ptr) (pre post : List Ptr) (e b : Ptr)
    → Chain m a (pre ++ (e ∷ b ∷ post))
    → m.next e ≡ b
next-Chain m a [] post e b c = c.2.0
next-Chain m a (x ∷ pre) post e b c = next-Chain m x pre post e b c.2

remove_between :
    (m : Memory) (l : Ends) (pre post : List Ptr) (e b : Ptr)
    → Chain m l.head (pre ++ (e ∷ b ∷ post))
    → Distinct (l.head ∷ pre ++ (e ∷ b ∷ post))
    → NotIn null (l.head ∷ pre ++ (e ∷ b ∷ post))
    → (m' : Memory) × (list_remove e m ≡ some (tt, m'))
      × (m'.intr_on ≡ m.intr_on)
      × Chain m' l.head (pre ++ (b ∷ post))
remove_between m l pre post e b c d z =
    let q = prev-last m l.head pre e (b ∷ post) c in
    let n = next-Chain m l.head pre post e b c in
    let k = NotIn-split null pre (e ∷ b ∷ post) z.1 in
    let hp : m.prev e ≢ null = λ w. NotIn-last null l.head pre (z.0, k.0) (sym (sym q ∙ w)) in
    let hn : m.next e ≢ null = λ w. k.1.1.0 (sym (sym n ∙ w)) in
    (
      removed m (m.prev e) (m.next e),
      remove_lem m e (λ w. k.1.0 (sym w)) hp hn,
      refl,
      rw n (Chain-remove m (m.prev e) b e l.head pre post q c d),
    )

-- the element's neighbour to the right, or the tail
split_tail : (post : List Ptr) (t : Ptr) → (b : Ptr) × (r : List Ptr) × (post ++ (t ∷ []) ≡ b ∷ r)
split_tail [] t = (t, [], refl)
split_tail (x ∷ post) t = (x, post ++ (t ∷ []), refl)

-- From a well-formed list `listRemove` takes an element out, wherever it stands, and leaves the
-- interrupt flag as it was; the list stays well formed.
pub list_remove-IsList :
    (m : Memory) (l : Ends) (pre post : List Ptr) (e : Ptr)
    → IsList m l (pre ++ (e ∷ post))
    → (m' : Memory) × (list_remove e m ≡ some (tt, m'))
      × IsList m' l (pre ++ post)
      × (m'.intr_on ≡ m.intr_on)
list_remove-IsList m l pre post e is =
    let (b, r, t) = split_tail post l.tail in
    let q : (pre ++ (e ∷ post)) ++ (l.tail ∷ []) ≡ pre ++ (e ∷ b ∷ r) =
      append_assoc pre (e ∷ post) (l.tail ∷ []) ∙ ap (λ u. pre ++ (e ∷ u)) t in
    let w : (pre ++ post) ++ (l.tail ∷ []) ≡ pre ++ (b ∷ r) =
      append_assoc pre post (l.tail ∷ []) ∙ ap (λ u. pre ++ u) t in
    let (m', run, intr, c) =
      remove_between m l pre r e b (rw q at is.chain) (rw q at is.distinct) (rw q at is.real) in
    let d : Distinct (l.head ∷ pre ++ (b ∷ r)) =
      Distinct-drop e (l.head ∷ pre) (b ∷ r) (rw q at is.distinct) in
    let z : NotIn null (l.head ∷ pre ++ (b ∷ r)) =
      NotIn-drop null e (l.head ∷ pre) (b ∷ r) (rw q at is.real) in
    (m', run, record { chain = rw w c; distinct = rw w d; real = rw w z }, intr)

-- `listPop` answers NULL for an empty list, which it leaves alone.
pub list_pop-nil : (m : Memory) (l : Ends) → IsList m l [] → list_pop l m ≡ some (null, m)
unfolding list_pop
list_pop-nil m l is = rw (load_next_lem l.head (λ z. is.real.0 (sym z)), is.chain.0, ==_refl l.tail)

-- On a well-formed list that is not empty `listPop` takes the first element out, answers it, and
-- leaves the interrupt flag as it was; the list stays well formed.
pub list_pop-cons :
    (m : Memory) (l : Ends) (x : Ptr) (xs : List Ptr)
    → IsList m l (x ∷ xs)
    → (m' : Memory) × (list_pop l m ≡ some (x, m')) × IsList m' l xs × (m'.intr_on ≡ m.intr_on)
unfolding list_pop
list_pop-cons m l x xs is =
    let (m', run, is', intr) = list_remove-IsList m l [] xs x is in
    let ne : x ≢ l.tail = (NotIn-split x xs (l.tail ∷ []) is.distinct.1.0).1.0 in
    (
      m',
      rw (
        load_next_lem l.head (λ z. is.real.0 (sym z)),
        is.chain.0,
        ==_false x l.tail ne,
        load_next_lem l.head (λ z. is.real.0 (sym z)),
        is.chain.0,
        run,
      ),
      is',
      intr,
    )
