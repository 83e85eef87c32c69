-- ===== src/Structure/LinkedList.antt =====
-- lib/structure/list.c over an explicit memory: every address has a `prev` and a `next` field, and
-- an access through NULL is a fault. A `List` is two nodes, its head and its tail.
pub mod Chain
pub mod Insert
pub mod Remove
pub mod Walk
mod Tests
use gogoos.Common.{
  ℕ, zero, suc, ◌+◌, Bool, true, false, Option, none, some, ◌==◌, if◌then◌else◌, u32, not,
}

abbrev pub Ptr : Type 0
Ptr = ℕ

abbrev pub null : Ptr
null = 0

-- The links of all nodes, and the interrupt flag of the processor (`true` is INTR_ON).
pub record Memory : Type 0 where
  pub prev : Ptr → Ptr
  pub next : Ptr → Ptr
  pub intr_on : Bool

-- `List`: where its two nodes are
pub record Ends : Type 0 where
  pub head : Ptr
  pub tail : Ptr

abbrev pub M : Type 0 → Type 0
M A = Memory → Option (A × Memory)

abbrev pub pure : {A : Type 0} → A → M A
pure a m = some (a, m)

abbrev pub and_then : {A B : Type 0} → Option (A × Memory) → (A → M B) → Option (B × Memory)
and_then none g = none
and_then (some (a, m)) g = g a m

infixl 5 ◌>>=◌ ◌>>◌
abbrev pub ◌>>=◌ : {A B : Type 0} → M A → (A → M B) → M B
f >>= g = λ m. and_then (f m) g

abbrev pub ◌>>◌ : {B : Type 0} → M (Unit {0}) → M B → M B
f >> g = f >>= λ _. g

abbrev pub update : (Ptr → Ptr) → Ptr → Ptr → Ptr → Ptr
update f p v q = if q == p then v else f q

pub load_next : Ptr → M Ptr
load_next p m = if p == null then none else some (m.next p, m)

pub load_prev : Ptr → M Ptr
load_prev p m = if p == null then none else some (m.prev p, m)

pub store_next : Ptr → Ptr → M (Unit {0})
store_next p v m = if p == null then none else some (tt, record m { next = update m.next p v })

pub store_prev : Ptr → Ptr → M (Unit {0})
store_prev p v m = if p == null then none else some (tt, record m { prev = update m.prev p v })

-- `getIntrStatus`, `disableIntr` and `setIntrStatus`
pub get_intr_status : M Bool
get_intr_status m = some (m.intr_on, m)

pub set_intr_status : Bool → M (Unit {0})
set_intr_status b m = some (tt, record m { intr_on = b })

pub list_init : Ends → M (Unit {0})
list_init l = do
  store_prev l.head null
  store_next l.head l.tail
  store_prev l.tail l.head
  store_next l.tail null

pub list_insert_before : (before elem : Ptr) → M (Unit {0})
unfolding get_intr_status set_intr_status
list_insert_before before elem = do
  status ← get_intr_status
  set_intr_status false
  p ← load_prev before
  store_next p elem
  q ← load_prev before
  store_prev elem q
  store_next elem before
  store_prev before elem
  set_intr_status status

pub list_push : Ends → Ptr → M (Unit {0})
list_push l elem = do first ← load_next l.head; list_insert_before first elem

pub list_append : Ends → Ptr → M (Unit {0})
list_append l elem = list_insert_before l.tail elem

pub list_remove : Ptr → M (Unit {0})
unfolding get_intr_status set_intr_status
list_remove elem = do
  status ← get_intr_status
  set_intr_status false
  p ← load_prev elem
  n ← load_next elem
  store_next p n
  n' ← load_next elem
  p' ← load_prev elem
  store_prev n' p'
  set_intr_status status

-- NULL for an empty list
pub list_pop : Ends → M Ptr
list_pop l = do
  first ← load_next l.head
  if first == l.tail then pure null else do elem ← load_next l.head; list_remove elem; pure elem

pub list_is_empty : Ends → M Bool
list_is_empty l = do first ← load_next l.head; pure (first == l.tail)

-- The loops walk from `e` on fuel; `none` is then a walk that does not reach the tail.
exist_from : (fuel : ℕ) → Ends → (elem e : Ptr) → M Bool
exist_from zero l elem e = λ m. none
exist_from (suc f) l elem e =
    if e == l.tail
    then pure false
    else if e == elem
    then pure true
    else do n ← load_next e; exist_from f l elem n

pub list_elem_exist : (fuel : ℕ) → Ends → Ptr → M Bool
unfolding exist_from
list_elem_exist fuel l elem = do first ← load_next l.head; exist_from fuel l elem first

len_from : (fuel : ℕ) → Ends → (e : Ptr) → (length : ℕ) → M ℕ
len_from zero l e n = λ m. none
len_from (suc f) l e n =
    if e == l.tail then pure n else do e' ← load_next e; len_from f l e' (u32 (n + 1))

pub list_len : (fuel : ℕ) → Ends → M ℕ
unfolding len_from
list_len fuel l = do first ← load_next l.head; len_from fuel l first 0

-- `func` may read what the elements belong to; it does not change the links.
traverse_from : (fuel : ℕ) → Ends → (Ptr → Bool) → Ptr → M Ptr
traverse_from zero l func e = λ m. none
traverse_from (suc f) l func e =
    if e == l.tail
    then pure null
    else if func e
    then pure e
    else do n ← load_next e; traverse_from f l func n

pub list_traversal : (fuel : ℕ) → Ends → (Ptr → Bool) → M Ptr
unfolding traverse_from
list_traversal fuel l func = do
  empty ← list_is_empty l
  if empty then pure null else do first ← load_next l.head; traverse_from fuel l func first
