-- ===== src/Structure/IoQueue/Refine.antt =====
-- A valid ring behaves as a queue of at most ten characters.
use gogoos.Common.{
  ℕ, zero, suc, ◌+◌, ◌-◌, ◌%◌, ◌<◌, ◌≡◌, refl, ap, ap₂, ◌∙◌, inl, inr, Bool-cases, true, false,
  some, List, [], ◌∷◌, ◌++◌, arith, ◌==◌, if◌then◌else◌, length, get_or, set, length-set,
  get_elem?-get_or, get_or-set_self, get_or-set_ne, lt→ltb, ◌⊎◌,
}
use gogoos.Structure.IoQueue.{
  IoQueue, Pass, waits, done, next_pos, put_char, get_char, io_queue_init,
}

pub record IsValid (q : IoQueue) : Type 0 where
  pub room : length q.buf ≡ 10
  pub head_lt : q.head < 10
  pub tail_lt : q.tail < 10
  pub full : q.is_full ≡ true → (q.head ≡ q.tail) × (q.is_empty ≡ false)
  pub empty : q.is_empty ≡ true → q.head ≡ q.tail
  pub meet : q.head ≡ q.tail → (q.is_full ≡ true) ⊎ (q.is_empty ≡ true)

-- how many characters wait
abbrev pub count : IoQueue → ℕ
count q = if q.is_full then 10 else (q.head + 10 - q.tail) % 10

-- the `n` characters from `pos` on, round the ring
abbrev pub slots : List ℕ → ℕ → ℕ → List ℕ
slots buf pos zero = []
slots buf pos (suc n) = get_or buf pos 0 ∷ slots buf (next_pos pos) n

abbrev pub contents : IoQueue → List ℕ
contents q = slots q.buf q.tail (count q)

length-slots : (buf : List ℕ) (pos n : ℕ) → length (slots buf pos n) ≡ n
length-slots buf pos zero = refl
length-slots buf pos (suc n) = omega (arith, length-slots buf (next_pos pos) n)

slots-set :
    (buf : List ℕ) (pos n i c : ℕ)
    → length buf ≡ 10
    → pos < 10
    → n < 10
    → i ≡ (pos + n) % 10
    → slots (set buf i c) pos (suc n) ≡ slots buf pos n ++ (c ∷ [])
slots-set buf pos zero i c l hp hn e =
    let q : i ≡ pos = omega arith in rw (q, get_or-set_self buf pos c 0 (omega arith))
slots-set buf pos (suc n) i c l hp hn e =
    ap₂ ◌∷◌ (get_or-set_ne buf i pos c 0 (omega arith))
      (slots-set buf (next_pos pos) n i c l (omega arith) (omega arith) (omega arith))

slots_head :
    (buf : List ℕ) (pos n : ℕ)
    → 0 < n
    → slots buf pos n ≡ get_or buf pos 0 ∷ slots buf (next_pos pos) (n - 1)
slots_head buf pos zero h = elim h [ ]
slots_head buf pos (suc n) h = let e : suc n - 1 ≡ n = omega arith in rw e

-- what a call of `ioQueuePutChar` may do to a queue of at most ten characters
pub data Put (q : IoQueue) (c : ℕ) : Pass IoQueue → Type 0 where
  put_waits : length (contents q) ≡ 10 → Put q c waits
  put_done :
      {q' : IoQueue}
      → length (contents q) < 10
      → contents q' ≡ contents q ++ (c ∷ [])
      → IsValid q'
      → Put q c (done q')

pub data Got (q : IoQueue) : Pass (ℕ × IoQueue) → Type 0 where
  get_waits : contents q ≡ [] → Got q waits
  get_done :
      {c : ℕ} {q' : IoQueue} → contents q ≡ c ∷ contents q' → IsValid q' → Got q (done (c, q'))

module _ (q : IoQueue) (v : IsValid q) where
  length-contents : length (contents q) ≡ count q
  length-contents = length-slots q.buf q.tail (count q)

  put_next : ℕ → IoQueue
  put_next c = record q {
    buf = set q.buf q.head c;
    head = next_pos q.head;
    is_empty = false;
    is_full = if next_pos q.head == q.tail then true else q.is_full;
  }

  put_next-IsValid : (c : ℕ) → q.is_full ≡ false → IsValid (put_next c)
  unfolding put_next
  put_next-IsValid c nf = record {
    room = omega (arith, length-set q.buf q.head c, v.room);
    head_lt = omega arith;
    tail_lt = v.tail_lt;
    full = ground arith;
    empty = ground arith;
    meet = ground arith;
  }

  count-put_next :
      (c : ℕ) → q.is_full ≡ false → (count (put_next c) ≡ suc (count q)) × (count q < 10)
  unfolding put_next
  count-put_next c nf = ground (arith, v.meet, v.empty, v.head_lt, v.tail_lt)

  -- On a valid queue `ioQueuePutChar` waits exactly when ten characters are in it; otherwise it
  -- appends the character, and the queue stays valid.
  pub put_char-Put : (c : ℕ) → (p : Pass IoQueue) × (put_char q c ≡ some p) × Put q c p
  unfolding put_char put_next
  put_char-Put c = elim (Bool-cases q.is_full) [
    | inl full ↦ (waits, rw full, put_waits (length-contents ∙ rw full))
    | inr nf ↦
        let (grows, few) = count-put_next c nf in
        (
          done (put_next c),
          rw (nf, lt→ltb q.head (length q.buf) (omega (arith, v.room, v.head_lt))),
          put_done (omega (arith, length-contents, few))
              (rw grows (slots-set q.buf q.tail (count q) q.head c v.room v.tail_lt few (place nf)))
              (put_next-IsValid c nf),
        )
  ]
    where
      place : q.is_full ≡ false → q.head ≡ (q.tail + count q) % 10
      place nf = ground (arith, v.head_lt, v.tail_lt)

  get_next : IoQueue
  get_next = record q {
    tail = next_pos q.tail;
    is_full = false;
    is_empty = if next_pos q.tail == q.head then true else q.is_empty;
  }

  get_next-IsValid : q.is_empty ≡ false → IsValid get_next
  unfolding get_next
  get_next-IsValid ne = record {
    room = v.room;
    head_lt = v.head_lt;
    tail_lt = omega arith;
    full = ground arith;
    empty = ground arith;
    meet = ground arith;
  }

  count-get_next : q.is_empty ≡ false → count q ≡ suc (count get_next)
  unfolding get_next
  count-get_next ne = ground (arith, v.meet, v.full, v.head_lt, v.tail_lt)

  count_empty : q.is_empty ≡ true → count q ≡ 0
  count_empty e = ground (arith, v.empty, v.full, v.head_lt, v.tail_lt)

  -- On a valid queue `ioQueueGetChar` waits exactly when it is empty; otherwise it takes the
  -- oldest character, and the queue stays valid.
  pub get_char-Got : (p : Pass (ℕ × IoQueue)) × (get_char q ≡ some p) × Got q p
  unfolding get_char get_next
  get_char-Got = elim (Bool-cases q.is_empty) [
    | inl e ↦ (waits, rw e, get_waits (ap (slots q.buf q.tail) (count_empty e)))
    | inr ne ↦ (
      done (get_or q.buf q.tail 0, get_next),
      rw (ne, get_elem?-get_or q.buf q.tail 0 (omega (arith, v.room, v.tail_lt))),
      get_done (ap (slots q.buf q.tail) (count-get_next ne)) (get_next-IsValid ne),
    )
  ]

-- `ioQueueInit` on a buffer of ten characters gives a valid, empty queue.
pub io_queue_init-IsValid :
    (q : IoQueue)
    → length q.buf ≡ 10
    → IsValid (io_queue_init q) × (contents (io_queue_init q) ≡ [])
unfolding io_queue_init
io_queue_init-IsValid q h = (
  record {
    room = h;
    head_lt = omega arith;
    tail_lt = omega arith;
    full = λ e. cc;
    empty = λ e. refl;
    meet = λ e. inr refl;
  },
  refl,
)
