-- ===== src/Fs/Descriptors/Slots.antt =====
-- Which slot the searches find, and what the table of a process holds behind them.
use gogoos.Common.{
  ℕ, zero, suc, ◌+◌, ◌≤◌, ◌<◌, ◌≡◌, ◌≢◌, refl, Bool, true, false, Bool-cases, some, List, ==_false,
  get_elem?, get_elem?_in, get_elem?-set_self, get_elem?-set_ne, set, length, arith, ℕ_discrete,
  ◌⊎◌, inl, inr,
}
use gogoos.Common.Int.{ℤ, pos, negsuc}
use gogoos.Fs.{File}
use gogoos.Fs.Descriptors.{
  first_slot, is_unused, is_minus_one, get_free_slot_in_global, pcb_fd_install,
}

-- No slot from `a` up to `b` is free.
pub NoneFree {ℓ} : {A : Type ℓ} → (A → Bool) → List A → (a b : ℕ) → Type ℓ
NoneFree {A = A} free table a b =
    (j : ℕ) (x : A) → a ≤ j → j < b → get_elem? table j ≡ some x → free x ≡ false

-- A slot below `bound` that is free, where none from `from` on is free before it.
pub record FirstFree {ℓ} {A : Type ℓ} (free : A → Bool) (table : List A) (from bound i : ℕ)
    : Type ℓ where
  pub entry : A
  pub at : get_elem? table i ≡ some entry
  pub is_free : free entry ≡ true
  pub lower : from ≤ i
  pub upper : i < bound
  pub before : NoneFree free table from i

first_slot_lem {ℓ} :
    {A : Type ℓ} (free : A → Bool) (table : List A) (rounds idx : ℕ)
    → rounds + idx ≤ length table
    → (i : ℕ) × (first_slot free table rounds idx ≡ some i)
      × (FirstFree free table idx (rounds + idx) i
          ⊎ ((i ≡ rounds + idx) × NoneFree free table idx i))
unfolding first_slot NoneFree
first_slot_lem free table zero idx h =
    (idx, refl, inr (omega arith, λ j x a b e. absurd (omega arith)))
first_slot_lem {A = A} free table (suc rounds) idx h =
    let (x, at) = get_elem?_in table idx (omega arith) in
    elim (Bool-cases (free x)) [
      | inl is_true ↦ (
        idx,
        rw (at, is_true) refl,
        inl (record {
          entry = x;
          at = at;
          is_free = is_true;
          lower = omega arith;
          upper = omega arith;
          before = λ j y a b e. absurd (omega arith);
        }),
      )
      | inr is_false ↦
          let (i, run, found) = first_slot_lem free table rounds (idx + 1) (omega arith) in
          (
            i,
            rw (at, is_false) run,
            elim found [
              | inl f ↦ inl (record {
                entry = f.entry;
                at = f.at;
                is_free = f.is_free;
                lower = omega (arith, f.lower);
                upper = omega (arith, f.upper);
                before = extend x at is_false i f.before;
              })
              | inr (e, f) ↦ inr (omega (arith, e), extend x at is_false i f)
            ],
          )
    ]
  where
    extend :
        (x : A)
        → get_elem? table idx ≡ some x
        → free x ≡ false
        → (i : ℕ) → NoneFree free table (idx + 1) i
        → NoneFree free table idx i
    extend x at is_false i f j y a b e = elim (ℕ_discrete idx j) [
      | yes q ↦ cc
      | no ne ↦ f j y (omega arith) b e
    ]

-- What `getFreeSlotInGlobal` answers.
pub data Global (table : List File) : ℤ → Type 0 where
  slot : {i : ℕ} → FirstFree is_unused table 3 32 i → Global table (pos i)
  exhausted : NoneFree is_unused table 3 32 → Global table (negsuc 0)

-- On a table of 32 entries `getFreeSlotInGlobal` answers the first unused slot behind the standard
-- streams, or -1 where all of them are used.
pub get_free_slot_in_global-Global :
    (table : List File)
    → length table ≡ 32
    → (r : ℤ) × (get_free_slot_in_global table ≡ some r) × Global table r
unfolding get_free_slot_in_global
get_free_slot_in_global-Global table e =
    let (i, run, found) = first_slot_lem is_unused table 29 3 (omega arith) in
    elim found [
      | inl f ↦ (pos i, rw (run, ==_false i 32 (omega (arith, f.upper))) refl, slot f)
      | inr (q, f) ↦ (negsuc 0, rw (run, q) refl, exhausted (rw q at f))
    ]

-- What `pcbFdInstall` answers, and the table that it leaves.
pub data Installed (table : List ℤ) (g : ℤ) : ℤ × List ℤ → Type 0 where
  slot :
      {i : ℕ} {table' : List ℤ}
      → FirstFree is_minus_one table 3 7 i
      → get_elem? table' i ≡ some g
      → ((j : ℕ) → i ≢ j → get_elem? table' j ≡ get_elem? table j)
      → Installed table g (pos i, table')
  exhausted : NoneFree is_minus_one table 3 7 → Installed table g (negsuc 0, table)

-- On a table of 7 entries `pcbFdInstall` puts the global descriptor in the first slot behind the
-- standard streams that holds -1, with every other slot as before, and answers that slot; where no
-- slot is free it answers -1 and leaves the table.
pub pcb_fd_install-Installed :
    (table : List ℤ) (g : ℤ)
    → length table ≡ 7
    → (r : ℤ × List ℤ) × (pcb_fd_install table g ≡ some r) × Installed table g r
unfolding pcb_fd_install
pcb_fd_install-Installed table g e =
    let (i, run, found) = first_slot_lem is_minus_one table 4 3 (omega arith) in
    elim found [
      | inl f ↦ (
        (pos i, set table i g),
        rw (run, ==_false i 7 (omega (arith, f.upper))) refl,
        slot f (get_elem?-set_self table i g (omega (arith, f.upper)))
            (λ j ne. get_elem?-set_ne table i j g ne),
      )
      | inr (q, f) ↦ ((negsuc 0, table), rw (run, q) refl, exhausted (rw q at f))
    ]
