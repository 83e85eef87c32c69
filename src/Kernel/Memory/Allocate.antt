-- ===== src/Kernel/Memory/Allocate.antt =====
-- kernel/memory.c: `allocPage` for a user, which maps all pages or gives everything back.
use gogoos.Common.{
  ℕ, zero, suc, ◌+◌, ◌-◌, ◌*◌, ◌<◌, ◌≤◌, ◌≡◌, refl, sym, ap, ◌∙◌, ◌⊎◌, inl, inr, true, false, some,
  arith, ==_false, u32, lt→ltb,
}
use gogoos.Structure.BitMap.Scan.{IsFirstRun, NoRun}
use gogoos.Kernel.Memory.{
  VirtualAddrPool, pf_user, Pages, pg_size, is_present, free_vir_addr, clear_pages, alloc_phy_addr,
  give_up, alloc_loop,
}
use gogoos.Kernel.Memory.Translate.{frame, with_bit, alloc_phy_addr-lem, map_page_table-lem}
use gogoos.Kernel.Memory.Frames.{
  pte, pde, Room, map_next, Mapped, one_more, Kept, Mapped-Kept, pte_injective, pde-pte,
}
use gogoos.Kernel.Memory.Rollback.{Returned, roll_back-Returned}

-- the pages behind which no frame is left
abbrev pub RunsOut : Pages → (v cnt : ℕ) → Type 0
RunsOut m0 v cnt = (n : ℕ) × (m : Pages) × (n < cnt) × Mapped m0 v n m × NoRun m.user_pap.bit_map 1

module _ (m0 : Pages) (v cnt : ℕ) (room : Room m0 v cnt) (vap' : VirtualAddrPool)
    (clears : clear_pages m0.vap v cnt ≡ some vap') where
  alloc_loop-mapped :
      (left n f : ℕ) (m : Pages)
      → n + suc left ≡ cnt
      → IsFirstRun m.user_pap.bit_map 1 f
      → Kept m0 v n m
      → alloc_phy_addr m.user_pap ≡ some (frame m.user_pap f, with_bit m.user_pap f true)
      → alloc_loop (suc left) pf_user v cnt m (v + n * pg_size)
        ≡ alloc_loop left pf_user v cnt (map_next m v n f) (v + suc n * pg_size)
  unfolding alloc_loop
  alloc_loop-mapped left n f m e run kept got =
      let a = v + n * pg_size in
      let m' = record m { user_pap = with_bit m.user_pap f true } in
      let next : u32 (a + pg_size) ≡ v + suc n * pg_size = omega (arith, room.low) in
      let positive = kept.pool.positive in
      let table : is_present (m.word (pde v n)) ≡ true =
        ap is_present
          (kept.word (pde v n) (λ k kn. pde-pte m0 v cnt room n k (omega arith) (omega arith)))
        ∙ room.tables n (omega arith) in
      let absent : is_present (m.word (pte v n)) ≡ false =
        ap is_present (
          kept.word (pte v n)
            (λ k kn. pte_injective m0 v cnt room n k (omega arith) (omega arith) (omega arith)))
        ∙ room.unmapped n (omega arith) in
      rw
        (
          got,
          ==_false (frame m.user_pap f) 0 (omega arith),
          map_page_table-lem m' a (omega (arith, room.low)) (frame m.user_pap f) table absent,
          next,
        )
        refl

  alloc_loop-full :
      (left n : ℕ) (m : Pages)
      → n + suc left ≡ cnt
      → alloc_phy_addr m.user_pap ≡ some (0, m.user_pap)
      → alloc_loop (suc left) pf_user v cnt m (v + n * pg_size)
        ≡ give_up n m pf_user v cnt (v + n * pg_size)
  unfolding alloc_loop
  alloc_loop-full left n m e got =
      let done : cnt - suc left ≡ n = omega arith in rw (got, done) refl

  give_up-Returned :
      {n : ℕ} {m : Pages}
      → Mapped m0 v n m
      → n ≤ cnt
      → (m2 : Pages) × (give_up n m pf_user v cnt (v + n * pg_size)
          ≡ some (0, record m2 { vap = vap' }))
        × Returned m0 m m2
  unfolding give_up free_vir_addr
  give_up-Returned {n = n} {m = m} r le =
      let kept = Mapped-Kept room.pool r in
      let (m2, back, ret) = roll_back-Returned m0 v cnt room m r le (record {
        pool = kept.pool;
        start = refl;
        size = refl;
        bits = λ i. refl;
        entries = λ k kn. refl;
        tables = λ k kn. refl;
      }) in
      let c2 : clear_pages m2.vap v cnt ≡ some vap' =
        ap (λ x. clear_pages x v cnt) (ret.vap ∙ kept.vap) ∙ clears in
      (m2, rw (back, c2, lt→ltb (v - pg_size) v (omega (arith, room.positive))) refl, ret)

  -- The loop maps all pages, or gives everything back.
  pub alloc_loop-lem :
      (left n : ℕ) {m : Pages}
      → n + left ≡ cnt
      → Mapped m0 v n m
      → ((m' : Pages) × (alloc_loop left pf_user v cnt m (v + n * pg_size) ≡ some (v, m'))
          × Mapped m0 v cnt m')
        ⊎ ((m1 : Pages) × (m2 : Pages) × (alloc_loop left pf_user v cnt m (v + n * pg_size)
              ≡ some (0, record m2 { vap = vap' }))
            × Returned m0 m1 m2
            × RunsOut m0 v cnt)
  unfolding alloc_loop
  alloc_loop-lem zero n {m} e r =
      let all : n ≡ cnt = omega (arith, e) in inl (m, refl, rw (sym all) r)
  alloc_loop-lem (suc left) n {m} e r =
      let kept = Mapped-Kept room.pool r in
      elim (alloc_phy_addr-lem m.user_pap kept.pool) [
        | inl (f, run, got) ↦
            let step = alloc_loop-mapped left n f m e run kept got in
            elim (alloc_loop-lem left (suc n) (omega (arith, e)) (one_more f r run)) [
              | inl (m', goes, all) ↦ inl (m', step ∙ goes, all)
              | inr (m1, m2, goes, ret, out) ↦ inr (m1, m2, step ∙ goes, ret, out)
            ]
        | inr (none_left, got) ↦
            let (m2, gives, ret) = give_up-Returned r (omega (arith, e)) in
            inr (
              m,
              m2,
              alloc_loop-full left n m e got ∙ gives,
              ret,
              (n, m, omega (arith, e), r, none_left),
            )
      ]
