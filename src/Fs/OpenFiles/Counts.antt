-- ===== src/Fs/OpenFiles/Counts.antt =====
-- fs/inode.c: the count of an open inode is the number of its users.
use gogoos.Common.{
  ℕ, ◌+◌, ◌-◌, ◌^◌, ◌<◌, ◌≤◌, ◌≡◌, ◌≢◌, refl, sym, ◌∙◌, some, List, [], ◌∷◌, ◌==◌, ==_refl,
  ==_false, if◌then◌else◌, arith, u32, Bool-cases, ℕ_discrete, inl, inr,
}
use mathlib.Core.Option.{some-injective}
use gogoos.Kernel.Thread.Count.{count, count_here, count_skip}
use gogoos.Fs.{Inode}
use gogoos.Fs.OpenFiles.{Files, without, inode_close, find_inode, reopened}

-- The inodes of the list have as many users as they count, one at least, and no other place has any;
-- no inode is in the list twice.
pub record IsCounted (inodes : ℕ → Inode) (open_inodes : List ℕ) (users : ℕ → ℕ) : Type 0 where
  pub once : (p : ℕ) → count p open_inodes ≤ 1
  pub no_user : (p : ℕ) → p ≢ 0 → count p open_inodes ≡ 0 → users p ≡ 0
  pub counted :
      (p : ℕ) → count p open_inodes ≡ 1 → (p ≢ 0) × ((inodes p).open_cnt ≡ users p) × (0 < users p)
  pub few : (p : ℕ) → p ≢ 0 → users p < 2 ^ 31

-- one more user of a place
abbrev pub and_one : ℕ → (ℕ → ℕ) → ℕ → ℕ
and_one at users p = (if at == p then 1 else 0) + users p

count-without : (p at : ℕ) (ps : List ℕ) → p ≢ at → count p (without ps at) ≡ count p ps
unfolding count without
count-without p at [] ne = refl
count-without p at (x ∷ ps) ne = ground (arith, count-without p at ps ne)

count-without_self : (at : ℕ) (ps : List ℕ) → count at ps ≡ 1 → count at (without ps at) ≡ 0
unfolding count without
count-without_self at [] one = absurd (omega (arith, one))
count-without_self at (x ∷ ps) one = ground (arith, count-without_self at ps)

module _ (inodes : ℕ → Inode) (ps : List ℕ) (users : ℕ → ℕ) (at : ℕ)
    (h : IsCounted inodes ps (and_one at users)) where
  -- one user less, but not the last
  stays :
      users at ≢ 0
      → IsCounted
          (λ p. if p == at then record (inodes at) { open_cnt = users at } else inodes p)
          ps
          users
  stays left = record {
    once = h.once;
    no_user = λ p ne c. ground (arith, h.no_user p ne c);
    counted = λ p c.
        let (ne, n, some_user) = h.counted p c in
        elim (ℕ_discrete p at) [
          | yes e ↦ (ne, rw (e, ==_refl at) refl, rw (e) (omega (arith, left)))
          | no other ↦
              let same : and_one at users p ≡ users p =
                rw (==_false at p (λ q. other (sym q))) (omega arith) in
              (ne, rw (==_false p at other) (n ∙ same), omega (arith, same, some_user))
        ];
    few = λ p ne. ground (arith, h.few p ne);
  }

  -- the last user
  gone :
      count at ps ≡ 1
      → users at ≡ 0
      → IsCounted
          (λ p. if p == at then record (inodes at) { open_cnt = 0 } else inodes p)
          (without ps at)
          users
  gone listed z = record {
    once = λ p. elim (ℕ_discrete p at) [
      | yes e ↦ rw (e) (omega (arith, count-without_self at ps listed))
      | no other ↦ rw (count-without p at ps other) (h.once p)
    ];
    no_user = λ p ne c. elim (ℕ_discrete p at) [
      | yes e ↦ rw (e) z
      | no other ↦ ground (arith, h.no_user p ne (sym (count-without p at ps other) ∙ c))
    ];
    counted = λ p c. elim (ℕ_discrete p at) [
      | yes e ↦ absurd (omega (arith, (rw (e) at c), count-without_self at ps listed))
      | no other ↦
          let (ne, n, some_user) = h.counted p (sym (count-without p at ps other) ∙ c) in
          let same : and_one at users p ≡ users p =
            rw (==_false at p (λ q. other (sym q))) (omega arith) in
          (ne, rw (==_false p at other) (n ∙ same), omega (arith, same, some_user))
    ];
    few = λ p ne. ground (arith, h.few p ne);
  }

pub inode_close-IsCounted :
    (m : Files) (at : ℕ) (users : ℕ → ℕ)
    → at ≢ 0
    → IsCounted m.inodes m.open_inodes (and_one at users)
    → IsCounted (inode_close m at).inodes (inode_close m at).open_inodes users
      × ((inode_close m at).file_table ≡ m.file_table)
unfolding inode_close
inode_close-IsCounted m at users ne h =
    let listed : count at m.open_inodes ≡ 1 = in_list (h.once at) (h.no_user at ne) in
    let cnt : (m.inodes at).open_cnt ≡ 1 + users at =
      (h.counted at listed).1 ∙ rw (==_refl at) refl in
    let few = h.few at ne in
    let left : u32 ((m.inodes at).open_cnt + 2 ^ 32 - 1) ≡ users at =
      ground (arith, cnt, few, ==_refl at) in
    elim (ℕ_discrete (users at) 0) [
      | yes e ↦ rw (left, e) (gone m.inodes m.open_inodes users at h listed e, refl)
      | no some_left ↦
          rw (left, ==_false (users at) 0 some_left)
            (stays m.inodes m.open_inodes users at h some_left, refl)
    ]
  where
    in_list :
        count at m.open_inodes ≤ 1
        → (count at m.open_inodes ≡ 0 → and_one at users at ≡ 0)
        → count at m.open_inodes ≡ 1
    in_list le no_user = elim (ℕ_discrete (count at m.open_inodes) 0) [
      | yes e ↦ absurd (omega (arith, (rw (==_refl at) at no_user e)))
      | no ne0 ↦ omega (arith, le, ne0)
    ]

-- The counts stay, and so do the users of every inode.
pub IsCounted-same :
    (inodes inodes' : ℕ → Inode) (ps : List ℕ) (users users' : ℕ → ℕ)
    → IsCounted inodes ps users
    → ((p : ℕ) → (inodes' p).open_cnt ≡ (inodes p).open_cnt)
    → ((p : ℕ) → p ≢ 0 → users' p ≡ users p)
    → IsCounted inodes' ps users'
IsCounted-same inodes inodes' ps users users' h counts same = record {
  once = h.once;
  no_user = λ p ne c. same p ne ∙ h.no_user p ne c;
  counted = λ p c.
      let (ne, n, some_user) = h.counted p c in
      (ne, counts p ∙ n ∙ sym (same p ne), omega (arith, same p ne, some_user));
  few = λ p ne. omega (arith, same p ne, h.few p ne);
}

pub find_inode-count :
    (inodes : ℕ → Inode) (ps : List ℕ) (ino at : ℕ)
    → find_inode inodes ps ino ≡ some at
    → 1 ≤ count at ps
unfolding find_inode count
find_inode-count inodes [] ino at e = cc
find_inode-count inodes (p ∷ ps) ino at e = elim (Bool-cases ((inodes p).ino == ino)) [
  | inl found ↦
      let q : p ≡ at = some-injective _ _ (rw (found) at e) in rw (q, ==_refl at) (omega arith)
  | inr other ↦ omega (arith, find_inode-count inodes ps ino at (rw (other) at e))
]

-- An inode that is open has one user more.
pub reopened-IsCounted :
    (m : Files) (at : ℕ) (users : ℕ → ℕ)
    → count at m.open_inodes ≡ 1
    → ((p : ℕ) → p ≢ 0 → users p < 2 ^ 30)
    → IsCounted m.inodes m.open_inodes users
    → IsCounted (reopened m at).inodes (reopened m at).open_inodes (and_one at users)
reopened-IsCounted m at users listed few h =
    let (ne, n, some_user) = h.counted at listed in
    let bound = few at ne in
    let more : u32 ((m.inodes at).open_cnt + 1) ≡ 1 + users at = omega (arith, n, bound) in
    record {
      once = h.once;
      no_user = λ p np c. elim (ℕ_discrete p at) [
        | yes e ↦ absurd (omega (arith, c, (rw (sym e) at listed)))
        | no other ↦ rw (==_false at p (λ q. other (sym q))) (omega (arith, h.no_user p np c))
      ];
      counted = λ p c.
          let (np, k, used) = h.counted p c in
          elim (ℕ_discrete p at) [
            | yes e ↦ (np, rw (e, ==_refl at, more) refl, omega (arith, used))
            | no other ↦ (
              np,
              rw (==_false p at other, ==_false at p (λ q. other (sym q))) (omega (arith, k)),
              omega (arith, used),
            )
          ];
      few = λ p np. ground (arith, few p np);
    }

-- An inode that is read has one user.
pub loaded-IsCounted :
    (inodes : ℕ → Inode) (ps : List ℕ) (fresh : ℕ) (inode : Inode) (users : ℕ → ℕ)
    → fresh ≢ 0
    → count fresh ps ≡ 0
    → ((p : ℕ) → p ≢ 0 → users p < 2 ^ 30)
    → IsCounted inodes ps users
    → IsCounted
        (λ p. if p == fresh then record inode { open_cnt = 1 } else inodes p)
        (fresh ∷ ps)
        (and_one fresh users)
loaded-IsCounted inodes ps fresh inode users new absent few h = record {
  once = λ p. elim (ℕ_discrete p fresh) [
    | yes e ↦ rw (e) (omega (arith, count_here fresh ps, absent))
    | no other ↦ omega (arith, count_skip p fresh ps (λ q. other (sym q)), h.once p)
  ];
  no_user = λ p np c. elim (ℕ_discrete p fresh) [
    | yes e ↦ absurd (omega (arith, count_here fresh ps, (rw (e) at c)))
    | no other ↦
        rw (==_false fresh p (λ q. other (sym q)))
          (omega (arith, h.no_user p np (sym (count_skip p fresh ps (λ q. other (sym q))) ∙ c)))
  ];
  counted = λ p c. elim (ℕ_discrete p fresh) [
    | yes e ↦ (
      (λ z. new (sym e ∙ z)),
      rw (e, ==_refl fresh) (omega (arith, h.no_user fresh new absent)),
      rw (e, ==_refl fresh) (omega arith),
    )
    | no other ↦
        let (np, k, used) = h.counted p (sym (count_skip p fresh ps (λ q. other (sym q))) ∙ c) in
        (
          np,
          rw (==_false p fresh other, ==_false fresh p (λ q. other (sym q))) (omega (arith, k)),
          omega (arith, used),
        )
  ];
  few = λ p np. ground (arith, few p np);
}
