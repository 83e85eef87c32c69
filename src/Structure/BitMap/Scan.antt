-- ===== src/Structure/BitMap/Scan.antt =====
-- `bitMapScan`: it finds the first run of free bits.
use gogoos.Common.{
  ℕ, zero, suc, ◌+◌, ◌-◌, ◌*◌, ◌^◌, ◌<◌, ◌≤◌, ◌≡◌, ◌≢◌, ◌⊎◌, inl, inr, refl, some, List, arith,
  ◌==◌, if◌then◌else◌, get_elem?, get_or, get_elem?-get_or, u32, minus_one, ==_iff, ==_false, ◌∙◌,
  dec_lt, ℕ_discrete,
}
use gogoos.Structure.BitMap.FirstZero.{
  Skipped, IsFirstZero, skip_full-Skipped, zero_bit-ZeroAt, first_zero, all_full, Readable, Ends,
}
use gogoos.Structure.BitMap.{BitMap, bit_map_test, skip_full, zero_bit, find_run, bit_map_scan}
use gogoos.Structure.BitMap.Valid.{bit_at, IsValid, get_or_lt, bit_map_test-in}

-- bits `s`, ..., `s + cnt - 1` are free
abbrev pub Free : List ℕ → ℕ → ℕ → Type 0
Free bytes s cnt = (k : ℕ) → k < cnt → bit_at bytes (s + k) ≡ 0

-- `r` is where the first run of `cnt` free bits starts.
pub record IsFirstRun (bm : BitMap) (cnt r : ℕ) : Type 0 where
  pub fits : r + cnt ≤ bm.size * 8
  pub free : Free bm.bytes r cnt
  pub first : (s : ℕ) → s < r → ¬ Free bm.bytes s cnt

-- No run of `cnt` free bits lies in the map.
abbrev pub NoRun : BitMap → ℕ → Type 0
NoRun bm cnt = (s : ℕ) → s + cnt ≤ bm.size * 8 → ¬ Free bm.bytes s cnt

abbrev pub Scanned : BitMap → ℕ → ℕ → Type 0
Scanned bm cnt r = IsFirstRun bm cnt r ⊎ ((r ≡ minus_one) × NoRun bm cnt)

-- What the third loop knows: the last `fd` bits before bit `n` are free, and no run of `cnt` bits
-- starts before them.
record Searched (bm : BitMap) (cnt n fd : ℕ) : Type 0 where
  few : fd < cnt
  room : fd ≤ n
  free : Free bm.bytes (n - fd) fd
  before : (s : ℕ) → s < n - fd → ¬ Free bm.bytes s cnt

module _ (bm : BitMap) (cnt n fd : ℕ) (sd : Searched bm cnt n fd) where
  Free-suc : bit_at bm.bytes n ≡ 0 → Free bm.bytes (n - fd) (suc fd)
  Free-suc z k h = elim (dec_lt k fd) [
    | yes p ↦ sd.free k p
    | no p ↦ let e : n - fd + k ≡ n = omega (arith, sd.room) in rw e z
  ]

  Searched-free : bit_at bm.bytes n ≡ 0 → suc fd < cnt → Searched bm cnt (suc n) (suc fd)
  Searched-free z lt =
      let e : suc n - suc fd ≡ n - fd = omega arith in
      record {
        few = lt;
        room = omega (arith, sd.room);
        free = rw e (Free-suc z);
        before = rw e sd.before;
      }

  found : bit_at bm.bytes n ≡ 0 → suc fd ≡ cnt → n < bm.size * 8 → IsFirstRun bm cnt (n - fd)
  found z e lt = record {
    fits = omega (arith, sd.room);
    free = rw (← e) (Free-suc z);
    first = sd.before;
  }

  Searched-taken : bit_at bm.bytes n ≢ 0 → Searched bm cnt (suc n) 0
  Searched-taken t = record {
    few = omega (arith, sd.few);
    room = omega arith;
    free = λ k h. absurd (omega arith);
    before = no_run;
  }
    where
      no_run : (s : ℕ) → s < suc n - 0 → ¬ Free bm.bytes s cnt
      no_run s q run = elim (dec_lt s (n - fd)) [
        | yes p ↦ sd.before s p run
        | no p ↦
            let e : s + (n - s) ≡ n = omega arith in
            t (rw e at (run (n - s) (omega (arith, sd.few))))
      ]

-- What `bitMapScan` computes once the first free bit is known.
scan_step :
    (bm : BitMap) (cnt j b k : ℕ)
    → skip_full bm.bytes bm.size 0 ≡ some j
    → j ≢ bm.size
    → get_elem? bm.bytes j ≡ some b
    → zero_bit 9 b 0 ≡ some k
    → bm.size * 8 < 2 ^ 32
    → 8 * j + k < bm.size * 8
    → bit_map_scan bm cnt ≡ (
        if cnt == 1
        then some (8 * j + k)
        else find_run (bm.size * 8 - (8 * j + k) - 1) bm cnt (suc (8 * j + k)) 1)
unfolding bit_map_scan
scan_step bm cnt j b k skip ne byte zb small lt =
    let start : u32 (8 * j + k) ≡ 8 * j + k = omega arith in
    let left : u32 (u32 (bm.size * 8) + 2 ^ 32 - (8 * j + k) - 1) ≡ bm.size * 8 - (8 * j + k) - 1 =
      omega arith in
    let next : u32 (8 * j + k + 1) ≡ suc (8 * j + k) = omega arith in
    rw (skip, ==_false j bm.size ne, byte, zb, start, left, next)

module _ (bm : BitMap) (cnt : ℕ) (v : IsValid bm) where
  find_run-Scanned :
      (l n fd : ℕ)
      → n + l ≡ bm.size * 8
      → Searched bm cnt n fd
      → (r : ℕ) × (find_run l bm cnt n fd ≡ some r) × Scanned bm cnt r
  unfolding find_run
  find_run-Scanned zero n fd e sd =
      (minus_one, refl, inr (refl, λ s h. sd.before s (omega (arith, sd.few))))
  find_run-Scanned (suc l) n fd e sd = elim (ℕ_discrete (bit_at bm.bytes n) 0) [
    | yes z ↦ elim (ℕ_discrete (suc fd) cnt) [
      | yes q ↦ (
        n - fd,
        ground (arith, test, sd.room, small),
        inl (found bm cnt n fd sd z q (omega arith)),
      )
      | no q ↦
          let (r, run, s) =
            find_run-Scanned l (suc n) (suc fd) (omega arith)
              (Searched-free bm cnt n fd sd z (omega (arith, sd.few))) in
          (r, ground (arith, test, sd.room, small, run), s)
    ]
    | no t ↦
        let (r, run, s) =
          find_run-Scanned l (suc n) 0 (omega arith) (Searched-taken bm cnt n fd sd t) in
        (r, ground (arith, test, sd.room, sd.few, small, run), s)
  ]
    where
      small : bm.size * 8 < 2 ^ 32
      small = v.small

      test : bit_map_test bm n ≡ some (bit_at bm.bytes n)
      test = bit_map_test-in bm n v (omega arith)

  ends_at : Readable bm.bytes bm.size → Ends bm.bytes bm.size 0
  ends_at (inl h) = inl (omega arith)
  ends_at (inr (k, lt, ne)) = inr (k, omega arith, omega (arith, v.inside), ne)

  none_free : 0 < cnt → Skipped bm.bytes bm.size 0 bm.size → NoRun bm cnt
  none_free pos sk s h run =
      let free : bit_at bm.bytes (s + 0) ≡ 0 = run 0 pos in
      let used : bit_at bm.bytes (s + 0) ≡ 1 = all_full bm (s + 0) sk (omega arith) in omega arith

  first_run : (start : ℕ) → IsFirstZero bm start → cnt ≡ 1 → IsFirstRun bm cnt start
  first_run start z e = record {
    fits = omega (arith, z.in_map);
    free = λ k h. let q : start + k ≡ start = omega arith in rw q z.zero;
    first = λ s h run.
        let q : s + 0 ≡ s = omega arith in
        let free : bit_at bm.bytes s ≡ 0 = rw q at (run 0 (omega arith)) in
        omega (arith, z.below s h);
  }

  begun : (start : ℕ) → IsFirstZero bm start → 1 < cnt → Searched bm cnt (suc start) 1
  begun start z lt =
      let e : suc start - 1 ≡ start = omega arith in
      record {
        few = lt;
        room = omega arith;
        free = λ k h. let q : suc start - 1 + k ≡ start = omega arith in rw q z.zero;
        before = λ s h run.
            let q : s + 0 ≡ s = omega arith in
            let free : bit_at bm.bytes s ≡ 0 = rw q at (run 0 (omega arith)) in
            omega (arith, z.below s (omega arith));
      }

  stopped :
      {j : ℕ}
      → j ≢ bm.size
      → (j ≡ bm.size) ⊎ (get_or bm.bytes (j - 0) 0 ≢ 255)
      → get_or bm.bytes j 0 ≢ 255
  stopped ne (inl e) = absurd (ne e)
  stopped {j} ne (inr h) = let z : j - 0 ≡ j = omega arith in rw z at h

  -- On a well-formed map where the first loop can end inside the memory, and for a positive `cnt`,
  -- `bitMapScan` returns the index of the first run of `cnt` free bits of the map, or -1 if no run
  -- of that length lies in the map.
  pub bit_map_scan-Scanned :
      Readable bm.bytes bm.size
      → 0 < cnt
      → (r : ℕ) × (bit_map_scan bm cnt ≡ some r) × Scanned bm cnt r
  unfolding bit_map_scan
  bit_map_scan-Scanned ends pos =
      let (j, skip, sk) = skip_full-Skipped bm.bytes bm.size 0 (omega arith) (ends_at ends) in
      elim (ℕ_discrete j bm.size) [
        | yes e ↦
            (minus_one, rw (skip, (==_iff j bm.size).1 e), inr (refl, none_free pos (rw e at sk)))
        | no ne ↦
            let lt : j < bm.size = omega (arith, sk.upto) in
            let byte = get_elem?-get_or bm.bytes j 0 (omega (arith, v.inside)) in
            let (k, zb, z) =
              zero_bit-ZeroAt (get_or bm.bytes j 0)
                (omega (arith, get_or_lt bm.bytes j v.bytes_lt, stopped ne sk.stop)) in
            let fz = first_zero bm j k sk lt z in
            let step =
              scan_step bm cnt j (get_or bm.bytes j 0) k skip ne byte zb v.small fz.in_map in
            elim (ℕ_discrete cnt 1) [
              | yes one ↦
                  (8 * j + k, step ∙ rw ((==_iff cnt 1).1 one), inl (first_run (8 * j + k) fz one))
              | no many ↦
                  let (r, run, s) =
                    find_run-Scanned (bm.size * 8 - (8 * j + k) - 1) (suc (8 * j + k)) 1
                      (omega (arith, fz.in_map)) (begun (8 * j + k) fz (omega arith)) in
                  (r, step ∙ rw (==_false cnt 1 many) run, s)
            ]
      ]
