-- ===== src/Fs/Write/Blocks.antt =====
-- fs/file.c, `fileWrite`: the direct blocks of a file, and a new one behind them.
use gogoos.Common.{
  ℕ, zero, suc, ◌+◌, ◌-◌, ◌^◌, ◌<◌, ◌≤◌, ◌≡◌, ◌≢◌, sym, ap, ◌∙◌, some, List, [], ◌∷◌, arith, length,
  get_elem?, get_or, set, length-set, get_elem?-set_self, get_elem?-set_ne, ℕ_discrete,
}
use gogoos.Structure.BitMap.{BitMap}
use gogoos.Structure.BitMap.Valid.{bit_at, get_or-set}
use gogoos.Fs.{max_lba}
use gogoos.Fs.Sectors.{AllWords}
use gogoos.Fs.Write.Space.{Taken}

-- The first `b` blocks are sectors of the data, all different, and in use in the map; the other direct
-- ones are 0.
pub record HasDirect (data_lba_start : ℕ) (bm : BitMap) (block : List ℕ) (b : ℕ) : Type 0 where
  pub thirteen : length block ≡ 13
  pub words_lt : AllWords block
  pub used :
      (i : ℕ)
      → i < b
      → (data_lba_start ≤ get_or block i 0)
        × (get_or block i 0 < max_lba)
        × (bit_at bm.bytes (get_or block i 0 - data_lba_start) ≡ 1)
  pub distinct : (i j : ℕ) → i < b → j < b → get_or block i 0 ≡ get_or block j 0 → i ≡ j
  pub empty : (i : ℕ) → b ≤ i → i < 12 → get_or block i 0 ≡ 0

-- `allBlocks` has the blocks from `from` on.
pub record IsListed (block all_blocks : List ℕ) (from b : ℕ) : Type 0 where
  pub entries : length all_blocks ≡ 140
  pub listed : (i : ℕ) → from ≤ i → i < b → get_elem? all_blocks i ≡ some (get_or block i 0)

AllWords-set : (xs : List ℕ) (i v : ℕ) → AllWords xs → v < 2 ^ 32 → AllWords (set xs i v)
AllWords-set [] i v h hv = h
AllWords-set (x ∷ xs) zero v h hv = (hv, h.1)
AllWords-set (x ∷ xs) (suc i) v h hv = (h.0, AllWords-set xs i v h.1 hv)

module _ (block : List ℕ) (b lba : ℕ) (thirteen : length block ≡ 13) (few : b < 12) where
  at_new : get_or (set block b lba) b 0 ≡ lba
  at_new = ground (arith, get_or-set block b b lba (omega (arith, thirteen)))

  pub at_other : (i : ℕ) → i ≢ b → get_or (set block b lba) i 0 ≡ get_or block i 0
  at_other i ne = ground (arith, get_or-set block b i lba (omega (arith, thirteen)))

  -- The entry is listed, too.
  pub set-IsListed :
      (all : List ℕ) (from : ℕ)
      → IsListed block all from b
      → IsListed (set block b lba) (set all b lba) from (b + 1)
  set-IsListed all from l = record {
    entries = length-set all b lba ∙ l.entries;
    listed = λ i lo hi. elim (ℕ_discrete i b) [
      | yes e ↦ rw (e, at_new) (get_elem?-set_self all b lba (omega (arith, l.entries)))
      | no ne ↦
          rw (at_other i ne)
            (get_elem?-set_ne all b i lba (λ q. ne (sym q)) ∙ l.listed i lo (omega arith))
    ];
  }

-- A block that has just been taken comes behind the others.
pub set-HasDirect :
    (data_lba_start : ℕ) (bm bm' : BitMap) (block : List ℕ) (b k r : ℕ)
    → HasDirect data_lba_start bm block b
    → Taken bm k r bm'
    → b < 12
    → data_lba_start + 512 ≤ max_lba
    → HasDirect data_lba_start bm' (set block b (data_lba_start + r)) (b + 1)
set-HasDirect d bm bm' block b k r v t few on_disk =
    let low = t.low in
    let new = at_new block b (d + r) v.thirteen few in
    let other = at_other block b (d + r) v.thirteen few in
    let fresh : (i : ℕ) → i < b → get_or block i 0 ≢ d + r = λ i lt e.
      let h = v.used i lt in
      let idx : get_or block i 0 - d ≡ r = omega (arith, e, h.0) in
      let one : bit_at bm.bytes r ≡ 1 = rw idx at h.2 in omega (arith, one, t.was_free) in
    record {
      thirteen = length-set block b (d + r) ∙ v.thirteen;
      words_lt = AllWords-set block b (d + r) v.words_lt (omega arith);
      used = λ i lt. elim (ℕ_discrete i b) [
        | yes e ↦
            let idx : d + r - d ≡ r = omega arith in
            rw (e, new, idx) (omega arith, omega arith, ground (arith, t.in_use r))
        | no ne ↦
            let h = v.used i (omega arith) in
            rw (other i ne) (h.0, h.1, ground (arith, t.in_use (get_or block i 0 - d), h.2))
      ];
      distinct = λ i j li lj e. elim (ℕ_discrete i b) [
        | yes ib ↦ elim (ℕ_discrete j b) [
          | yes jb ↦ omega arith
          | no jn ↦ absurd (
              fresh j (omega arith)
                (sym (other j jn) ∙ sym e ∙ ap (λ t. get_or (set block b (d + r)) t 0) ib ∙ new))
        ]
        | no im ↦ elim (ℕ_discrete j b) [
          | yes jb ↦ absurd (
              fresh i (omega arith)
                (sym (other i im) ∙ e ∙ ap (λ t. get_or (set block b (d + r)) t 0) jb ∙ new))
          | no jn ↦ v.distinct i j (omega arith) (omega arith) (sym (other i im) ∙ e ∙ other j jn)
        ]
      ];
      empty = λ i lo hi. other i (λ e. omega (arith, e)) ∙ v.empty i (omega arith) hi;
    }
