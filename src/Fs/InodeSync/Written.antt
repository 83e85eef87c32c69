-- ===== src/Fs/InodeSync/Written.antt =====
-- fs/inode.c: what `inodeSync` leaves on the disk.
use gogoos.Common.{
  ℕ, ◌+◌, ◌-◌, ◌*◌, ◌/◌, ◌%◌, ◌^◌, ◌<◌, ◌≤◌, ◌≡◌, refl, sym, ◌∙◌, List, [], ◌∷◌, ◌++◌, arith, ◌==◌,
  ==_refl, ==_false, if◌then◌else◌, length, take, drop, overwrite, length-overwrite, length-append,
  length-take, length-drop, get_or-take, get_or-drop, get_or-append_left, get_or-append_right,
  dec_lt, ℕ_discrete,
}
use gogoos.Fs.{Disk, Inode}
use gogoos.Fs.Sectors.{AllWords, length-bytes_of}
use gogoos.Fs.InodeSync.{inode_bytes}
use gogoos.Fs.InodeSync.Table.{IsTable, Rewritten, Window-Rewritten}

-- an inode that can be written: thirteen words, and the other fields are words, too
pub record IsInode (inode : Inode) : Type 0 where
  pub numbered : inode.ino < 4096
  pub sized : inode.size < 2 ^ 32
  pub thirteen : length inode.block ≡ 13
  pub words_lt : AllWords inode.block

pub length-inode_bytes : (inode : Inode) → IsInode inode → length (inode_bytes inode) ≡ 76
length-inode_bytes inode v = omega (
  arith,
  length-bytes_of (inode.ino ∷ inode.size ∷ 0 ∷ 0 ∷ (inode.block ++ (0 ∷ 0 ∷ []))),
  length-append inode.block (0 ∷ 0 ∷ []),
  v.thirteen,
)

module _ (disk : Disk) (start ino : ℕ) (v : IsTable disk start) (few : ino < 4096) (src : List ℕ)
    (whole_src : length src ≡ 76) where
  -- the inode lies in one sector
  pub one_sector :
      ino * 76 % 512 + 76 ≤ 512
      → Rewritten disk start v ino few
          (λ s.
            if s == start + ino * 76 / 512
            then take 512 (overwrite (ino * 76 % 512) src (disk (start + ino * 76 / 512)))
            else disk s)
          src
  one_sector inner =
      let here = start + ino * 76 / 512 in
      let buf = disk here in
      let buf' = overwrite (ino * 76 % 512) src buf in
      let size = v.whole here in
      let size' = length-overwrite (ino * 76 % 512) src buf (omega (arith, size, whole_src)) in
      Window-Rewritten disk start v ino few src whole_src {len = 512} {buf = buf}
        (record {
          before = λ k lo hi.
              let q : start + k / 512 ≡ here = omega arith in
              let m : k % 512 ≡ k - ino * 76 / 512 * 512 = omega arith in rw (q, m) refl;
          behind = λ k lo hi.
              let q : start + k / 512 ≡ here = omega arith in
              let m : k % 512 ≡ k - ino * 76 / 512 * 512 = omega arith in
              rw (q, ==_refl here, m)
                (get_or-take 0 512 buf' (k - ino * 76 / 512 * 512) (omega arith));
          outside = λ k out.
              rw (==_false (start + k / 512) here (λ e. out (omega arith) (omega arith))) refl;
        })
        size (omega (arith, inner))
        (λ s. elim (ℕ_discrete s here) [
          | yes e ↦ rw (e, ==_refl here) (omega (arith, length-take 512 buf', size, size'))
          | no ne ↦ rw (==_false s here ne) (v.whole s)
        ])
        (λ s lt. rw (==_false s here (λ e. omega arith)) refl)
        (λ s le. rw (==_false s here (λ e. omega arith)) refl)

  -- the inode lies across the border of two sectors
  pub across :
      Rewritten disk start v ino few
        (λ s.
          if s == start + ino * 76 / 512
          then take 512 (
              overwrite
                (ino * 76 % 512)
                src
                (disk (start + ino * 76 / 512) ++ disk (start + ino * 76 / 512 + 1)))
          else if s == start + ino * 76 / 512 + 1
          then take 512 (
              drop 512 (
                overwrite
                  (ino * 76 % 512)
                  src
                  (disk (start + ino * 76 / 512) ++ disk (start + ino * 76 / 512 + 1))))
          else disk s)
        src
  across =
      let here = start + ino * 76 / 512 in
      let base = ino * 76 / 512 * 512 in
      let buf = disk here ++ disk (here + 1) in
      let buf' = overwrite (ino * 76 % 512) src buf in
      let size : length buf ≡ 1024 =
        omega
          (arith, length-append (disk here) (disk (here + 1)), v.whole here, v.whole (here + 1)) in
      let size' = length-overwrite (ino * 76 % 512) src buf (omega (arith, size, whole_src)) in
      Window-Rewritten disk start v ino few src whole_src {len = 1024} {buf = buf}
        (record {
          before = λ k lo hi. elim (dec_lt k (base + 512)) [
            | yes first ↦
                let q : start + k / 512 ≡ here = omega arith in
                let m : k % 512 ≡ k - base = omega arith in
                rw (q, m)
                  (sym (
                    get_or-append_left 0 (disk here) (disk (here + 1)) (k - base)
                      (omega (arith, v.whole here))))
            | no second ↦
                let q : start + k / 512 ≡ here + 1 = omega arith in
                rw (q) (
                  sym (
                    get_or-append_right 0 (disk here) (disk (here + 1)) (k - base) (k % 512)
                      (omega (arith, v.whole here))))
          ];
          behind = λ k lo hi. elim (dec_lt k (base + 512)) [
            | yes first ↦
                let q : start + k / 512 ≡ here = omega arith in
                let m : k % 512 ≡ k - base = omega arith in
                rw (q, ==_refl here, m) (get_or-take 0 512 buf' (k - base) (omega arith))
            | no second ↦
                let q : start + k / 512 ≡ here + 1 = omega arith in
                let m : k - base ≡ 512 + k % 512 = omega arith in
                rw (q, ==_false (here + 1) here (λ e. omega arith), ==_refl (here + 1), m)
                  (get_or-take 0 512 (drop 512 buf') (k % 512) (omega arith)
                    ∙ get_or-drop 0 512 buf' (k % 512))
          ];
          outside = λ k out.
              rw
                (
                  ==_false (start + k / 512) here (λ e. out (omega arith) (omega arith)),
                  ==_false (start + k / 512) (here + 1) (λ e. out (omega arith) (omega arith)),
                )
                refl;
        })
        size (omega arith)
        (λ s. elim (ℕ_discrete s here) [
          | yes e ↦ rw (e, ==_refl here) (omega (arith, length-take 512 buf', size, size'))
          | no ne ↦ elim (ℕ_discrete s (here + 1)) [
            | yes e ↦
                rw (e, ==_false (here + 1) here (λ q. omega arith), ==_refl (here + 1))
                  (omega
                    (arith, length-take 512 (drop 512 buf'), length-drop 512 buf', size, size'))
            | no ne2 ↦ rw (==_false s here ne, ==_false s (here + 1) ne2) (v.whole s)
          ]
        ])
        (λ s lt.
          rw (==_false s here (λ e. omega arith), ==_false s (here + 1) (λ e. omega arith)) refl)
        (λ s le.
          rw (==_false s here (λ e. omega arith), ==_false s (here + 1) (λ e. omega arith)) refl)
