-- ===== src/Shell/WashPath/Clean.antt =====
-- `washPath` puts the clean path in memory.
use gogoos.Common.{
  ℕ, zero, suc, ◌+◌, ◌-◌, ◌<◌, ◌≤◌, ◌≡◌, ◌≢◌, refl, sym, ap, ◌∙◌, some, List, [], ◌∷◌, ◌++◌, arith,
  length, length-append, drop, zeros, length-zeros, drop-zeros, get_elem?, ◌==◌, ==_false,
  if◌then◌else◌, ◌>>=◌,
}
use gogoos.CString.{memset, strcat}
use gogoos.CString.Laws.{memset_lem, strcat-text}
use gogoos.CString.Compare.{IsChars}
use gogoos.CString.Find.{Lacks}
use gogoos.Fs.PathName.Components.{
  flush, components, pointer, next_word, next_rest, components_parts, components-nil,
}
use gogoos.Fs.PathName.Depth.{AllShort, path_parse_lem, parse_next_lem}
use gogoos.Shell.WashPath.{slash, store, walk, wash_loop, wash_names, wash_path}
use gogoos.Shell.WashPath.Stack.{
  step, resolve, body, shown, IsName, AllNames, IsChars-IsText, cost, cost-components,
  next_word-IsChars, next_rest-IsChars, next_word-Lacks,
}
use gogoos.Shell.WashPath.Memory.{Holds, walk-Holds}

-- `name` holds a word and zeros.
abbrev pub padded : List ℕ → List ℕ
padded w = w ++ zeros (512 - length w)

-- sixteen bytes cleared clear a name of at most sixteen characters
drop_word :
    (k : ℕ) (w : List ℕ) (n : ℕ)
    → length w ≤ k
    → k ≤ n
    → drop k (w ++ zeros (n - length w)) ≡ zeros (n - k)
drop_word k [] n h le =
    ap (λ (m : ℕ). drop k (zeros m)) (n_eq n) ∙ drop-zeros k n (n - k) (omega arith)
  where
    n_eq : (n : ℕ) → n - 0 ≡ n
    n_eq n = omega arith
drop_word zero (c ∷ w) n h le = absurd (omega arith)
drop_word (suc k) (c ∷ w) zero h le = elim le [ ]
drop_word (suc k) (c ∷ w) (suc n) h le =
    ap (λ (m : ℕ). drop k (w ++ zeros m)) (less n (length w))
    ∙ drop_word k w n (omega arith) (omega arith)
    ∙ ap (λ (m : ℕ). zeros m) (sym (less n k))
  where
    less : (n k : ℕ) → suc n - suc k ≡ n - k
    less n k = omega arith

length-padded : (w : List ℕ) → length w ≤ 16 → length (padded w) ≡ 512
length-padded w h =
    length-append w (zeros (512 - length w)) ∙ omega (arith, length-zeros (512 - length w))

memset-padded : (w : List ℕ) → length w ≤ 16 → memset (padded w) 0 16 ≡ some (zeros 512)
memset-padded w h =
    memset_lem (padded w) 0 16 (omega (arith, length-padded w h))
    ∙ ap (λ k. some (zeros 16 ++ k)) (drop_word 16 w 512 h (omega arith))

pad_next : (w : List ℕ) → length w ≤ 16 → w ++ drop (length w) (zeros 512) ≡ padded w
pad_next w h = ap (λ k. w ++ k) (drop-zeros (length w) 512 (512 - length w) (omega arith))

no_word : (u : List ℕ) → next_word u ≡ [] → components u ≡ components (next_rest u)
unfolding flush
no_word u e = components_parts u ∙ ap (λ w. flush w (components (next_rest u))) e

zeros-suc : (a b : ℕ) → a ≡ suc b → zeros a ≡ 0 ∷ zeros b
zeros-suc a b e = ap (λ (k : ℕ). zeros k) e

Holds-eq : {m t t' : List ℕ} {n : ℕ} → t ≡ t' → Holds m t n → Holds m t' n
Holds-eq e h = rw e at h

cons_ne : (c : ℕ) (w : List ℕ) → c ∷ w ≢ []
cons_ne c w q = cc

-- The loop, at the word `w` and the path `u` behind it.
wash_loop-Holds :
    (fuel : ℕ) (u w rest m : List ℕ) (st : List (List ℕ)) (n : ℕ)
    → IsChars w
    → IsChars u
    → length w ≤ 16
    → AllShort 16 (components u)
    → (w ≡ [] → components u ≡ [])
    → (w ≢ [] → IsName w)
    → length w + length u < fuel
    → AllNames st
    → length (body st) + cost (flush w (components u)) < n
    → Holds m (shown st) n
    → (m' : List ℕ) × (wash_loop fuel (pointer u rest) (padded w) m ≡ some m')
      × Holds m' (shown (resolve st (flush w (components u)))) n
unfolding wash_loop flush resolve
wash_loop-Holds zero u w rest m st n cw cu len short ends name f all room h = absurd (omega arith)
wash_loop-Holds (suc fuel) u [] rest m st n cw cu len short ends name f all room h =
    (m, refl, rw (ends refl) h)
wash_loop-Holds (suc fuel) u (c ∷ w) rest m st n cw cu len short ends name f all room h =
    let tw = IsChars-IsText (c ∷ w) cw in
    let tu = IsChars-IsText u cu in
    let is_name = name (cons_ne c w) in
    let (m1, run1, h1, all1, grows) =
      walk-Holds m (c ∷ w) (zeros (511 - length (c ∷ w))) st n all is_name (omega arith) h in
    let nx = parse_next_lem 16 u rest (zeros 512) tu short (omega arith) in
    let parts = components_parts u in
    let (m2, run2, h2) =
      wash_loop-Holds fuel (next_rest u) (next_word u) rest m1 (step st (c ∷ w)) n
        (next_word-IsChars u cu) (next_rest-IsChars u cu) nx.short_word nx.short_rest
        (λ e. sym (no_word u e) ∙ components-nil u e)
        (λ ne. record {
          nonempty = ne;
          chars = next_word-IsChars u cu;
          no_slash = next_word-Lacks u;
        })
        (omega (arith, nx.parsed.shorter)) all1 (omega (arith, grows, ap cost parts)) h1 in
    let walked : walk m (padded (c ∷ w)) ≡ some m1 =
      ap (λ k. walk m (c ∷ w ++ k))
        (zeros-suc (512 - length (c ∷ w)) (511 - length (c ∷ w)) (omega arith))
      ∙ run1 in
    (
      m2,
      rw
          (
            ==_false c 0 tw.0,
            walked,
            memset-padded (c ∷ w) len,
            nx.finds,
            pad_next (next_word u) nx.short_word,
          )
          run2,
      Holds-eq (ap (λ k. shown (resolve (step st (c ∷ w)) k)) (sym parts)) h2,
    )

body_nil : length (body []) ≡ 0
unfolding body
body_nil = refl

root-Holds : (new : List ℕ) → Holds (b'/' ∷ 0 ∷ new) (shown []) (suc (suc (length new)))
unfolding shown
root-Holds new = record { rest = new; eq = refl; size = omega arith }

-- behind "/", written first
wash_names-Holds :
    (fuel : ℕ) (u w rest new : List ℕ)
    → IsChars w
    → IsChars u
    → length w ≤ 16
    → AllShort 16 (components u)
    → IsName w
    → length w + length u < fuel
    → cost (flush w (components u)) < length new
    → 1 < length new
    → (m' : List ℕ) × (wash_names fuel (pointer u rest) (padded w) new ≡ some m')
      × Holds m' (shown (resolve [] (flush w (components u)))) (length new)
unfolding wash_names store
wash_names-Holds fuel u w rest [] cw cu len short name f room two = absurd (omega arith)
wash_names-Holds fuel u w rest (a ∷ []) cw cu len short name f room two = absurd (omega arith)
wash_names-Holds fuel u w rest (a ∷ b ∷ new) cw cu len short name f room two =
    let begun : strcat (0 ∷ b ∷ new) slash ≡ some (b'/' ∷ 0 ∷ new) =
      strcat-text [] (b ∷ new) (b'/' ∷ []) [] tt
        (IsChars-IsText (b'/' ∷ []) (omega arith, omega arith, tt)) (omega arith) in
    let (m', run, h) =
      wash_loop-Holds fuel u w rest (b'/' ∷ 0 ∷ new) [] (length (a ∷ b ∷ new)) cw cu len short
        (λ e. absurd (name.nonempty e)) (λ q. name) f tt (omega (arith, body_nil))
        (root-Holds new) in
    (m', rw begun run, h)

-- from the test of `name[0]` on
finish-Holds :
    (fuel : ℕ) (u w rest new : List ℕ)
    → IsChars w
    → IsChars u
    → length w ≤ 16
    → AllShort 16 (components u)
    → Lacks b'/' w
    → (w ≡ [] → components u ≡ [])
    → length w + length u < fuel
    → cost (flush w (components u)) < length new
    → 1 < length new
    → (m' : List ℕ) × ((get_elem? (padded w) 0 >>= λ c.
          if c == 0
          then (do new1 ← store new 0 b'/'; store new1 1 0)
          else wash_names fuel (pointer u rest) (padded w) new)
        ≡ some m')
      × Holds m' (shown (resolve [] (flush w (components u)))) (length new)
unfolding store shown resolve flush
finish-Holds fuel u [] rest [] cw cu len short lacks ends f room two = absurd (omega arith)
finish-Holds fuel u [] rest (a ∷ []) cw cu len short lacks ends f room two = absurd (omega arith)
finish-Holds fuel u [] rest (a ∷ b ∷ new) cw cu len short lacks ends f room two =
    (b'/' ∷ 0 ∷ new, refl, rw (ends refl) (record { rest = new; eq = refl; size = omega arith }))
finish-Holds fuel u (c ∷ w) rest new cw cu len short lacks ends f room two =
    let tw = IsChars-IsText (c ∷ w) cw in
    let name : IsName (c ∷ w) = record { nonempty = cons_ne c w; chars = cw; no_slash = lacks } in
    let (m', run, h) = wash_names-Holds fuel u (c ∷ w) rest new cw cu len short name f room two in
    (m', rw (==_false c 0 tw.0) run, h)

-- On an absolute path whose names have at most sixteen characters, with room at `newAbsPath` for two
-- bytes more than the path has characters, `washPath` ends and leaves the clean path there: the names
-- of the path, with "." left out and each ".." and the name in front of it taken off, each behind
-- one slash, or "/" if no name is left.
pub wash_path-Holds :
    (s rest new : List ℕ)
    → IsChars (b'/' ∷ s)
    → AllShort 16 (components (b'/' ∷ s))
    → length s + 3 ≤ length new
    → (m' : List ℕ) × (wash_path (b'/' ∷ s ++ (0 ∷ rest)) new ≡ some m')
      × Holds m' (shown (resolve [] (components (b'/' ∷ s)))) (length new)
unfolding wash_path
wash_path-Holds s rest new chars short room =
    let p = b'/' ∷ s in
    let (run, parsed, few, len) =
      path_parse_lem 16 p rest (zeros 512) (IsChars-IsText p chars) short (omega arith) in
    let parts = components_parts p in
    let (m', run', h) =
      finish-Holds (suc (length (p ++ (0 ∷ rest)))) (next_rest p) (next_word p) rest new
        (next_word-IsChars p chars) (next_rest-IsChars p chars) len few (next_word-Lacks p)
        (λ e. sym (no_word p e) ∙ components-nil p e)
        (omega (arith, parsed.shorter, length-append p (0 ∷ rest)))
        (omega (arith, ap cost parts, cost-components p)) (omega arith) in
    (
      m',
      rw (run, pad_next (next_word p) len) run',
      Holds-eq (ap (λ k. shown (resolve [] k)) (sym parts)) h,
    )
