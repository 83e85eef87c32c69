-- ===== src/Fs/PathName/Depth.antt =====
-- `pathDepthCnt` counts the components.
use gogoos.Common.{
  ℕ, zero, suc, ◌+◌, ◌^◌, ◌<◌, ◌≤◌, ◌≡◌, ◌≢◌, refl, sym, ap, ◌∙◌, none, some, List, [], ◌∷◌, ◌++◌,
  arith, length, length-append, length-drop, drop-all, drop, replicate, ==_false, u32,
}
use gogoos.CString.{memset}
use gogoos.CString.Laws.{IsText, memset_lem}
use gogoos.Fs.PathName.{path_parse, parse_next, count_components, path_depth_cnt}
use gogoos.Fs.PathName.Components.{
  flush, components, pointer, next_word, next_rest, Parsed, path_parse-Parsed, components-nil,
  components_parts, length-components, first_word, drop_slashes, behind_word,
}

-- Every component has at most `n` characters.
abbrev pub AllShort : ℕ → List (List ℕ) → Type 0
AllShort n [] = Unit
AllShort n (c ∷ cs) = (length c ≤ n) × AllShort n cs

pub flush-AllShort :
    (n : ℕ) (w : List ℕ) (cs : List (List ℕ))
    → AllShort n (flush w cs)
    → (length w ≤ n) × AllShort n cs
unfolding flush
flush-AllShort n [] cs h = (omega arith, h)
flush-AllShort n (c ∷ w) cs h = h

-- What the next call of `pathParse` finds.
pub record Next (n : ℕ) (s rest store : List ℕ) : Type 0 where
  pub finds :
      parse_next (pointer s rest) store
      ≡ some (pointer (next_rest s) rest, next_word s ++ drop (length (next_word s)) store)
  pub parsed : Parsed s (next_word s) (next_rest s)
  pub short_rest : AllShort n (components (next_rest s))
  pub short_word : length (next_word s) ≤ n

pub path_parse_lem :
    (n : ℕ) (s rest store : List ℕ)
    → IsText s
    → AllShort n (components s)
    → n ≤ length store
    → (path_parse (s ++ (0 ∷ rest)) store
        ≡ some (pointer (next_rest s) rest, next_word s ++ drop (length (next_word s)) store))
      × Parsed s (next_word s) (next_rest s)
      × AllShort n (components (next_rest s))
      × (length (next_word s) ≤ n)
path_parse_lem n s rest store t h room =
    let few =
      flush-AllShort n (next_word s) (components (next_rest s)) (rw (components_parts s) at h) in
    let (run, p) = path_parse-Parsed s rest store t (omega (arith, few.0)) in (run, p, few.1, few.0)

pub parse_next_lem :
    (n : ℕ) (s rest store : List ℕ)
    → IsText s
    → AllShort n (components s)
    → n ≤ length store
    → Next n s rest store
unfolding parse_next first_word drop_slashes behind_word
parse_next_lem n [] rest store t h room =
    let (run, p, few, w) = path_parse_lem n [] rest store tt h room in
    record { finds = nothing; parsed = p; short_rest = few; short_word = w }
  where
    nothing :
        parse_next none store
        ≡ some (pointer (next_rest []) rest, next_word [] ++ drop (length (next_word [])) store)
    nothing = refl
parse_next_lem n (c ∷ s) rest store t h room =
    let (run, p, few, w) = path_parse_lem n (c ∷ s) rest store t h room in
    record { finds = run; parsed = p; short_rest = few; short_word = w }

ends_lem : (w : List ℕ) → w ≡ [] → (t : List ℕ) × (drop (length w) (replicate 16 0) ≡ 0 ∷ t)
ends_lem [] e = (replicate 15 0, refl)
ends_lem (c ∷ w) e = absurd (cons_ne e)
  where
    cons_ne : c ∷ w ≡ [] → ⊥
    cons_ne q = cc

no_word : (u : List ℕ) → next_word u ≡ [] → components u ≡ components (next_rest u)
unfolding flush
no_word u e = components_parts u ∙ ap (λ w. flush w (components (next_rest u))) e

-- The loop of `pathDepthCnt`, at a component `w` and the path `u` behind it.
count-components :
    (fuel : ℕ) (u w tail rest : List ℕ) (depth : ℕ)
    → IsText w
    → IsText u
    → AllShort 16 (components u)
    → (w ≡ [] → (components u ≡ []) × ((t : List ℕ) × (tail ≡ 0 ∷ t)))
    → length (w ++ tail) ≡ 16
    → length w + length u < fuel
    → depth + length (flush w (components u)) < 2 ^ 32
    → count_components fuel (pointer u rest) (w ++ tail) depth
      ≡ some (depth + length (flush w (components u)))
unfolding count_components flush
count-components zero u w tail rest depth tw tu short ends len f d = absurd (omega arith)
count-components (suc fuel) u [] tail rest depth tw tu short ends len f d =
    let (none_left, (t, q)) = ends refl in rw (none_left, q) (ap some (omega arith))
count-components (suc fuel) u (c ∷ w) tail rest depth tw tu short ends len f d =
    let nx = parse_next_lem 16 u rest (replicate 16 0) tu short (omega arith) in
    let clear : memset (c ∷ w ++ tail) 0 16 ≡ some (replicate 16 0) =
      memset_lem (c ∷ w ++ tail) 0 16 (omega (arith, len))
      ∙ ap (λ k. some (replicate 16 0 ++ k)) (drop-all (c ∷ w ++ tail) 16 len) in
    let next : u32 (depth + 1) ≡ depth + 1 = omega arith in
    let parts = ap length nx.parsed.parts in
    let ih =
      count-components fuel (next_rest u) (next_word u)
        (drop (length (next_word u)) (replicate 16 0)) rest (depth + 1) nx.parsed.word_text
        nx.parsed.rest_text nx.short_rest
        (λ e. (sym (no_word u e) ∙ components-nil u e, ends_lem (next_word u) e))
        (length-append (next_word u) _
          ∙ omega
              (arith, length-drop {A = ℕ} (length (next_word u)) (replicate 16 0), nx.short_word))
        (omega (arith, nx.parsed.shorter)) (omega (arith, parts)) in
    rw (==_false c 0 tw.0, clear, nx.finds, next) (ih ∙ ap some (omega (arith, parts)))

-- On a path that has a component, none of more than 16 characters, `pathDepthCnt` ends and returns
-- the number of components, whatever its array holds before.
pub path_depth_cnt-components :
    (uninitialised s rest : List ℕ)
    → length uninitialised ≡ 16
    → IsText s
    → length s < 2 ^ 32
    → AllShort 16 (components s)
    → components s ≢ []
    → path_depth_cnt uninitialised (s ++ (0 ∷ rest)) ≡ some (length (components s))
unfolding path_depth_cnt
path_depth_cnt-components junk s rest len t small short ne =
    let (run, p, few, w) = path_parse_lem 16 s rest junk t short (omega (arith, len)) in
    let parts = ap length (components_parts s) in
    rw run (
      count-components (suc (length (s ++ (0 ∷ rest)))) (next_rest s) (next_word s)
        (drop (length (next_word s)) junk) rest 0 p.word_text p.rest_text few
        (λ e. absurd (ne (components-nil s e)))
        (length-append (next_word s) _
          ∙ omega (arith, length-drop (length (next_word s)) junk, w, len))
        (omega (arith, p.shorter, length-append s (0 ∷ rest)))
        (omega (arith, parts, length-components s))
      ∙ ap some (omega (arith, parts)))
