-- ===== src/Fs/PathName/Components.antt =====
-- The components of a path, and that `pathParse` takes them one by one.
use gogoos.Common.{
  ℕ, ◌+◌, ◌≤◌, ◌≡◌, refl, sym, ap, ◌∙◌, Option, none, some, List, [], ◌∷◌, ◌++◌, append-nil,
  append_assoc, arith, length, length-append, drop, ◌==◌, ==_false, if◌then◌else◌, ℕ_discrete,
}
use gogoos.CString.Laws.{IsText}
use gogoos.Fs.PathName.{skip_slashes, copy_name, behind_slashes, rest_or_null, path_parse}

-- a component before the others, if it has a character
unfoldable pub flush : List ℕ → List (List ℕ) → List (List ℕ)
flush [] cs = cs
flush (c ∷ w) cs = (c ∷ w) ∷ cs

-- the components of a path behind `cur`, the characters of the component before
unfoldable pub split : (cur s : List ℕ) → List (List ℕ)
unfolding flush
split cur [] = flush cur []
split cur (c ∷ s) = if c == b'/' then flush cur (split [] s) else split (cur ++ (c ∷ [])) s

-- The components of a path: what stands between its slashes, without what is empty.
abbrev pub components : List ℕ → List (List ℕ)
components = split []

unfoldable pub drop_slashes : List ℕ → List ℕ
drop_slashes [] = []
drop_slashes (c ∷ s) = if c == b'/' then drop_slashes s else c ∷ s

-- the characters up to a slash, and what stands from there on
unfoldable pub first_word : List ℕ → List ℕ
first_word [] = []
first_word (c ∷ s) = if c == b'/' then [] else c ∷ first_word s

unfoldable pub behind_word : List ℕ → List ℕ
behind_word [] = []
behind_word (c ∷ s) = if c == b'/' then c ∷ s else behind_word s

pub components-drop_slashes : (s : List ℕ) → components (drop_slashes s) ≡ components s
unfolding drop_slashes split flush
components-drop_slashes [] = refl
components-drop_slashes (c ∷ s) = elim (ℕ_discrete c b'/') [
  | yes e ↦ rw e (components-drop_slashes s)
  | no ne ↦ rw (==_false c b'/' ne, ==_false c b'/' ne) refl
]

split-first_word :
    (cur s : List ℕ) → split cur s ≡ flush (cur ++ first_word s) (components (behind_word s))
unfolding split first_word behind_word flush
split-first_word cur [] = rw (append-nil cur) refl
split-first_word cur (c ∷ s) = elim (ℕ_discrete c b'/') [
  | yes e ↦ rw (e, append-nil cur) refl
  | no ne ↦ rw (==_false c b'/' ne) (
      split-first_word (cur ++ (c ∷ [])) s
      ∙ ap (λ w. flush w (components (behind_word s))) (append_assoc cur (c ∷ []) (first_word s)))
]

pub components-first_word :
    (s : List ℕ) → components s ≡ flush (first_word s) (components (behind_word s))
components-first_word s = split-first_word [] s

pub drop_slashes-IsText : (s : List ℕ) → IsText s → IsText (drop_slashes s)
unfolding drop_slashes
drop_slashes-IsText [] t = tt
drop_slashes-IsText (c ∷ s) t = elim (ℕ_discrete c b'/') [
  | yes e ↦ rw e (drop_slashes-IsText s t.1)
  | no ne ↦ rw (==_false c b'/' ne) t
]

pub first_word-IsText : (s : List ℕ) → IsText s → IsText (first_word s)
unfolding first_word
first_word-IsText [] t = tt
first_word-IsText (c ∷ s) t = elim (ℕ_discrete c b'/') [
  | yes e ↦ rw e tt
  | no ne ↦ rw (==_false c b'/' ne) (t.0, first_word-IsText s t.1)
]

pub behind_word-IsText : (s : List ℕ) → IsText s → IsText (behind_word s)
unfolding behind_word
behind_word-IsText [] t = tt
behind_word-IsText (c ∷ s) t = elim (ℕ_discrete c b'/') [
  | yes e ↦ rw e (rw e at t)
  | no ne ↦ rw (==_false c b'/' ne) (behind_word-IsText s t.1)
]

length-drop_slashes : (s : List ℕ) → length (drop_slashes s) ≤ length s
unfolding drop_slashes
length-drop_slashes [] = omega arith
length-drop_slashes (c ∷ s) = ground (arith, length-drop_slashes s)

length_words : (s : List ℕ) → length (first_word s) + length (behind_word s) ≡ length s
unfolding first_word behind_word
length_words [] = omega arith
length_words (c ∷ s) = ground (arith, length_words s)

skip_slashes-text :
    (s rest : List ℕ)
    → IsText s
    → skip_slashes (s ++ (0 ∷ rest)) ≡ some (drop_slashes s ++ (0 ∷ rest))
unfolding skip_slashes drop_slashes
skip_slashes-text [] rest t = refl
skip_slashes-text (c ∷ s) rest t = elim (ℕ_discrete c b'/') [
  | yes e ↦ rw e (skip_slashes-text s rest t.1)
  | no ne ↦ rw (==_false c b'/' ne) refl
]

behind_slashes-text :
    (s rest : List ℕ)
    → IsText s
    → behind_slashes (s ++ (0 ∷ rest)) ≡ some (drop_slashes s ++ (0 ∷ rest))
unfolding behind_slashes drop_slashes
behind_slashes-text [] rest t = refl
behind_slashes-text (c ∷ s) rest t = elim (ℕ_discrete c b'/') [
  | yes e ↦ rw e (skip_slashes-text s rest t.1)
  | no ne ↦ rw (==_false c b'/' ne) refl
]

copy_name-text :
    (s rest store : List ℕ)
    → IsText s
    → length (first_word s) ≤ length store
    → copy_name (s ++ (0 ∷ rest)) store
      ≡ some (behind_word s ++ (0 ∷ rest), first_word s ++ drop (length (first_word s)) store)
unfolding copy_name first_word behind_word
copy_name-text [] rest [] t h = refl
copy_name-text [] rest (b ∷ store) t h = refl
copy_name-text (c ∷ s) rest [] t h = elim (ℕ_discrete c b'/') [
  | yes e ↦ rw e refl
  | no ne ↦ absurd (omega (arith, rw (==_false c b'/' ne) at h))
]
copy_name-text (c ∷ s) rest (b ∷ store) t h = elim (ℕ_discrete c b'/') [
  | yes e ↦ rw e refl
  | no ne ↦
      let room = rw (==_false c b'/' ne) at h in
      rw
        (
          ==_false c b'/' ne,
          ==_false c 0 t.0,
          copy_name-text s rest store t.1 (omega (arith, room)),
        )
        refl
]

-- a pointer to a text, or NULL to an empty one
abbrev pub pointer : (s rest : List ℕ) → Option (List ℕ)
pointer [] rest = none
pointer (c ∷ s) rest = some (c ∷ s ++ (0 ∷ rest))

rest_or_null-text :
    (s rest : List ℕ) → IsText s → rest_or_null (s ++ (0 ∷ rest)) ≡ some (pointer s rest)
unfolding rest_or_null
rest_or_null-text [] rest t = refl
rest_or_null-text (c ∷ s) rest t = rw (==_false c 0 t.0) refl

-- What `pathParse` takes off a path: a component, and the path behind it.
pub record Parsed (s w u : List ℕ) : Type 0 where
  pub word_text : IsText w
  pub rest_text : IsText u
  pub parts : components s ≡ flush w (components u)
  pub shorter : length w + length u ≤ length s

-- the component that is next in a path, and the path behind it
abbrev pub next_word : List ℕ → List ℕ
next_word s = first_word (drop_slashes s)

abbrev pub next_rest : List ℕ → List ℕ
next_rest s = behind_word (drop_slashes s)

pub components_parts : (s : List ℕ) → components s ≡ flush (next_word s) (components (next_rest s))
components_parts s = sym (components-drop_slashes s) ∙ components-first_word (drop_slashes s)

pub path_parse-Parsed :
    (s rest store : List ℕ)
    → IsText s
    → length (next_word s) ≤ length store
    → (path_parse (s ++ (0 ∷ rest)) store
        ≡ some (pointer (next_rest s) rest, next_word s ++ drop (length (next_word s)) store))
      × Parsed s (next_word s) (next_rest s)
unfolding path_parse
path_parse-Parsed s rest store t h =
    let d = drop_slashes-IsText s t in
    (
      rw
          (
            behind_slashes-text s rest t,
            copy_name-text (drop_slashes s) rest store d h,
            rest_or_null-text (next_rest s) rest (behind_word-IsText (drop_slashes s) d),
          )
          refl,
      record {
        word_text = first_word-IsText (drop_slashes s) d;
        rest_text = behind_word-IsText (drop_slashes s) d;
        parts = components_parts s;
        shorter = omega (arith, length_words (drop_slashes s), length-drop_slashes s);
      },
    )

-- Where no component is left, none is found.
first_word-nil : (s : List ℕ) → first_word (drop_slashes s) ≡ [] → drop_slashes s ≡ []
unfolding first_word drop_slashes
first_word-nil [] h = refl
first_word-nil (c ∷ s) h = elim (ℕ_discrete c b'/') [
  | yes e ↦ rw e (first_word-nil s (rw e at h))
  | no ne ↦ absurd (cons_ne (rw (==_false c b'/' ne, ==_false c b'/' ne) at h))
]
  where
    cons_ne : {x : ℕ} {xs : List ℕ} → x ∷ xs ≡ [] → ⊥
    cons_ne q = cc

pub components-nil : (s : List ℕ) → next_word s ≡ [] → components s ≡ []
unfolding split flush
components-nil s h = sym (components-drop_slashes s) ∙ ap components (first_word-nil s h)

length-flush : (w : List ℕ) (cs : List (List ℕ)) → length (flush w cs) ≤ length w + length cs
unfolding flush
length-flush [] cs = omega arith
length-flush (c ∷ w) cs = omega arith

length-split : (cur s : List ℕ) → length (split cur s) ≤ length cur + length s
unfolding split
length-split cur [] = omega (arith, length-flush cur [])
length-split cur (c ∷ s) = elim (ℕ_discrete c b'/') [
  | yes e ↦ rw e (omega (arith, length-flush cur (split [] s), length-split [] s))
  | no ne ↦
      rw (==_false c b'/' ne)
        (omega (arith, length-split (cur ++ (c ∷ [])) s, length-append cur (c ∷ [])))
]

-- There are no more components than characters.
pub length-components : (s : List ℕ) → length (components s) ≤ length s
length-components s = omega (arith, length-split [] s)
