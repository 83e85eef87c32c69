-- ===== src/Fs/PathName/Tests.antt =====
-- Paths, taken apart.
use gogoos.Common.{ℕ, ◌≡◌, refl, some, List, [], ◌∷◌, ◌++◌, arith, length, replicate}
use gogoos.CString.{memset}
use gogoos.Fs.PathName.{
  skip_slashes, copy_name, behind_slashes, rest_or_null, path_parse, parse_next, count_components,
  path_depth_cnt,
}
use gogoos.Fs.PathName.Components.{components, split, flush}
use gogoos.Fs.PathName.Depth.{path_depth_cnt-components}

-- "/a//bc/"
abbrev path : List ℕ
path = 47 ∷ 97 ∷ 47 ∷ 47 ∷ 98 ∷ 99 ∷ 47 ∷ []

components_test : components path ≡ (97 ∷ []) ∷ (98 ∷ 99 ∷ []) ∷ []
unfolding split flush
components_test = refl

-- "/", with an array that holds a character before
root_test : path_depth_cnt (7 ∷ replicate 15 0) (47 ∷ 0 ∷ []) ≡ some 1
unfolding path_depth_cnt path_parse count_components behind_slashes skip_slashes copy_name
    rest_or_null parse_next memset
root_test = refl

path_depth_cnt-components_example :
    path_depth_cnt (replicate 16 9) (path ++ (0 ∷ [])) ≡ some (length (components path))
unfolding split flush
path_depth_cnt-components_example =
    path_depth_cnt-components (replicate 16 9) path [] refl (ground arith) (omega arith)
      (omega arith, (omega arith, tt)) (λ q. cc)
