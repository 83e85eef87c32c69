-- ===== src/Shell/WashPath/Tests.antt =====
-- Paths, cleaned.
use gogoos.Common.{ℕ, ◌≡◌, refl, some, List, [], ◌∷◌, ◌++◌, arith, zeros}
use gogoos.CString.Compare.{IsChars}
use gogoos.Fs.PathName.Components.{components, split, flush}
use gogoos.Shell.WashPath.{wash_path}
use gogoos.Shell.WashPath.Stack.{same_text, step, resolve, body, shown}
use gogoos.Shell.WashPath.Memory.{Holds}
use gogoos.Shell.WashPath.Clean.{wash_path-Holds}

-- "a/./b/../c", behind a slash
abbrev path : List ℕ
path = 97 ∷ 47 ∷ 46 ∷ 47 ∷ 98 ∷ 47 ∷ 46 ∷ 46 ∷ 47 ∷ 99 ∷ []

-- it is cleaned to "/a/c"
clean_test : shown (resolve [] (components (47 ∷ path))) ≡ 47 ∷ 97 ∷ 47 ∷ 99 ∷ []
unfolding shown resolve body step same_text split flush
clean_test = refl

path-IsChars : IsChars (47 ∷ path)
path-IsChars = ground arith

wash_path-Holds_example :
    (m' : List ℕ) × (wash_path (47 ∷ path ++ (0 ∷ [])) (zeros 20) ≡ some m')
    × Holds m' (shown (resolve [] (components (47 ∷ path)))) 20
unfolding split flush
wash_path-Holds_example =
    wash_path-Holds path [] (zeros 20) path-IsChars (ground arith) (omega arith)
