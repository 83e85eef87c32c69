-- ===== src/Shell/CmdParse/Tests.antt =====
-- shell/shell.c: a line of two words.
use gogoos.Common.{ℕ, ◌<◌, ◌≤◌, ◌≡◌, take, some, List, [], ◌∷◌, arith}
use gogoos.Shell.CmdParse.{parsed, exceeded, cmd_parse}
use gogoos.Shell.CmdParse.Arguments.{line, cmd_parse-line}

-- "ls" and "/a"
abbrev two_words : List (List ℕ)
two_words = (108 ∷ 115 ∷ []) ∷ ((47 ∷ 97 ∷ []) ∷ [])

cmd_parse-line_example :
    (2 ≤ 17 → cmd_parse (line 32 two_words) 32 ≡ some (parsed two_words))
    × (17 < 2 → cmd_parse (line 32 two_words) 32 ≡ some (exceeded (take 18 two_words)))
cmd_parse-line_example = cmd_parse-line 32 two_words (
  omega arith,
  ((λ e. omega arith), ((λ e. omega arith), tt)),
  (omega arith, ((λ e. omega arith), ((λ e. omega arith), tt)), tt),
)
