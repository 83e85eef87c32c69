-- ===== src/Shell/CmdParse.antt =====
-- shell/shell.c, `cmdParse` of a line that is not NULL. A text is the list of its characters before the NUL; an
-- argument is the text that its pointer names when `cmdParse` is done, where a NUL stands for the token. The memory behind `argv` takes
-- what is written to it, and does not hold the line; `none` is left for a run that fuel cuts short.
pub mod Arguments
mod Tests
use gogoos.Common.{
  ℕ, zero, suc, ◌+◌, Bool, true, false, Option, none, some, List, [], ◌∷◌, ltb, ◌==◌, if◌then◌else◌,
  ◌>>=◌, ◌>>◌, assert, length,
}

-- `MAX_ARG_NUM`
abbrev pub max_arg_num : ℕ
max_arg_num = 16

-- while (*next == token) next++
unfoldable pub skip_token : (token : ℕ) → List ℕ → List ℕ
skip_token token [] = []
skip_token token (c ∷ cs) = let rest = skip_token token cs in if c == token then rest else c ∷ cs

-- while (*next && *next != token) next++: the argument, and `next` behind the token
unfoldable pub argument : (token : ℕ) → List ℕ → List ℕ × List ℕ
argument token [] = ([], [])
argument token (c ∷ cs) =
    let (arg, rest) = argument token cs in if c == token then ([], cs) else (c ∷ arg, rest)

-- what is written to `argv`, from its start: its length is returned, or -1. The sixteen places of `argv` are at the
-- start of the memory that is written; the words from the seventeenth on go behind it.
pub data Parsed : Type 0 where
  parsed : (argv : List (List ℕ)) → Parsed
  exceeded : (argv : List (List ℕ)) → Parsed

abbrev pub with_argument : List ℕ → Parsed → Parsed
with_argument arg (parsed argv) = parsed (arg ∷ argv)
with_argument arg (exceeded argv) = exceeded (arg ∷ argv)

-- A round behind the tokens. argv[argc] is written before the number is compared.
abbrev pub round :
    (next_round : List ℕ → Option Parsed) → (token argc : ℕ) → (next : List ℕ) → Option Parsed
round next_round token argc [] = some (parsed [])
round next_round token argc (c ∷ cs) = do
  let (arg, rest) = argument token (c ∷ cs)
  others ← (if ltb max_arg_num argc then some (exceeded []) else next_round rest)
  some (with_argument arg others)

-- The outer loop. Every round takes a character or more, so that as many rounds as characters and one more are
-- enough.
unfoldable pub parse_args : (fuel token : ℕ) → (next : List ℕ) → (argc : ℕ) → Option Parsed
parse_args zero token next argc = none
parse_args (suc f) token next argc =
    round (λ rest. parse_args f token rest (argc + 1)) token argc (skip_token token next)

-- `cmdParse`
unfoldable pub cmd_parse : (cmd_str : List ℕ) → (token : ℕ) → Option Parsed
cmd_parse cmd_str token = parse_args (suc (length cmd_str)) token cmd_str 0
