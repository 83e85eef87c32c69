-- ===== src/Shell/CmdParse/Arguments.antt =====
-- shell/shell.c: `cmdParse` gives back the words of which a line is made.
use gogoos.Common.{
  ℕ, zero, suc, ◌+◌, ◌<◌, ◌≤◌, ◌≡◌, ◌≢◌, refl, sym, ap, ◌∙◌, some, List, [], ◌∷◌, ◌++◌, arith,
  ==_refl, ==_false, lt→ltb, ltb-false, ◌>>=◌, take, length, length-append,
}
use gogoos.Shell.CmdParse.{
  skip_token, argument, parsed, exceeded, with_argument, parse_args, cmd_parse,
}

-- no character is the token
abbrev pub IsText : (token : ℕ) → List ℕ → Type 0
IsText token [] = Unit {0}
IsText token (c ∷ cs) = (c ≢ token) × IsText token cs

-- words that are not empty
abbrev pub AreWords : (token : ℕ) → List (List ℕ) → Type 0
AreWords token [] = Unit {0}
AreWords token (w ∷ ws) = (0 < length w) × IsText token w × AreWords token ws

-- the words with a token between them
abbrev pub line : (token : ℕ) → List (List ℕ) → List ℕ
line token [] = []
line token (w ∷ []) = w
line token (w ∷ (v ∷ ws)) = w ++ (token ∷ line token (v ∷ ws))

module _ (token : ℕ) where
  argument-append :
      (w rest : List ℕ) → IsText token w → argument token (w ++ (token ∷ rest)) ≡ (w, rest)
  unfolding argument
  argument-append [] rest h = rw (==_refl token) refl
  argument-append (c ∷ w) rest h = rw (==_false c token h.0, argument-append w rest h.1) refl

  argument_end : (w : List ℕ) → IsText token w → argument token w ≡ (w, [])
  unfolding argument
  argument_end [] h = refl
  argument_end (c ∷ w) h = rw (==_false c token h.0, argument_end w h.1) refl

  argument-line :
      (w : List ℕ) (ws : List (List ℕ))
      → IsText token w
      → argument token (line token (w ∷ ws)) ≡ (w, line token ws)
  argument-line w [] h = argument_end w h
  argument-line w (v ∷ ws) h = argument-append w (line token (v ∷ ws)) h

  -- A line of words begins with the first character of the first word.
  skip_token-line :
      (c : ℕ) (w : List ℕ) (ws : List (List ℕ))
      → c ≢ token
      → (cs : List ℕ) × (line token ((c ∷ w) ∷ ws) ≡ c ∷ cs) × (skip_token token (c ∷ cs) ≡ c ∷ cs)
  unfolding skip_token
  skip_token-line c w [] ne = (w, refl, rw (==_false c token ne) refl)
  skip_token-line c w (v ∷ ws) ne =
      (w ++ (token ∷ line token (v ∷ ws)), refl, rw (==_false c token ne) refl)

  -- One round takes one word.
  parse_args-suc :
      (f argc : ℕ) (w : List ℕ) (ws : List (List ℕ))
      → 0 < length w
      → IsText token w
      → argc ≤ 16
      → parse_args (suc f) token (line token (w ∷ ws)) argc ≡ (
          parse_args f token (line token ws) (argc + 1) >>= λ others. some (with_argument w others))
  unfolding parse_args
  parse_args-suc f argc [] ws pos h lt = absurd (omega arith)
  parse_args-suc f argc (c ∷ w) ws pos h lt =
      let (cs, starts, skip) = skip_token-line c w ws h.0 in
      let arg = ap (argument token) (sym starts) ∙ argument-line (c ∷ w) ws h in
      rw (starts, skip, ltb-false 16 argc lt, arg) refl

  -- A round behind the seventeenth word is the last one.
  parse_args_last :
      (f argc : ℕ) (w : List ℕ) (ws : List (List ℕ))
      → 0 < length w
      → IsText token w
      → 16 < argc
      → parse_args (suc f) token (line token (w ∷ ws)) argc ≡ some (exceeded (w ∷ []))
  unfolding parse_args
  parse_args_last f argc [] ws pos h lt = absurd (omega arith)
  parse_args_last f argc (c ∷ w) ws pos h lt =
      let (cs, starts, skip) = skip_token-line c w ws h.0 in
      let arg = ap (argument token) (sym starts) ∙ argument-line (c ∷ w) ws h in
      rw (starts, skip, lt→ltb 16 argc lt, arg) refl

  parse_args-line :
      (ws : List (List ℕ)) (f argc : ℕ)
      → AreWords token ws
      → length ws < f
      → argc + length ws ≤ 17
      → parse_args f token (line token ws) argc ≡ some (parsed ws)
  unfolding parse_args skip_token
  parse_args-line ws zero argc h lt le = absurd (omega arith)
  parse_args-line [] (suc f) argc h lt le = refl
  parse_args-line (w ∷ ws) (suc f) argc h lt le =
      parse_args-suc f argc w ws h.0 h.1 (omega arith)
      ∙ rw (parse_args-line ws f (argc + 1) h.2 (omega arith) (omega arith)) refl

  parse_args-exceeded :
      (ws : List (List ℕ)) (f n argc : ℕ)
      → AreWords token ws
      → length ws < f
      → argc + n ≡ 17
      → n < length ws
      → parse_args f token (line token ws) argc ≡ some (exceeded (take (suc n) ws))
  parse_args-exceeded ws zero n argc h lt e more = absurd (omega arith)
  parse_args-exceeded [] (suc f) n argc h lt e more = absurd (omega arith)
  parse_args-exceeded (w ∷ ws) (suc f) zero argc h lt e more =
      parse_args_last f argc w ws h.0 h.1 (omega arith)
  parse_args-exceeded (w ∷ ws) (suc f) (suc n) argc h lt e more =
      parse_args-suc f argc w ws h.0 h.1 (omega arith)
      ∙ rw (parse_args-exceeded ws f n (argc + 1) h.2 (omega arith) (omega arith) (omega arith))
          refl

  length-line : (ws : List (List ℕ)) → AreWords token ws → length ws ≤ length (line token ws)
  length-line [] h = omega arith
  length-line (w ∷ []) h = omega (arith, h.0)
  length-line (w ∷ (v ∷ ws)) h =
      omega (arith, h.0, length-append w (token ∷ line token (v ∷ ws)), length-line (v ∷ ws) h.2)

-- `cmdParse` of a line of words that are not empty and have a token between them, with memory behind `argv` that takes
-- what is written: up to seventeen words it writes one after the other, and returns their number, though `argv` has
-- sixteen places. Of more words it writes the first eighteen, the last two behind `argv`, and returns -1.
pub cmd_parse-line :
    (token : ℕ) (ws : List (List ℕ))
    → AreWords token ws
    → (length ws ≤ 17 → cmd_parse (line token ws) token ≡ some (parsed ws))
      × (17 < length ws → cmd_parse (line token ws) token ≡ some (exceeded (take 18 ws)))
unfolding cmd_parse
cmd_parse-line token ws h = (
  (λ le.
      parse_args-line token ws (suc (length (line token ws))) 0 h
        (omega (arith, length-line token ws h)) (omega arith)),
  λ more.
      parse_args-exceeded token ws (suc (length (line token ws))) 17 0 h
        (omega (arith, length-line token ws h)) (omega arith) (omega arith),
)
