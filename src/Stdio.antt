-- ===== src/Stdio.antt =====
-- lib/user/stdio.c, and through it lib/kernel/stdio.c: numbers and formats. A pointer is the memory
-- from it to the end of its object, as in CString; `none` is an access behind that end, or an
-- argument that is not there or not of the kind that the format asks for.
pub mod Numbers
pub mod Hex
pub mod Rendered
pub mod Texts
mod Tests
use gogoos.Common.{
  ℕ, zero, suc, ◌+◌, ◌-◌, ◌/◌, ◌%◌, ◌^◌, Bool, true, false, not, ◌&&◌, ◌||◌, Option, none, some,
  List, [], ◌∷◌, ◌++◌, ltb, ◌==◌, if◌then◌else◌, ◌>>=◌, ◌>>◌, assert, take, drop,
}
use gogoos.CString.{strcpy, strlen}

-- Both loops over the digits: `buff` from index `idx` on, the lowest digit first, with `room` as the
-- size of the array. The array is full after `room` rounds, so that one round of fuel more is enough.
pub digits_from : (base room fuel val idx : ℕ) → Option (List ℕ)
digits_from base room zero val idx = none
digits_from base room (suc fuel) val idx =
    let round = (do
      assert (ltb idx room)
      rest ← digits_from base room fuel (val / base) (idx + 1)
      some ((val % base + b'0') ∷ rest)) in
    if val == 0 then some [] else round

pub reverse_onto : List ℕ → List ℕ → List ℕ
reverse_onto [] out = out
reverse_onto (c ∷ cs) out = reverse_onto cs (c ∷ out)

-- `itoa` gives what it puts at `*bufPtrAddr`.
pub itoa : ℕ → Option (List ℕ)
itoa val =
    if val == 0
    then some (b'0' ∷ [])
    else do buff ← digits_from 10 10 11 val 0; some (reverse_onto buff [])

-- if (buff[idx] > '9' && buff[idx] != 'x') buff[idx] += 7
pub hex_char : ℕ → ℕ
hex_char c = if ltb b'9' c && not (c == b'x') then c + 7 else c

pub map_hex : List ℕ → List ℕ
unfolding hex_char
map_hex [] = []
map_hex (c ∷ cs) = hex_char c ∷ map_hex cs

-- `itoha`; of the twelve bytes of `buff`, 'x' and '0' take two, behind the digits
pub itoha : ℕ → Option (List ℕ)
itoha val = if val == 0 then some (b'0' ∷ b'x' ∷ b'0' ∷ []) else do
  buff ← digits_from 16 10 11 val 0
  some (map_hex (reverse_onto (buff ++ (b'x' ∷ b'0' ∷ [])) []))

-- what `va_arg` takes: a 32-bit pattern, or a pointer to a text
pub data Arg : Type 0 where
  word : ℕ → Arg
  text : List ℕ → Arg

-- writes `cs` from `bufPtr` on, then goes on behind them
pub put_all : List ℕ → (List ℕ → Option (List ℕ)) → List ℕ → Option (List ℕ)
put_all [] next d = next d
put_all (c ∷ cs) next [] = none
put_all (c ∷ cs) next (_ ∷ d) = do r ← put_all cs next d; some (c ∷ r)

-- case 'd'
pub signed_text : ℕ → Option (List ℕ)
signed_text w =
    if ltb w (2 ^ 31) then itoa w else do digits ← itoa (2 ^ 32 - w); some (b'-' ∷ digits)

-- case 's': `strcpy` at `bufPtr`, which goes on behind the text
pub put_text : List ℕ → (List ℕ → Option (List ℕ)) → List ℕ → Option (List ℕ)
put_text s next d = do d' ← strcpy d s; n ← strlen s; r ← next (drop n d'); some (take n d' ++ r)

-- from `switch (curChar)` on, behind a '%'; `next` is the rest of the loop
pub directive : ℕ → (List Arg → List ℕ → Option (List ℕ)) → List Arg → List ℕ → Option (List ℕ)
directive c next [] d =
    if c == b'd' || c == b'x' || c == b'c' || c == b's' then none else put_all (c ∷ []) (next []) d
directive c next (word w ∷ args) d =
    if c == b'd'
    then (do t ← signed_text w; put_all t (next args) d)
    else if c == b'x'
    then (do t ← itoha w; put_all t (next args) d)
    else if c == b'c'
    then put_all (w % 256 ∷ []) (next args) d
    else if c == b's'
    then none
    else put_all (c ∷ []) (next (word w ∷ args)) d
directive c next (text s ∷ args) d =
    if c == b's'
    then put_text s (next args) d
    else if c == b'd' || c == b'x' || c == b'c'
    then none
    else put_all (c ∷ []) (next (text s ∷ args)) d

-- The loop of `vsprintf`: the memory from `bufPtr` on as it leaves it. Behind a '%' at the end of
-- the format the loop goes on outside of it.
pub format_from : (format : List ℕ) → List Arg → (d : List ℕ) → Option (List ℕ)
format_from [] args d = none
format_from (c ∷ []) args d = if c == 0 then some d else none
format_from (c ∷ e ∷ format) args d =
    let next = format_from format in
    let plain = put_all (c ∷ []) (format_from (e ∷ format) args) d in
    if c == 0 then some d else if c == b'%' then directive e next args d else plain

-- `vsprintf` gives what it returns and the buffer.
pub vsprintf : (buf format : List ℕ) → List Arg → Option (ℕ × List ℕ)
vsprintf buf format args = do buf' ← format_from format args buf; n ← strlen buf'; some (n, buf')
