-- ===== src/Stdio/Texts.antt =====
-- The texts of numbers, the highest digit first, and that `itoa`, `itoha` and case 'd' of `vsprintf` put them out.
use gogoos.Common.{
  ap₂, ℕ, zero, suc, ◌+◌, ◌-◌, ◌*◌, ◌/◌, ◌%◌, ◌^◌, ◌<◌, ◌≤◌, ◌≡◌, refl, sym, ap, ◌∙◌, some, List,
  [], ◌∷◌, ◌++◌, append_assoc, arith, ltb, ◌==◌, ==_false, lt→ltb, ltb-false, if◌then◌else◌, dec_lt,
  ℕ_discrete,
}
use gogoos.Stdio.{digits_from, reverse_onto, itoa, hex_char, map_hex, itoha, signed_text}
use gogoos.Stdio.Numbers.{place, big_lem}
use gogoos.Stdio.Hex.{reverse_onto_prefix, hex_big_lem}

-- the digits of `val` in a base, above 0
unfoldable pub positional : (base : ℕ) → (digit : ℕ → ℕ) → (places val : ℕ) → List ℕ
positional base digit zero val = []
positional base digit (suc n) val =
    let higher = positional base digit n (val / base) in
    if val == 0 then [] else higher ++ (digit (val % base) ∷ [])

-- '0' to '9', then 'A' to 'F'
abbrev pub digit_char : ℕ → ℕ
digit_char d = if ltb d 10 then b'0' + d else b'A' + (d - 10)

-- a number of at most ten decimal digits
abbrev pub decimal : ℕ → List ℕ
decimal val = if val == 0 then b'0' ∷ [] else positional 10 digit_char 10 val

-- "0x" and at most eight hexadecimal digits
abbrev pub hexadecimal : ℕ → List ℕ
hexadecimal val = b'0' ∷ b'x' ∷ (if val == 0 then b'0' ∷ [] else positional 16 digit_char 8 val)

-- the signed integer that a 32-bit pattern stands for
abbrev pub signed_decimal : ℕ → List ℕ
signed_decimal w = if ltb w (2 ^ 31) then decimal w else b'-' ∷ decimal (2 ^ 32 - w)

reverse_onto-append : (ds out : List ℕ) → reverse_onto ds out ≡ reverse_onto ds [] ++ out
unfolding reverse_onto
reverse_onto-append [] out = refl
reverse_onto-append (d ∷ ds) out =
    reverse_onto-append ds (d ∷ out)
    ∙ sym (append_assoc (reverse_onto ds []) (d ∷ []) out)
    ∙ ap (λ t. t ++ out) (sym (reverse_onto-append ds (d ∷ [])))

-- what a base's digits are as characters above '0'
abbrev raw : ℕ → ℕ
raw d = d + b'0'

module _ (base : ℕ) (below : (v p : ℕ) → v < base * p → v / base < p) where
  digits_from-positional :
      (room n fuel val idx : ℕ)
      → val < place base n
      → n < fuel
      → idx + n ≤ room
      → (ds : List ℕ) × (digits_from base room fuel val idx ≡ some ds)
        × (reverse_onto ds [] ≡ positional base raw n val)
  unfolding digits_from place positional reverse_onto
  digits_from-positional room n zero val idx h f r = absurd (omega arith)
  digits_from-positional room zero (suc fuel) val idx h f r =
      let e : val ≡ 0 = omega arith in ([], rw (e) refl, refl)
  digits_from-positional room (suc n) (suc fuel) val idx h f r = elim (ℕ_discrete val 0) [
    | yes e ↦ ([], rw (e) refl, rw (e) refl)
    | no ne ↦
        let (ds, run, same) =
          digits_from-positional room n fuel (val / base) (idx + 1) (below val (place base n) h)
            (omega arith) (omega arith) in
        (
          raw (val % base) ∷ ds,
          rw (==_false val 0 ne, lt→ltb idx room (omega arith), run) refl,
          rw (==_false val 0 ne) (
              reverse_onto-append ds (raw (val % base) ∷ [])
              ∙ ap (λ t. t ++ (raw (val % base) ∷ [])) same),
        )
  ]

positional_same :
    (base : ℕ) (f g : ℕ → ℕ)
    → ((v : ℕ) → f (v % base) ≡ g (v % base))
    → (n v : ℕ) → positional base f n v ≡ positional base g n v
unfolding positional
positional_same base f g same zero v = refl
positional_same base f g same (suc n) v =
    ap₂ (λ s t. if v == 0 then [] else s ++ (t ∷ [])) (positional_same base f g same n (v / base))
      (same v)

map_hex-append : (xs ys : List ℕ) → map_hex (xs ++ ys) ≡ map_hex xs ++ map_hex ys
unfolding map_hex
map_hex-append [] ys = refl
map_hex-append (x ∷ xs) ys = ap (λ t. hex_char x ∷ t) (map_hex-append xs ys)

map_hex-positional : (n v : ℕ) → map_hex (positional 16 raw n v) ≡ positional 16 digit_char n v
unfolding map_hex positional hex_char
map_hex-positional zero v = refl
map_hex-positional (suc n) v = elim (ℕ_discrete v 0) [
  | yes e ↦ rw (e) refl
  | no ne ↦
      let last : hex_char (raw (v % 16)) ≡ digit_char (v % 16) = ground arith in
      rw (==_false v 0 ne) (
        map_hex-append (positional 16 raw n (v / 16)) (raw (v % 16) ∷ [])
        ∙ ap₂ (λ s t. s ++ (t ∷ [])) (map_hex-positional n (v / 16)) last)
]

pub itoa-decimal : (val : ℕ) → val < 2 ^ 32 → itoa val ≡ some (decimal val)
unfolding itoa
itoa-decimal val lt = elim (ℕ_discrete val 0) [
  | yes e ↦ rw (e) refl
  | no ne ↦
      let (ds, run, same) =
        digits_from-positional 10 (λ v p l. omega arith) 10 10 11 val 0 (big_lem val lt)
          (omega arith) (omega arith) in
      rw (==_false val 0 ne, run)
        (ap some (same ∙ positional_same 10 raw digit_char (λ v. ground arith) 10 val))
]

pub itoha-hexadecimal : (val : ℕ) → val < 2 ^ 32 → itoha val ≡ some (hexadecimal val)
unfolding itoha map_hex hex_char
itoha-hexadecimal val lt = elim (ℕ_discrete val 0) [
  | yes e ↦ rw (e) refl
  | no ne ↦
      let (ds, run, same) =
        digits_from-positional 16 (λ v p l. omega arith) 10 8 11 val 0 (hex_big_lem val lt)
          (omega arith) (omega arith) in
      rw (==_false val 0 ne, run)
        (ap (λ t. some (map_hex t)) (reverse_onto_prefix ds [])
          ∙ ap (λ t. some (b'0' ∷ b'x' ∷ map_hex t)) same
          ∙ ap (λ t. some (b'0' ∷ b'x' ∷ t)) (map_hex-positional 8 val))
]

pub signed_text-signed_decimal : (w : ℕ) → w < 2 ^ 32 → signed_text w ≡ some (signed_decimal w)
unfolding signed_text
signed_text-signed_decimal w lt = elim (dec_lt w (2 ^ 31)) [
  | yes low ↦ rw (lt→ltb w (2 ^ 31) low) (itoa-decimal w lt)
  | no high ↦ rw (ltb-false w (2 ^ 31) (omega arith), itoa-decimal (2 ^ 32 - w) (omega arith)) refl
]
