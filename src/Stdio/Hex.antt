-- ===== src/Stdio/Hex.antt =====
-- `itoha` writes hexadecimal digits.
use gogoos.Common.{
  ℕ, suc, ◌+◌, ◌-◌, ◌*◌, ◌^◌, ◌<◌, ◌≤◌, ◌≡◌, refl, sym, ap, ◌∙◌, some, List, [], ◌∷◌, ◌++◌, arith,
  ltb, ==_false, if◌then◌else◌, length, ℕ_discrete, ◌⊎◌, inl,
}
use gogoos.Stdio.{reverse_onto, hex_char, map_hex, itoha}
use gogoos.Stdio.Numbers.{
  place, value, AllDigits, read_number, read_number-reverse_onto, AllDigits-reverse_onto,
  length-reverse_onto, digits_from-Digits, value-nonempty,
}

-- the number of a hexadecimal digit, '0' to '9' or 'A' to 'F'
pub hex_digit : ℕ → ℕ
hex_digit c = if ltb b'9' c then c - b'A' + 10 else c - b'0'

abbrev pub IsHexDigit : ℕ → Type 0
IsHexDigit c = ((b'0' ≤ c) × (c ≤ b'9')) ⊎ ((b'A' ≤ c) × (c ≤ b'F'))

abbrev pub AllHex : List ℕ → Type 0
AllHex [] = Unit
AllHex (c ∷ cs) = IsHexDigit c × AllHex cs

-- reading a text of hexadecimal digits, the highest first
pub read_hex : (acc : ℕ) → List ℕ → ℕ
read_hex acc [] = acc
read_hex acc (c ∷ cs) = read_hex (acc * 16 + hex_digit c) cs

read_hex-map_hex :
    (acc : ℕ) (cs : List ℕ) → AllDigits 16 cs → read_hex acc (map_hex cs) ≡ read_number 16 acc cs
unfolding read_hex read_number map_hex hex_digit hex_char
read_hex-map_hex acc [] h = refl
read_hex-map_hex acc (c ∷ cs) h =
    ap (λ k. read_hex k (map_hex cs)) (ground arith)
    ∙ read_hex-map_hex (acc * 16 + (c - b'0')) cs h.2

AllHex-map_hex : (cs : List ℕ) → AllDigits 16 cs → AllHex (map_hex cs)
unfolding map_hex hex_char
AllHex-map_hex [] h = tt
AllHex-map_hex (c ∷ cs) h = (ground arith, AllHex-map_hex cs h.2)

length-map_hex : (cs : List ℕ) → length (map_hex cs) ≡ length cs
unfolding map_hex
length-map_hex [] = refl
length-map_hex (c ∷ cs) = ap suc (length-map_hex cs)

-- the array from its end: 'x' and '0' come first
pub reverse_onto_prefix :
    (ds out : List ℕ)
    → reverse_onto (ds ++ (b'x' ∷ b'0' ∷ [])) out ≡ b'0' ∷ b'x' ∷ reverse_onto ds out
unfolding reverse_onto
reverse_onto_prefix [] out = refl
reverse_onto_prefix (d ∷ ds) out = reverse_onto_prefix ds (d ∷ out)

pub hex_big_lem : (val : ℕ) → val < 2 ^ 32 → val < place 16 8
unfolding place
hex_big_lem val h = omega arith

-- "0x" and one to eight digits that read as `val`
pub record IsHex (val : ℕ) (t : List ℕ) : Type 0 where
  pub digits : List ℕ
  pub prefixed : t ≡ b'0' ∷ b'x' ∷ digits
  pub few : length digits ≤ 8
  pub some_digit : 0 < length digits
  pub all : AllHex digits
  pub reads : read_hex 0 digits ≡ val

-- On every 32-bit number `itoha` stays inside its array and gives "0x" and between one and eight
-- digits, '0' to '9' and 'A' to 'F', which read back as the number.
pub itoha-IsHex : (val : ℕ) → val < 2 ^ 32 → (t : List ℕ) × (itoha val ≡ some t) × IsHex val t
unfolding itoha read_hex hex_digit read_number map_hex hex_char
itoha-IsHex val h = elim (ℕ_discrete val 0) [
  | yes e ↦ (
    b'0' ∷ b'x' ∷ b'0' ∷ [],
    rw e refl,
    record {
      digits = b'0' ∷ [];
      prefixed = refl;
      few = omega arith;
      some_digit = omega arith;
      all = (inl (omega arith, omega arith), tt);
      reads = sym e;
    },
  )
  | no ne ↦
      let (ds, run, d) =
        digits_from-Digits 16 (λ v p l. omega arith) (λ v. omega arith) (λ v. omega arith) 10 8 11
          val 0 (hex_big_lem val h) (omega arith) (omega arith) in
      let all = AllDigits-reverse_onto 16 ds [] d.all tt in
      (
        map_hex (reverse_onto (ds ++ (b'x' ∷ b'0' ∷ [])) []),
        rw (==_false val 0 ne, run) refl,
        record {
          digits = map_hex (reverse_onto ds []);
          prefixed = ap map_hex (reverse_onto_prefix ds []) ∙ map_hex_prefix (reverse_onto ds []);
          few =
              omega (arith, d.few, length-reverse_onto ds [], length-map_hex (reverse_onto ds []));
          some_digit = omega (
            arith,
            length-reverse_onto ds [],
            length-map_hex (reverse_onto ds []),
            value-nonempty 16 val ds d.stands ne,
          );
          all = AllHex-map_hex (reverse_onto ds []) all;
          reads =
              read_hex-map_hex 0 (reverse_onto ds []) all
              ∙ read_number-reverse_onto 16 ds []
              ∙ at_end (value 16 ds)
              ∙ d.stands;
        },
      )
]
  where
    at_end : (k : ℕ) → read_number 16 k [] ≡ k
    at_end k = refl

    map_hex_prefix : (cs : List ℕ) → map_hex (b'0' ∷ b'x' ∷ cs) ≡ b'0' ∷ b'x' ∷ map_hex cs
    map_hex_prefix cs = refl
