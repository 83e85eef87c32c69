-- ===== src/Stdio/Numbers.antt =====
-- `itoa` and `itoha`: the digits that they put out stand for the number.
use gogoos.Common.{
  ℕ, zero, suc, ◌+◌, ◌-◌, ◌*◌, ◌/◌, ◌%◌, ◌^◌, ◌<◌, ◌≤◌, ◌≡◌, ◌≢◌, refl, sym, ap, ◌∙◌, some, List,
  [], ◌∷◌, arith, lt→ltb, ==_false, length, ℕ_discrete,
}
use gogoos.Stdio.{digits_from, reverse_onto, itoa}

-- the `n`-th power of the base
unfoldable pub place : ℕ → ℕ → ℕ
place base zero = 1
place base (suc n) = base * place base n

-- the number that digits stand for, the lowest digit first
unfoldable pub value : ℕ → List ℕ → ℕ
value base [] = 0
value base (d ∷ ds) = (d - b'0') + base * value base ds

-- Each is the character '0' and a number below the base.
abbrev pub AllDigits : ℕ → List ℕ → Type 0
AllDigits base [] = Unit
AllDigits base (d ∷ ds) = (b'0' ≤ d) × (d < b'0' + base) × AllDigits base ds

-- reading a text, the highest digit first
unfoldable pub read_number : (base acc : ℕ) → List ℕ → ℕ
read_number base acc [] = acc
read_number base acc (c ∷ cs) = read_number base (acc * base + (c - b'0')) cs

pub read_number-reverse_onto :
    (base : ℕ) (ds out : List ℕ)
    → read_number base 0 (reverse_onto ds out) ≡ read_number base (value base ds) out
unfolding read_number reverse_onto value
read_number-reverse_onto base [] out = refl
read_number-reverse_onto base (d ∷ ds) out =
    read_number-reverse_onto base ds (d ∷ out) ∙ ap (λ k. read_number base k out) (grind arith)

pub AllDigits-reverse_onto :
    (base : ℕ) (ds out : List ℕ)
    → AllDigits base ds
    → AllDigits base out
    → AllDigits base (reverse_onto ds out)
unfolding reverse_onto
AllDigits-reverse_onto base [] out h k = k
AllDigits-reverse_onto base (d ∷ ds) out h k =
    AllDigits-reverse_onto base ds (d ∷ out) h.2 (h.0, h.1, k)

pub length-reverse_onto : (ds out : List ℕ) → length (reverse_onto ds out) ≡ length ds + length out
unfolding reverse_onto
length-reverse_onto [] out = omega arith
length-reverse_onto (d ∷ ds) out = omega (arith, length-reverse_onto ds (d ∷ out))

-- what the loop leaves in `buff`
pub record Digits (base val n : ℕ) (ds : List ℕ) : Type 0 where
  pub few : length ds ≤ n
  pub all : AllDigits base ds
  pub stands : value base ds ≡ val

module _ (base : ℕ) (below : (v p : ℕ) → v < base * p → v / base < p)
    (split : (v : ℕ) → v % base + base * (v / base) ≡ v) (small : (v : ℕ) → v % base < base) where
  pub digits_from-Digits :
      (room n fuel val idx : ℕ)
      → val < place base n
      → n < fuel
      → idx + n ≤ room
      → (ds : List ℕ) × (digits_from base room fuel val idx ≡ some ds) × Digits base val n ds
  unfolding digits_from place value
  digits_from-Digits room n zero val idx h f r = absurd (omega arith)
  digits_from-Digits room zero (suc fuel) val idx h f r =
      let e : val ≡ 0 = omega arith in
      ([], rw e refl, record { few = omega arith; all = tt; stands = sym e })
  digits_from-Digits room (suc n) (suc fuel) val idx h f r = elim (ℕ_discrete val 0) [
    | yes e ↦ ([], rw e refl, record { few = omega arith; all = tt; stands = sym e })
    | no ne ↦
        let (ds, run, d) =
          digits_from-Digits room n fuel (val / base) (idx + 1) (below val (place base n) h)
            (omega arith) (omega arith) in
        (
          (val % base + b'0') ∷ ds,
          rw (==_false val 0 ne, lt→ltb idx room (omega arith), run) refl,
          record {
            few = omega (arith, d.few);
            all = (omega arith, omega (arith, small val), d.all);
            stands = rw (d.stands) (omega (arith, split val));
          },
        )
  ]

pub value-nonempty : (base val : ℕ) (ds : List ℕ) → value base ds ≡ val → val ≢ 0 → 0 < length ds
unfolding value
value-nonempty base val [] e ne = absurd (ne (sym e))
value-nonempty base val (d ∷ ds) e ne = omega arith

pub big_lem : (val : ℕ) → val < 2 ^ 32 → val < place 10 10
unfolding place
big_lem val h = omega arith

-- a text of one to ten decimal digits that reads as `val`
pub record IsDecimal (val : ℕ) (t : List ℕ) : Type 0 where
  pub few : length t ≤ 10
  pub some_digit : 0 < length t
  pub all : AllDigits 10 t
  pub reads : read_number 10 0 t ≡ val

-- On every 32-bit number `itoa` stays inside its array of ten and gives between one and ten decimal
-- digits, which read back as the number.
pub itoa-IsDecimal : (val : ℕ) → val < 2 ^ 32 → (t : List ℕ) × (itoa val ≡ some t) × IsDecimal val t
unfolding itoa read_number
itoa-IsDecimal val h = elim (ℕ_discrete val 0) [
  | yes e ↦ (
    b'0' ∷ [],
    rw e refl,
    record {
      few = omega arith;
      some_digit = omega arith;
      all = (omega arith, omega arith, tt);
      reads = sym e;
    },
  )
  | no ne ↦
      let (ds, run, d) =
        digits_from-Digits 10 (λ v p l. omega arith) (λ v. omega arith) (λ v. omega arith) 10 10 11
          val 0 (big_lem val h) (omega arith) (omega arith) in
      (
        reverse_onto ds [],
        rw (==_false val 0 ne, run) refl,
        record {
          few = omega (arith, d.few, length-reverse_onto ds []);
          some_digit =
              omega (arith, length-reverse_onto ds [], value-nonempty 10 val ds d.stands ne);
          all = AllDigits-reverse_onto 10 ds [] d.all tt;
          reads = read_number-reverse_onto 10 ds [] ∙ d.stands;
        },
      )
]
