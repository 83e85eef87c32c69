-- ===== src/Device/Keyboard/Letters.antt =====
-- What the keys of letters type.
use gogoos.Common.{
  ℕ, ◌-◌, ◌≤◌, ◌≡◌, refl, Bool, true, false, ◌&&◌, ◌||◌, not, Option, none, some, arith, leb, ◌==◌,
  if◌then◌else◌, get_elem?, lt_of_get_elem?,
}
use gogoos.Common.Bits.{all_below, all_below_sound}
use gogoos.Device.Keyboard.{Modifiers, keymap, intr_key_board_handler}

-- the modifiers with neither ctrl nor a pending 0xe0
abbrev pub plain : (shift alt caps : Bool) → Modifiers
plain shift alt caps = record {
  ctrl_status = false;
  shift_status = shift;
  alt_status = alt;
  caps_lock_status = caps;
  ext_scan_code = false;
}

abbrev pub differ : Bool → Bool → Bool
differ true b = not b
differ false b = b

unfoldable pub letter_or_capital : (shift caps : Bool) → ℕ → ℕ
letter_or_capital shift caps l = if differ shift caps then l - 32 else l

-- what a run of the handler types
abbrev pub sent : Option (Modifiers × Option ℕ) → Option ℕ
sent none = none
sent (some (k, c)) = c

is_sent : Option ℕ → ℕ → Bool
is_sent none c = false
is_sent (some a) c = a == c

is_sent-eq : (o : Option ℕ) (c : ℕ) → is_sent o c ≡ true → o ≡ some c
unfolding is_sent
is_sent-eq none c h = cc
is_sent-eq (some a) c h = ground arith

is_lower : ℕ → Bool
is_lower l = leb b'a' l && leb l b'z'

row_ok : (shift alt caps : Bool) → ℕ → Option (ℕ × ℕ) → Bool
unfolding is_sent letter_or_capital is_lower
row_ok shift alt caps c none = true
row_ok shift alt caps c (some (l, u)) =
    not (is_lower l)
    || is_sent (sent (intr_key_board_handler (plain shift alt caps) c))
        (letter_or_capital shift caps l)

key_ok : (shift alt caps : Bool) → ℕ → Bool
unfolding row_ok
key_ok shift alt caps c = row_ok shift alt caps c (get_elem? keymap c)

keys_table : (shift alt caps : Bool) → all_below 59 (key_ok shift alt caps) ≡ true
unfolding all_below key_ok intr_key_board_handler
keys_table true true true = refl
keys_table true true false = refl
keys_table true false true = refl
keys_table true false false = refl
keys_table false true true = refl
keys_table false true false = refl
keys_table false false true = refl
keys_table false false false = refl

row_ok-sent :
    (shift alt caps : Bool) (c l u : ℕ)
    → row_ok shift alt caps c (some (l, u)) ≡ true
    → is_lower l ≡ true
    → sent (intr_key_board_handler (plain shift alt caps) c) ≡ some (letter_or_capital shift caps l)
unfolding row_ok
row_ok-sent shift alt caps c l u h low =
    is_sent-eq (sent (intr_key_board_handler (plain shift alt caps) c))
      (letter_or_capital shift caps l) (rw low at h)

-- With neither ctrl nor a pending 0xe0, the key of a letter types the letter, as a capital exactly
-- when one of shift and caps lock is on and the other is off.
pub letter_key :
    (shift alt caps : Bool) (c l u : ℕ)
    → get_elem? keymap c ≡ some (l, u)
    → b'a' ≤ l
    → l ≤ b'z'
    → sent (intr_key_board_handler (plain shift alt caps) c) ≡ some (letter_or_capital shift caps l)
unfolding key_ok is_lower
letter_key shift alt caps c l u row lo hi =
    row_ok-sent shift alt caps c l u
      (rw row at (
        all_below_sound 59 (key_ok shift alt caps) c (keys_table shift alt caps)
          (lt_of_get_elem? keymap c row)))
      (ground arith)
