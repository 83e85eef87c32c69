-- ===== src/Device/Keyboard/Extended.antt =====
-- Codes that follow 0xe0.
use gogoos.Common.{
  ℕ, ◌<◌, ◌≡◌, ◌≢◌, refl, Bool, true, false, ◌&&◌, not, none, some, arith, leb, ◌==◌, bit_or,
  ==_false,
}
use gogoos.Common.Bits.{all_below, all_below_sound}
use gogoos.Device.Keyboard.{Modifiers, full_code, intr_key_board_handler, ctrl_r_make, alt_r_make}

-- the value of an extended code that no branch of the handler acts on
abbrev inert : ℕ → Bool
inert c =
    not (leb c 0x3a)
    && not (c == ctrl_r_make)
    && not (c == alt_r_make)
    && not (c == 0x9d)
    && not (c == 0xe09d)
    && not (c == 0xaa)
    && not (c == 0xb6)
    && not (c == 0xb8)
    && not (c == 0xe0b8)

inert_table : all_below 256 (λ c. inert (bit_or 0xe800 c)) ≡ true
unfolding all_below
inert_table = refl

full_code-inert : (k : Modifiers) (c : ℕ) → inert c ≡ true → full_code k c ≡ some (k, none)
unfolding full_code
full_code-inert k c h = ground arith

-- After 0xe0 every other byte is dropped: it changes no modifier and types nothing, and only the
-- memory of the 0xe0 is cleared. (The handler puts 0xe8 in front of the code, and the make and
-- break codes of the right keys begin with 0xe0.)
pub extended_dropped :
    (k : Modifiers) (c : ℕ)
    → k.ext_scan_code ≡ true
    → c < 256
    → c ≢ 0xe0
    → intr_key_board_handler k c ≡ some (record k { ext_scan_code = false }, none)
unfolding intr_key_board_handler
extended_dropped k c e lt ne =
    rw (==_false c 0xe0 ne, e)
      (full_code-inert (record k { ext_scan_code = false }) (bit_or 0xe800 c)
        (all_below_sound 256 (λ b. inert (bit_or 0xe800 b)) c inert_table lt))
