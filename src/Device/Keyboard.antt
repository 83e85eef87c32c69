-- ===== src/Device/Keyboard.antt =====
-- device/keyboard.c: the interrupt handler as a function of the modifier state and the scan code.
-- What it sends to `ioQueuePutChar` is the second result. A scan code is what `inb` reads, a byte.
pub mod Extended
pub mod CapsLock
pub mod Letters
pub mod Deliver
mod Tests
use gogoos.Common.{
  ℕ, ◌+◌, ◌-◌, ◌%◌, ◌<◌, Bool, true, false, ◌&&◌, ◌||◌, not, Option, none, some, List, [], ◌∷◌, ltb,
  leb, ◌==◌, if◌then◌else◌, ◌>>=◌, get_elem?, bit_or, bit_and,
}
use gogoos.Structure.IoQueue.{IoQueue, Pass, done, put_char}

abbrev pub ctrl_l_make : ℕ
ctrl_l_make = 0x1d

abbrev pub ctrl_r_make : ℕ
ctrl_r_make = 0xe01d

abbrev pub shift_l_make : ℕ
shift_l_make = 0x2a

abbrev pub shift_r_make : ℕ
shift_r_make = 0x36

abbrev pub alt_l_make : ℕ
alt_l_make = 0x38

abbrev pub alt_r_make : ℕ
alt_r_make = 0xe038

abbrev pub caps_lock_make : ℕ
caps_lock_make = 0x3a

abbrev pub ctrl_l_break : ℕ
ctrl_l_break = 0x9d

abbrev pub ctrl_r_break : ℕ
ctrl_r_break = 0xe09d

abbrev pub shift_l_break : ℕ
shift_l_break = 0xaa

abbrev pub shift_r_break : ℕ
shift_r_break = 0xb6

abbrev pub alt_l_break : ℕ
alt_l_break = 0xb8

abbrev pub alt_r_break : ℕ
alt_r_break = 0xe0b8

abbrev pub caps_lock_break : ℕ
caps_lock_break = 0xba

-- `keymap`: each key without and with shift
abbrev pub keymap : List (ℕ × ℕ)
keymap =
    (0, 0)
    ∷ (27, 27)
    ∷ (49, 33)
    ∷ (50, 64)
    ∷ (51, 35)
    ∷ (52, 36)
    ∷ (53, 37)
    ∷ (54, 94)
    ∷ (55, 38)
    ∷ (56, 42)
    ∷ (57, 40)
    ∷ (48, 41)
    ∷ (45, 95)
    ∷ (61, 43)
    ∷ (8, 8)
    ∷ (9, 9)
    ∷ (113, 81)
    ∷ (119, 87)
    ∷ (101, 69)
    ∷ (114, 82)
    ∷ (116, 84)
    ∷ (121, 89)
    ∷ (117, 85)
    ∷ (105, 73)
    ∷ (111, 79)
    ∷ (112, 80)
    ∷ (91, 123)
    ∷ (93, 125)
    ∷ (13, 13)
    ∷ (0, 0)
    ∷ (97, 65)
    ∷ (115, 83)
    ∷ (100, 68)
    ∷ (102, 70)
    ∷ (103, 71)
    ∷ (104, 72)
    ∷ (106, 74)
    ∷ (107, 75)
    ∷ (108, 76)
    ∷ (59, 58)
    ∷ (39, 34)
    ∷ (96, 126)
    ∷ (0, 0)
    ∷ (92, 124)
    ∷ (122, 90)
    ∷ (120, 88)
    ∷ (99, 67)
    ∷ (118, 86)
    ∷ (98, 66)
    ∷ (110, 78)
    ∷ (109, 77)
    ∷ (44, 60)
    ∷ (46, 62)
    ∷ (47, 63)
    ∷ (0, 0)
    ∷ (42, 42)
    ∷ (0, 0)
    ∷ (32, 32)
    ∷ (0, 0)
    ∷ []

pub record Modifiers : Type 0 where
  pub ctrl_status : Bool
  pub shift_status : Bool
  pub alt_status : Bool
  pub caps_lock_status : Bool
  pub ext_scan_code : Bool

-- `scanCode & 0x0080`
abbrev pub is_break_code : ℕ → Bool
is_break_code scan_code = not (bit_and scan_code 0x80 == 0)

-- the keys that caps lock leaves alone
pub ignores_caps_lock : ℕ → Bool
ignores_caps_lock c =
    ltb c 0x0e
    || c == 0x29
    || c == 0x1a
    || c == 0x1b
    || c == 0x2b
    || c == 0x27
    || c == 0x28
    || c == 0x33
    || c == 0x34
    || c == 0x35

pub shifted : Modifiers → ℕ → Bool
unfolding ignores_caps_lock
shifted k scan_code =
    if k.caps_lock_status && not (ignores_caps_lock scan_code)
    then not k.shift_status
    else k.shift_status

-- with ctrl, 'l' and 'u' become control characters
pub control_char : Bool → ℕ → ℕ
control_char ctrl c =
    if ctrl
    then (let c' = if c == b'l' || c == b'L' then b'l' - b'a' else c in
        if c' == b'u' || c' == b'U' then b'u' - b'a' else c')
    else c

-- the `default` case: the character of a key; `none` is an index behind the table
pub key_char : Modifiers → ℕ → Option ℕ
unfolding shifted control_char
key_char k scan_code = do
  row ← get_elem? keymap (scan_code % 256)
  some (control_char k.ctrl_status (if shifted k scan_code then row.1 else row.0))

-- `if (c) ioQueuePutChar(&keyboardBuf, c)`
pub typed : Modifiers → ℕ → Option (Modifiers × Option ℕ)
unfolding key_char
typed k scan_code = do c ← key_char k scan_code; some (k, if c == 0 then none else some c)

pub break_code : Modifiers → ℕ → Modifiers
break_code k c =
    if c == ctrl_l_break || c == ctrl_r_break
    then record k { ctrl_status = false }
    else if c == shift_l_break || c == shift_r_break
    then record k { shift_status = false }
    else if c == alt_l_break || c == alt_r_break
    then record k { alt_status = false }
    else k

pub make_code : Modifiers → ℕ → Option (Modifiers × Option ℕ)
unfolding typed
make_code k c =
    if c == shift_l_make || c == shift_r_make
    then some (record k { shift_status = true }, none)
    else if c == ctrl_l_make || c == ctrl_r_make
    then some (record k { ctrl_status = true }, none)
    else if c == alt_l_make || c == alt_r_make
    then some (record k { alt_status = true }, none)
    else if c == caps_lock_make
    then some ((if not k.caps_lock_status then record k { caps_lock_status = true } else k), none)
    else if c == caps_lock_break
    then some ((if k.caps_lock_status then record k { caps_lock_status = false } else k), none)
    else typed k c

-- from `bool isBreakCode` on
pub full_code : Modifiers → ℕ → Option (Modifiers × Option ℕ)
unfolding break_code make_code
full_code k c =
    if is_break_code c
    then some (break_code k c, none)
    else if (ltb 0 c && leb c 0x3a) || c == ctrl_r_make || c == alt_r_make
    then make_code k c
    else some (k, none)

-- `intrKeyBoardHandler`
pub intr_key_board_handler : Modifiers → ℕ → Option (Modifiers × Option ℕ)
unfolding full_code
intr_key_board_handler k scan_code =
    if scan_code == 0xe0
    then some (record k { ext_scan_code = true }, none)
    else if k.ext_scan_code
    then full_code (record k { ext_scan_code = false }) (bit_or 0xe800 scan_code)
    else full_code k scan_code

-- The handler with the queue: `waits` is a handler that waits for room, in the interrupt.
pub key_interrupt : Modifiers → IoQueue → ℕ → Option (Modifiers × Pass IoQueue)
unfolding intr_key_board_handler
key_interrupt k q scan_code = do
  (k', c) ← intr_key_board_handler k scan_code
  elim c [ none ↦ some (k', done q) | some char ↦ (do p ← put_char q char; some (k', p)) ]
