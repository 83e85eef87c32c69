-- ===== src/Device/Keyboard/Tests.antt =====
-- Runs of the keyboard driver, and the theorems at concrete states.
use gogoos.Common.{ℕ, ◌≡◌, refl, true, false, some, List, [], ◌∷◌, arith}
use gogoos.Structure.IoQueue.{IoQueue, Pass}
use gogoos.Structure.IoQueue.Refine.{IsValid, Put}
use gogoos.Device.Keyboard.{Modifiers, intr_key_board_handler, key_interrupt}
use gogoos.Device.Keyboard.CapsLock.{after, caps_lock_stays}
use gogoos.Device.Keyboard.Letters.{plain, letter_or_capital, sent}
use gogoos.Device.Keyboard.Deliver.{key_interrupt-Put}

abbrev extended : Modifiers
extended = record (plain false false false) { ext_scan_code = true }

abbrev empty_queue : IoQueue
empty_queue = record {
  buf = 0 ∷ 0 ∷ 0 ∷ 0 ∷ 0 ∷ 0 ∷ 0 ∷ 0 ∷ 0 ∷ 0 ∷ [];
  head = 0;
  tail = 0;
  is_full = false;
  is_empty = true;
}

empty_queue-IsValid : IsValid empty_queue
empty_queue-IsValid = ground arith

-- shift makes the key of '1' type '!'
shift_one : sent (intr_key_board_handler (plain true false false) 0x02) ≡ some b'!'
unfolding intr_key_board_handler
shift_one = refl

abbrev presses : List ℕ
presses = 0xba ∷ 0x3a ∷ 0xba ∷ []

after-presses : after (plain false false true) presses ≡ some (plain false false true)
unfolding after intr_key_board_handler
after-presses = refl

-- the key of caps lock is let go, pressed and let go
caps_lock_stays_example : (plain false false true).caps_lock_status ≡ true
caps_lock_stays_example =
    caps_lock_stays presses (plain false false true) (plain false false true) refl after-presses

-- the key of 'q' with shift
key_interrupt-Put_example :
    (k : Modifiers) × (p : Pass IoQueue) × (key_interrupt (plain true false false) empty_queue 0x10
      ≡ some (k, p))
    × Put empty_queue b'Q' p
unfolding letter_or_capital
key_interrupt-Put_example =
    key_interrupt-Put true false false empty_queue 0x10 b'q' b'Q' empty_queue-IsValid refl
      (omega arith) (omega arith)
