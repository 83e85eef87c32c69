-- ===== src/Device/Keyboard/CapsLock.antt =====
-- Caps lock over a sequence of scan codes.
use gogoos.Common.{
  ℕ, ◌≡◌, ◌≢◌, true, false, Option, some, List, [], ◌∷◌, arith, bit_or, ◌>>=◌, >>=-eq-some,
  Bool-cases, inl, inr,
}
use mathlib.Core.Path.{subst}
use gogoos.Device.Keyboard.{
  Modifiers, is_break_code, break_code, key_char, typed, make_code, full_code,
  intr_key_board_handler, caps_lock_break,
}

-- The modifiers after a sequence of interrupts.
unfoldable pub after : Modifiers → List ℕ → Option Modifiers
after k [] = some k
after k (c ∷ codes) = do (k', _) ← intr_key_board_handler k c; after k' codes

typed-same : (k : Modifiers) (c : ℕ) {r : Modifiers × Option ℕ} → typed k c ≡ some r → r.0 ≡ k
unfolding typed
typed-same k c h = let (a, p, q) = >>=-eq-some (key_char k c) _ h in ground arith

break-caps : (k : Modifiers) (c : ℕ) → (break_code k c).caps_lock_status ≡ k.caps_lock_status
unfolding break_code
break-caps k c = ground arith

make-caps :
    (k : Modifiers) (c : ℕ) {r : Modifiers × Option ℕ}
    → make_code k c ≡ some r
    → k.caps_lock_status ≡ true
    → c ≢ caps_lock_break
    → r.0.caps_lock_status ≡ true
unfolding make_code
make-caps k c {r} h on ne = ground (arith, typed-same k c {r = r})

full-caps :
    (k : Modifiers) (c : ℕ) {r : Modifiers × Option ℕ}
    → full_code k c ≡ some r
    → k.caps_lock_status ≡ true
    → r.0.caps_lock_status ≡ true
unfolding full_code
full-caps k c {r} h on = elim (Bool-cases (is_break_code c)) [
  | inl b ↦ ground (arith, break-caps k c)
  | inr m ↦ ground (arith, make-caps k c {r = r}, not_break c m)
]
  where
    not_break : (d : ℕ) → is_break_code d ≡ false → d ≢ caps_lock_break
    not_break d f e = let g : true ≡ false = subst (λ x. is_break_code x ≡ false) e f in cc

handler-caps :
    (k : Modifiers) (c : ℕ) {r : Modifiers × Option ℕ}
    → intr_key_board_handler k c ≡ some r
    → k.caps_lock_status ≡ true
    → r.0.caps_lock_status ≡ true
unfolding intr_key_board_handler
handler-caps k c {r} h on = ground (
  arith,
  full-caps k c {r = r},
  full-caps (record k { ext_scan_code = false }) (bit_or 0xe800 c) {r = r},
)

-- Once caps lock is on, no sequence of scan codes turns it off. (The branch that would do so
-- is for the break code of the key, and break codes do not reach it.)
pub caps_lock_stays :
    (codes : List ℕ) (k k' : Modifiers)
    → k.caps_lock_status ≡ true
    → after k codes ≡ some k'
    → k'.caps_lock_status ≡ true
unfolding after
caps_lock_stays [] k k' on h = ground arith
caps_lock_stays (c ∷ codes) k k' on h =
    let (r, p, q) = >>=-eq-some (intr_key_board_handler k c) _ h in
    caps_lock_stays codes r.0 k' (handler-caps k c {r = r} p on) q
