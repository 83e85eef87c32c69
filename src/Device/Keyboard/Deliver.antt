-- ===== src/Device/Keyboard/Deliver.antt =====
-- The handler and the queue together.
use gogoos.Common.{ℕ, ◌≤◌, ◌≡◌, refl, ap, Bool, Option, none, some, get_elem?}
use gogoos.Structure.IoQueue.{IoQueue, Pass}
use gogoos.Structure.IoQueue.Refine.{IsValid, Put, put_char-Put}
use gogoos.Device.Keyboard.{Modifiers, keymap, intr_key_board_handler, key_interrupt}
use gogoos.Device.Keyboard.Letters.{plain, letter_or_capital, sent, letter_key}

-- What is sent, with the modifiers behind it.
sent_run :
    (r : Option (Modifiers × Option ℕ)) (c : ℕ)
    → sent r ≡ some c
    → (k : Modifiers) × (r ≡ some (k, some c))
sent_run none c h = cc
sent_run (some (k, o)) c h = (k, ap (λ t. some (k, t)) h)

-- With a valid queue, and neither ctrl nor a pending 0xe0, the interrupt of the key of a letter appends the letter to
-- the characters of the queue, as a capital exactly when one of shift and caps lock is on and the other is off; or
-- the handler waits, because ten characters are in the queue.
pub key_interrupt-Put :
    (shift alt caps : Bool) (q : IoQueue) (code l u : ℕ)
    → IsValid q
    → get_elem? keymap code ≡ some (l, u)
    → b'a' ≤ l
    → l ≤ b'z'
    → (k : Modifiers) × (p : Pass IoQueue) × (key_interrupt (plain shift alt caps) q code
        ≡ some (k, p))
      × Put q (letter_or_capital shift caps l) p
unfolding key_interrupt
key_interrupt-Put shift alt caps q code l u v row lo hi =
    let c = letter_or_capital shift caps l in
    let (k, typed) =
      sent_run (intr_key_board_handler (plain shift alt caps) code) c
        (letter_key shift alt caps code l u row lo hi) in
    let (p, run, put) = put_char-Put q v c in (k, p, rw (typed, run) refl, put)
