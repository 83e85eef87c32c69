-- ===== src/Structure/IoQueue/Tests.antt =====
-- Runs of the ring, and the theorems at a ring that has gone round its end.
use gogoos.Common.{ℕ, ◌≡◌, refl, true, false, some, [], ◌∷◌, arith}
use gogoos.Structure.IoQueue.{IoQueue, Pass, waits, put_char, get_char}
use gogoos.Structure.IoQueue.Refine.{IsValid, contents, Put, Got, put_char-Put, get_char-Got}

-- 8 and 9 wait, at the last slot and the first
abbrev round : IoQueue
round = record {
  buf = 9 ∷ 0 ∷ 0 ∷ 0 ∷ 0 ∷ 0 ∷ 0 ∷ 0 ∷ 0 ∷ 8 ∷ [];
  head = 1;
  tail = 9;
  is_full = false;
  is_empty = false;
}

abbrev full : IoQueue
full = record round { head = 9; is_full = true }

round-IsValid : IsValid round
round-IsValid = ground arith

contents-round : contents round ≡ 8 ∷ 9 ∷ []
contents-round = refl

full_waits : put_char full 5 ≡ some waits
unfolding put_char
full_waits = refl

put_char-Put_example : (p : Pass IoQueue) × (put_char round 5 ≡ some p) × Put round 5 p
put_char-Put_example = put_char-Put round round-IsValid 5

get_char-Got_example : (p : Pass (ℕ × IoQueue)) × (get_char round ≡ some p) × Got round p
get_char-Got_example = get_char-Got round round-IsValid
