-- ===== src/Structure/LinkedList/Tests.antt =====
-- Runs of the list, and the theorems at a list of two elements.
use gogoos.Common.{◌≡◌, true, some, [], ◌∷◌, arith, ◌==◌, if◌then◌else◌}
use gogoos.Structure.LinkedList.{Memory, Ends, list_append, list_remove}
use gogoos.Structure.LinkedList.Chain.{IsList}
use gogoos.Structure.LinkedList.Insert.{list_append-IsList}
use gogoos.Structure.LinkedList.Remove.{list_remove-IsList}

abbrev ends : Ends
ends = record { head = 1; tail = 2 }

-- head 1, elements 10 and 20, tail 2
abbrev two : Memory
two = record {
  next = λ p. if p == 1 then 10 else if p == 10 then 20 else if p == 20 then 2 else 0;
  prev = λ p. if p == 2 then 20 else if p == 20 then 10 else if p == 10 then 1 else 0;
  intr_on = true;
}

two-IsList : IsList two ends (10 ∷ 20 ∷ [])
two-IsList = ground arith

append_example :
    (m : Memory) × (list_append ends 30 two ≡ some (tt, m))
    × IsList m ends (10 ∷ 20 ∷ 30 ∷ [])
    × (m.intr_on ≡ true)
append_example = list_append-IsList two ends (10 ∷ 20 ∷ []) 30 two-IsList (omega arith)

remove_example :
    (m : Memory) × (list_remove 20 two ≡ some (tt, m))
    × IsList m ends (10 ∷ [])
    × (m.intr_on ≡ true)
remove_example = list_remove-IsList two ends (10 ∷ []) [] 20 two-IsList
