-- ===== src/EmList/Tests.antt =====
-- Three nodes.
use mathlib.Core.List.{reverse}
use chunxiao_code.Prelude.{
  ℕ, ◌+◌, ◌≡◌, refl, List, [], ◌∷◌, map, some, true, false, ◌==◌, ◌||◌, length,
}
use chunxiao_code.Prelude.Members.{member}
use chunxiao_code.EmList.{Heap, em_list_print, list_reverse}
use chunxiao_code.EmList.Reversed.{Linked, list_reverse-reverse}

abbrev three : Heap
three = record {
  live = λ a. (a == 1) || (a == 2) || (a == 3);
  next = λ a. elim (a == 3) [ true ↦ 0 | false ↦ a + 1 ];
  v = λ a. a + 4;
}

abbrev nodes : List ℕ
nodes = 1 ∷ 2 ∷ 3 ∷ []

list_reverse-reverse_example :
    (after : Heap × ℕ) × (list_reverse (length nodes + 1) three 1 ≡ some after)
    × Linked (after.0) (after.1) (reverse nodes)
    × ((a : ℕ) → member nodes a ≡ false → after.0.next a ≡ three.next a)
    × (em_list_print (length nodes + 1) three 1 ≡ some (map (three.v) nodes))
    × (em_list_print (length nodes + 1) (after.0) (after.1) ≡ some (reverse (map (three.v) nodes)))
list_reverse-reverse_example =
    list_reverse-reverse 0 three 1 nodes
      (refl, refl, refl, (refl, refl, refl, (refl, refl, refl, refl))) (refl, (refl, (refl, tt)))
