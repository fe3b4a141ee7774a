-- ===== src/Dlist/Tests.antt =====
-- A list in a small memory, and each theorem there.
use chunxiao_code.Prelude.{
  ℕ, ◌+◌, ◌≡◌, refl, List, [], ◌∷◌, ◌++◌, Option, some, true, false, ◌==◌, ◌||◌, length,
}
use chunxiao_code.Prelude.Fault.{◌>>=◌}
use chunxiao_code.Prelude.Members.{member}
use chunxiao_code.Dlist.{
  Heap, State, list_create, list_add, list_add_between, list_add_tail, list_length, length_from,
  list_destroy,
}
use chunxiao_code.Dlist.Chain.{Holds}
use chunxiao_code.Dlist.Adding.{Adds, bracketed, Elsewhere, ends-Adds}
use chunxiao_code.Dlist.Destroying.{walks-Free, farewell}

abbrev one_cell : List (ℕ × ℕ)
one_cell = (20, 7) ∷ []

-- The head at 10, one node at 20.
abbrev small : State
small = record {
  heap = record {
    live = λ a. (a == 10) || (a == 20);
    next = λ a. elim (a == 10) [ true ↦ 20 | false ↦ 10 ];
    prev = λ a. elim (a == 10) [ true ↦ 20 | false ↦ 10 ];
    item = λ a. 7;
  };
  locker = true;
  destroys = true;
  events = [];
}

small-Holds : Holds (small.heap) 10 ((20, 7) ∷ [])
small-Holds = record {
  null_free = refl;
  head_live = refl;
  ring = (refl, refl, refl, refl, (refl, refl));
  distinct = (refl, (refl, tt));
}

ends-Adds_example :
    Adds (list_add 30 10 8 small) small 10 30 8 ((30, 8) ∷ (20, 7) ∷ [])
    × Adds (list_add_tail 30 10 8 small) small 10 30 8 ((20, 7) ∷ (30, 8) ∷ [])
ends-Adds_example = ends-Adds small 10 30 8 ((20, 7) ∷ []) small-Holds refl refl

walks-Free_example :
    (list_length (length one_cell + 1) 10 small
      ≡ some (1, bracketed small (small.heap) (small.heap)))
    × ((s' : State) × (list_destroy (length one_cell + 1) 10 small ≡ some s')
        × (s'.events ≡ small.events ++ farewell small 10 one_cell)
        × ((a : ℕ) → member (10 ∷ 20 ∷ []) a ≡ true → s'.heap.live a ≡ false)
        × Elsewhere (small.heap) (s'.heap) (10 ∷ 20 ∷ []))
walks-Free_example = walks-Free 0 small 10 one_cell small-Holds

-- Two items added to a new list, one at each end, and a third: its length.
three : Heap → Option ℕ
three h = do
  (list, s) ← list_create 10 true true h
  (_, s₁) ← list_add 20 list 1 s
  (_, s₂) ← list_add_tail 30 list 2 s₁
  (_, s₃) ← list_add 40 list 3 s₂
  (n, _) ← list_length 9 list s₃
  some n

abbrev empty : Heap
empty = record { live = λ a. false; next = λ a. 0; prev = λ a. 0; item = λ a. 0 }

three_items : three empty ≡ some 3
unfolding three list_create list_add list_add_between list_add_tail list_length length_from
three_items = refl
