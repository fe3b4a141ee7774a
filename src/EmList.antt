-- ===== src/EmList.antt =====
-- c-study/dllist/list_05/signal.c: a list that is turned round in place. An address is a number, NULL is
-- 0; an access to memory that is not allocated is a fault, `none`, and so is a loop out of fuel.
pub mod Reversed
mod Tests
use chunxiao_code.Prelude.{
  ℕ, zero, suc, List, [], ◌∷◌, Option, none, some, Bool, true, false, ◌==◌, if◌then◌else◌,
}
use chunxiao_code.Prelude.Fault.{◌>>=◌}

-- `em_list_t`, a function for each field.
pub record Heap : Type 0 where
  pub live : ℕ → Bool
  pub next : ℕ → ℕ
  pub v : ℕ → ℕ

-- `em_list_print`: the values that it prints.
unfoldable pub em_list_print : ℕ → Heap → ℕ → Option (List ℕ)
em_list_print zero h head = none
em_list_print (suc f) h head = elim (head == 0) [
  | true ↦ some []
  | false ↦
      if h.live head then (em_list_print f h (h.next head) >>= λ vs. some (h.v head ∷ vs)) else none
]

-- `old->next = new`
abbrev pub set_next : ℕ → ℕ → Heap → Heap
set_next a b h = record h { next = λ c. if c == a then b else h.next c }

-- The loop of `list_reverse`: the memory, and `new` at its end.
unfoldable pub reverse_loop : ℕ → Heap → ℕ → ℕ → Option (Heap × ℕ)
reverse_loop zero h new old = none
reverse_loop (suc f) h new old = elim (old == 0) [
  | true ↦ some (h, new)
  | false ↦ if h.live old then reverse_loop f (set_next old new h) old (h.next old) else none
]

-- `list_reverse`: the memory, and what it stores in `*newl`.
unfoldable pub list_reverse : ℕ → Heap → ℕ → Option (Heap × ℕ)
unfolding reverse_loop
list_reverse fuel h head = reverse_loop fuel h 0 head
