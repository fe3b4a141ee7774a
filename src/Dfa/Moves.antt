-- ===== src/Dfa/Moves.antt =====
-- nfa2dfa.c: sets of states as arrays of `MAX` characters that end with zeros, and the moves between
-- them. An access outside an array is a fault, `none`.
use chunxiao_code.Prelude.{
  ℕ, zero, suc, ◌+◌, List, [], ◌∷◌, Option, none, some, true, false, ◌==◌, ltb, if◌then◌else◌,
  length, get_elem?, set,
}
use chunxiao_code.Prelude.Fault.{◌>>=◌}
use chunxiao_code.Dfa.{bubble_sort}
use chunxiao_code.Dfa.Graph.{Edge, Vertex}

-- `CheckChar` on an array of `NumMaxChar` cells: 0 if the character is in it.
unfoldable pub check_char : List ℕ → ℕ → ℕ
check_char [] ti = 1
check_char (x ∷ t) ti = elim (x == ti) [ true ↦ 0 | false ↦ check_char t ti ]

-- `while (t[k] != '\0') k++;`
unfoldable pub first_free : List ℕ → Option ℕ
first_free [] = none
first_free (x ∷ t) = elim (x == 0) [ true ↦ some 0 | false ↦ first_free t >>= λ k. some (k + 1) ]

-- A set with its `k`: `if (check == 1) { t[k] = data; k++; }`
unfoldable pub add_state : List ℕ × ℕ → ℕ → Option (List ℕ × ℕ)
unfolding check_char
add_state (t, k) name =
    if check_char t name == 1
    then (if ltb k (length t) then some (set t k name, k + 1) else none)
    else some (t, k)

-- The loop over the edges of a vertex. `Smove` compares with `transword`, `E_Closure` with '*'.
unfoldable pub follow_edges : List Vertex → ℕ → List Edge → List ℕ × ℕ → Option (List ℕ × ℕ)
unfolding add_state
follow_edges g word [] s = some s
follow_edges g word (p ∷ edges) s = do
  s' ← if p.cost == word then (get_elem? g (p.dest) >>= λ v. add_state s (v.state)) else some s
  follow_edges g word edges s'

-- The loop over the vertices, `j < g->NumVertex`, on those that are left.
unfoldable pub visit : List Vertex → ℕ → ℕ → List Vertex → List ℕ × ℕ → Option (List ℕ × ℕ)
unfolding follow_edges
visit g word name [] s = some s
visit g word name (v ∷ vs) s = do
  s' ← if v.state == name then follow_edges g word (v.adj) s else some s
  visit g word name vs s'

-- The outer loop of `Smove` on the cells of `t1` that are left, of which an array of the source has MAX.
unfoldable pub smove_loop : List Vertex → ℕ → List ℕ → List ℕ × ℕ → Option (List ℕ × ℕ)
unfolding visit
smove_loop g transword [] s = some s
smove_loop g transword (name ∷ t1) s =
    visit g transword name g s >>= λ s'. smove_loop g transword t1 s'

-- `Smove(g, t1, t2, transword)`, as the `t2` that it leaves.
unfoldable pub smove : List Vertex → List ℕ → List ℕ → ℕ → Option (List ℕ)
unfolding first_free smove_loop
smove g t1 t2 transword = do
  k ← first_free t2
  (t, len) ← smove_loop g transword t1 (t2, k)
  some (bubble_sort t len)

-- The outer loop of `E_Closure` from cell `i` on, with fuel.
unfoldable pub closure_loop : ℕ → List Vertex → ℕ → List ℕ × ℕ → Option (List ℕ × ℕ)
unfolding visit
closure_loop zero g i s = none
closure_loop (suc f) g i (t, k) = do
  name ← get_elem? t i
  elim (name == 0) [
    | true ↦ some (t, k)
    | false ↦ visit g b'*' name g (t, k) >>= λ s'. closure_loop f g (i + 1) s'
  ]

-- `E_Closure(g, t)`, as the `t` that it leaves. No round reads a cell behind the last, so that one
-- round more than there are cells is enough.
unfoldable pub e_closure : List Vertex → List ℕ → Option (List ℕ)
unfolding first_free closure_loop
e_closure g t = do
  k ← first_free t
  (t', len) ← closure_loop (suc (length t)) g 0 (t, k)
  some (bubble_sort t' len)
