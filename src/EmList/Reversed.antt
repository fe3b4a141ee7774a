-- ===== src/EmList/Reversed.antt =====
-- What signal.c makes of a list.
use mathlib.Core.Path.{subst}
use mathlib.Core.List.{reverse, reverse_aux}
use chunxiao_code.Prelude.{
  ℕ, suc, ◌+◌, ◌≡◌, refl, ap, sym, ◌∙◌, List, [], ◌∷◌, map, Option, some, true, false, ◌==◌, arith,
  length,
}
use chunxiao_code.Prelude.Members.{member, Distinct}
use chunxiao_code.EmList.{Heap, em_list_print, set_next, reverse_loop, list_reverse}

-- From `a` the links lead through these nodes to the end.
abbrev pub Linked : Heap → ℕ → List ℕ → Type 0
Linked h a [] = a ≡ 0
Linked h a (b ∷ bs) = (a ≡ b) × ((b == 0) ≡ false) × (h.live b ≡ true) × Linked h (h.next b) bs

Linked-set_next :
    (h : Heap) (a b c : ℕ) (bs : List ℕ)
    → member bs a ≡ false
    → Linked h c bs
    → Linked (set_next a b h) c bs
Linked-set_next h a b c [] out l = l
Linked-set_next h a b c (d ∷ bs) out (e, n, live, l) =
    let other : (d == a) ≡ false = ground arith in
    let rest = Linked-set_next h a b (h.next d) bs (ground arith) l in (e, n, live, rw other rest)

reverse_loop-next :
    (f : ℕ) (h : Heap) (new old : ℕ)
    → (old == 0) ≡ false
    → h.live old ≡ true
    → reverse_loop (suc f) h new old ≡ reverse_loop f (set_next old new h) old (h.next old)
unfolding reverse_loop
reverse_loop-next f h new old n live = ground arith

-- The memory and the list that a run leaves: these nodes, the values as before, and other nodes too.
abbrev pub Turned : Heap → Option (Heap × ℕ) → List ℕ → List ℕ → Type 0
Turned h result old_nodes nodes =
    (after : Heap × ℕ) × (result ≡ some after)
    × Linked (after.0) (after.1) nodes
    × (after.0.v ≡ h.v)
    × ((a : ℕ) → member old_nodes a ≡ false → after.0.next a ≡ h.next a)

reverse_loop-Turned :
    (f : ℕ) (h : Heap) (new old : ℕ) (bs behind : List ℕ)
    → Linked h old bs
    → Linked h new behind
    → Distinct bs
    → ((a : ℕ) → member bs a ≡ true → member behind a ≡ false)
    → Turned h (reverse_loop (length bs + suc f) h new old) bs (reverse_aux bs behind)
unfolding reverse_loop
reverse_loop-Turned f h new old [] behind e l d apart =
    let fuel : 0 + suc f ≡ suc f = omega arith in
    ((h, new), ap (λ k. reverse_loop k h new old) fuel ∙ rw e refl, l, refl, λ a out. refl)
reverse_loop-Turned f h new old (b ∷ bs) behind (e, n, live, l) l' (out, d) apart =
    let fuel : suc (length bs) + suc f ≡ suc (length bs + suc f) = omega arith in
    let h₁ = set_next b new h in
    let b_out : member behind b ≡ false = apart b (ground arith) in
    let there : h₁.next b ≡ new = ground arith in
    let (after, result, linked, values, others) =
      reverse_loop-Turned f h₁ b (h.next b) bs (b ∷ behind)
        (Linked-set_next h b new (h.next b) bs out l)
        (
          refl,
          n,
          live,
          subst (λ k. Linked h₁ k behind) (sym there) (Linked-set_next h b new new behind b_out l'),
        )
        d (λ a at. ground (arith, apart a)) in
    (
      after,
      ap (λ k. reverse_loop k h new old) fuel
          ∙ ap (reverse_loop (suc (length bs + suc f)) h new) e
          ∙ reverse_loop-next (length bs + suc f) h new b n live
          ∙ result,
      linked,
      values,
      λ a out'. others a (ground arith) ∙ ground arith,
    )

em_list_print-Linked :
    (f : ℕ) (h : Heap) (a : ℕ) (bs : List ℕ)
    → Linked h a bs
    → em_list_print (length bs + suc f) h a ≡ some (map (h.v) bs)
unfolding em_list_print
em_list_print-Linked f h a [] e =
    let fuel : 0 + suc f ≡ suc f = omega arith in ap (λ k. em_list_print k h a) fuel ∙ rw e refl
em_list_print-Linked f h a (b ∷ bs) (e, n, live, l) =
    let fuel : suc (length bs) + suc f ≡ suc (length bs + suc f) = omega arith in
    let rest = em_list_print-Linked f h (h.next b) bs l in
    ap (λ k. em_list_print k h a) fuel
    ∙ ap (em_list_print (suc (length bs + suc f)) h) e
    ∙ ground (arith, rest)

length-reverse_aux : (xs ys : List ℕ) → length (reverse_aux xs ys) ≡ length xs + length ys
length-reverse_aux [] ys = omega arith
length-reverse_aux (x ∷ xs) ys = omega (arith, length-reverse_aux xs (x ∷ ys))

map-reverse_aux :
    (g : ℕ → ℕ) (xs ys : List ℕ) → map g (reverse_aux xs ys) ≡ reverse_aux (map g xs) (map g ys)
map-reverse_aux g [] ys = refl
map-reverse_aux g (x ∷ xs) ys = map-reverse_aux g xs (x ∷ ys)

prints_back :
    (f : ℕ) (h h' : Heap) (new : ℕ) (nodes : List ℕ)
    → Linked h' new (reverse nodes)
    → h'.v ≡ h.v
    → em_list_print (length nodes + suc f) h' new ≡ some (reverse (map (h.v) nodes))
prints_back f h h' new nodes l values =
    let size : length nodes ≡ length (reverse nodes) = omega (arith, length-reverse_aux nodes []) in
    ap (λ k. em_list_print (k + suc f) h' new) size
    ∙ em_list_print-Linked f h' new (reverse nodes) l
    ∙ ap (λ g. some (map g (reverse nodes))) values
    ∙ ap some (map-reverse_aux (h.v) nodes [])

-- Fuel for one round more than there are nodes: `list_reverse` ends, the nodes are linked the other way
-- round from what it stores in `*newl`, no other link is changed, and em_list_print prints the values that
-- it printed before, backwards.
pub list_reverse-reverse :
    (f : ℕ) (h : Heap) (head : ℕ) (nodes : List ℕ)
    → Linked h head nodes
    → Distinct nodes
    → (after : Heap × ℕ) × (list_reverse (length nodes + suc f) h head ≡ some after)
      × Linked (after.0) (after.1) (reverse nodes)
      × ((a : ℕ) → member nodes a ≡ false → after.0.next a ≡ h.next a)
      × (em_list_print (length nodes + suc f) h head ≡ some (map (h.v) nodes))
      × (em_list_print (length nodes + suc f) (after.0) (after.1)
          ≡ some (reverse (map (h.v) nodes)))
unfolding list_reverse
list_reverse-reverse f h head nodes l d =
    let (after, result, linked, values, others) =
      reverse_loop-Turned f h 0 head nodes [] l refl d (λ a at. refl) in
    (
      after,
      result,
      linked,
      others,
      em_list_print-Linked f h head nodes l,
      prints_back f h (after.0) (after.1) nodes linked values,
    )
