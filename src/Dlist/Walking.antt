-- ===== src/Dlist/Walking.antt =====
-- `list_length` of dlist.c.
use chunxiao_code.Prelude.{
  ℕ, suc, ◌+◌, ◌≡◌, refl, ap, ◌∙◌, List, [], ◌∷◌, some, Bool-cases, inl, inr, true, false, ◌==◌,
  arith, length,
}
use chunxiao_code.Prelude.Members.{member}
use chunxiao_code.Dlist.{Heap, State, length_from, list_length}
use chunxiao_code.Dlist.Chain.{addresses, Chain, Holds}
use chunxiao_code.Dlist.Adding.{bracketed}
use chunxiao_code.Dlist.Linking.{live_apart}

length_from-next :
    (h : Heap) (list p b n f : ℕ)
    → h.live p ≡ true
    → h.next p ≡ b
    → (b == list) ≡ false
    → length_from (suc f) h list p n ≡ length_from f h list b (n + 1)
unfolding length_from
length_from-next h list p b n f at q more = ground arith

length_from-Chain :
    (f : ℕ) (h : Heap) (list p n : ℕ) (cells : List (ℕ × ℕ))
    → h.live p ≡ true
    → member (addresses cells) list ≡ false
    → Chain h p cells list
    → length_from (length cells + suc f) h list p n ≡ some (n + length cells)
unfolding length_from
length_from-Chain f h list p n [] at out (q, _) =
    let fuel : 0 + suc f ≡ suc f = omega arith in
    let none_left : n ≡ n + 0 = omega arith in
    ap (λ k. length_from k h list p n) fuel ∙ ground (arith, none_left)
length_from-Chain f h list p n ((b, v) ∷ cells) at out (q, _, _, l, c) =
    let fuel : suc (length cells) + suc f ≡ suc (length cells + suc f) = omega arith in
    let more : (b == list) ≡ false = ground arith in
    let sum : n + 1 + length cells ≡ n + suc (length cells) = omega arith in
    ap (λ k. length_from k h list p n) fuel
    ∙ length_from-next h list p b n (length cells + suc f) at q more
    ∙ length_from-Chain f h list b (n + 1) cells l (ground arith) c
    ∙ ap some sum

-- With fuel for one round more than there are nodes.
pub list_length-length :
    (f : ℕ) (s : State) (list : ℕ) (cells : List (ℕ × ℕ))
    → Holds (s.heap) list cells
    → list_length (length cells + suc f) list s ≡ some (length cells, bracketed s (s.heap) (s.heap))
unfolding list_length
list_length-length f s list cells held =
    let there : (list == 0) ≡ false =
      live_apart (s.heap) list 0 (held.head_live) (held.null_free) in
    let count =
      length_from-Chain f (s.heap) list list 0 cells (held.head_live) (held.distinct.0)
        (held.ring) in
    let sum : 0 + length cells ≡ length cells = omega arith in
    elim (Bool-cases (s.locker)) [
      | inl e ↦ rw (there, e, count, sum) refl
      | inr e ↦ rw (there, e, count, sum) refl
    ]
