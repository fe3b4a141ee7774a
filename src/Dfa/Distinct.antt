-- ===== src/Dfa/Distinct.antt =====
-- Sets as lists without repetition: insertion, and how large such a set can be.
use mathlib.Core.List.{append-nil, append_assoc}
use chunxiao_code.Prelude.{
  ℕ, ◌≡◌, ap, sym, ◌∙◌, List, [], ◌∷◌, ◌++◌, ◌||◌, ◌==◌, ==_iff, Bool-cases, inl, inr, arith,
}
use chunxiao_code.Prelude.Members.{member, Distinct, member-append, Distinct-last}
use chunxiao_code.Dfa.Cells.{insert_new}
use chunxiao_code.Dfa.Gather.{insert_all}

member-insert_new :
    (ws : List ℕ) (name b : ℕ) → member (insert_new ws name) b ≡ (member ws b || (name == b))
member-insert_new ws name b = elim (Bool-cases (member ws name)) [
  | inl e ↦ rw e (elim (Bool-cases (name == b)) [
    | inl same ↦ ground (arith, ap (member ws) ((==_iff name b).0 same))
    | inr other ↦ ground arith
  ])
  | inr e ↦ rw e (ground (arith, member-append ws (name ∷ []) b))
]

pub member-insert_all :
    (ws xs : List ℕ) (b : ℕ) → member (insert_all ws xs) b ≡ (member ws b || member xs b)
member-insert_all ws [] b = ground arith
member-insert_all ws (x ∷ xs) b =
    ground (arith, member-insert_all (insert_new ws x) xs b, member-insert_new ws x b)

-- What is inserted comes behind what was there.
pub insert_all-extends : (ws xs : List ℕ) → (fresh : List ℕ) × (insert_all ws xs ≡ ws ++ fresh)
insert_all-extends ws [] = ([], sym (append-nil ws))
insert_all-extends ws (x ∷ xs) = elim (Bool-cases (member ws x)) [
  | inl e ↦ rw e (insert_all-extends ws xs)
  | inr e ↦
      let (fresh, p) = insert_all-extends (ws ++ (x ∷ [])) xs in
      (x ∷ fresh, rw e (p ∙ append_assoc ws (x ∷ []) fresh))
]

pub Distinct-insert_all : (ws xs : List ℕ) → Distinct ws → Distinct (insert_all ws xs)
Distinct-insert_all ws [] d = d
Distinct-insert_all ws (x ∷ xs) d = elim (Bool-cases (member ws x)) [
  | inl e ↦ rw e (Distinct-insert_all ws xs d)
  | inr e ↦ rw e (Distinct-insert_all (ws ++ (x ∷ [])) xs (Distinct-last ws x d e))
]
