-- ===== src/Ring/Together.antt =====
-- What holds of the queue of ring1.c while calls of `QuePush` run by turns.
use mathlib.Core.Path.{subst}
use chunxiao_code.Prelude.{
  ℕ, ◌≡◌, ◌≢◌, sym, List, [], ◌∷◌, ◌++◌, map, Option, none, some, Bool, Bool-cases, inl, inr, true,
  false, ◌==◌, ==_iff, arith,
}
use chunxiao_code.Prelude.Members.{member, Distinct}
use chunxiao_code.Ring.{Store, Pc, push_swing}
use chunxiao_code.Ring.Chain.{Linked, addresses, items, end_of}
use chunxiao_code.Ring.Pushes.{Calls, put, View, starting, holding, trying, joined, outside, view}

pub put-all :
    (P : ℕ → Pc → Type 0) (pc : ℕ → Pc) (t : ℕ) (p : Pc)
    → P t p
    → ((u : ℕ) → (u == t) ≡ false → P u (pc u))
    → (u : ℕ) → P u (put pc t p u)
put-all P pc t p mine others u = elim (Bool-cases (u == t)) [
  | inl e ↦ subst (λ v. P v (put pc t p v)) (sym ((==_iff u t).0 e)) (rw (==-refl t) mine)
  | inr ne ↦ rw ne (others u ne)
]
  where
    ==-refl : (t : ℕ) → (t == t) ≡ true
    ==-refl t = ground arith

-- The new node of a call that is not linked yet.
abbrev pub node_held : View → Option ℕ
node_held (holding temp) = some temp
node_held (trying temp p) = some temp
node_held p = none

abbrev pub new_node : Pc → Option ℕ
new_node p = node_held (view p)

-- A new node has the item and stands outside the queue.
pub record Apart (s : Store) (cells : List (ℕ × ℕ)) (d temp : ℕ) : Type 0 where
  pub stands : s.node temp ≡ some (record { next = none; item = d })
  pub outside : member (s.front ∷ addresses cells) temp ≡ false

-- A place that the end of the queue had: if it is the last node, then `rear` is there.
pub record Seen (s : Store) (cells : List (ℕ × ℕ)) (p : ℕ) : Type 0 where
  pub inside : member (s.front ∷ addresses cells) p ≡ true
  pub current : p ≡ end_of (s.front) cells → s.rear ≡ p

-- What call u may say, which pushes d, when the calls in the log have linked their nodes.
abbrev pub Says : Store → List (ℕ × ℕ) → List ℕ → ℕ → ℕ → View → Type 0
Says s cells log d u (starting d') = (d' ≡ d) × (member log u ≡ false)
Says s cells log d u (holding temp) = Apart s cells d temp × (member log u ≡ false)
Says s cells log d u (trying temp p) =
    Apart s cells d temp × Seen s cells p × (member log u ≡ false)
Says s cells log d u joined = member log u ≡ true
Says s cells log d u outside = ◌≡◌ {A = Bool} true false

-- Where `rear` is: at the last node, or one node before it, while the call that linked the last node has
-- still to move it.
pub data Rear (rear front : ℕ) (cells : List (ℕ × ℕ)) (pc : ℕ → Pc) : Type 0 where
  settled :
      rear ≡ end_of front cells
      → ((t temp p : ℕ) → pc t ≢ push_swing temp p)
      → Rear rear front cells pc
  behind :
      (t temp d : ℕ) (start : List (ℕ × ℕ))
      → pc t ≡ push_swing temp rear
      → cells ≡ start ++ ((temp, d) ∷ [])
      → rear ≡ end_of front start
      → ((u temp' p : ℕ) → pc u ≡ push_swing temp' p → u ≡ t)
      → Rear rear front cells pc

pub record Together (old : List (ℕ × ℕ)) (item : ℕ → ℕ) (w : Calls) : Type 0 where
  pub junk : ℕ
  pub cells : List (ℕ × ℕ)
  pub log : List ℕ
  pub linked : Linked (w.store.node) (w.store.front) junk cells
  pub distinct : Distinct (w.store.front ∷ addresses cells)
  pub items_are : items cells ≡ items old ++ map item log
  pub once : Distinct log
  pub rear : Rear (w.store.rear) (w.store.front) cells (w.pc)
  pub says : (u : ℕ) → Says (w.store) cells log (item u) u (view (w.pc u))
  pub own : (u v a : ℕ) → new_node (w.pc u) ≡ some a → new_node (w.pc v) ≡ some a → u ≡ v
