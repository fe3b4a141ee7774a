-- ===== src/Ring/Tests.antt =====
-- Runs of the queue, and each theorem at an input.
use chunxiao_code.Prelude.{Option, ◌≡◌, refl, [], ◌∷◌, some, none}
use chunxiao_code.Prelude.Fault.{◌>>=◌}
use chunxiao_code.Ring.{
  Pc, Store, update, que_init, push_alloc, pushed, pop_empty, popped, step, alone, interleave,
}
use chunxiao_code.Ring.Chain.{Holds}
use chunxiao_code.Ring.Alone.{node_of, push-Holds, pop-Holds}
use chunxiao_code.Ring.Race.{turns, Lost, race-pop}
use chunxiao_code.Ring.Pushes.{Calls, Reach, begin, later, order}
use chunxiao_code.Ring.Pushed.{Pushes, follow-Pushes}

abbrev one : Store
one = record {
  node = update (update (λ _. none) 10 (some (node_of (some 20) 0))) 20 (some (node_of none 7));
  front = 10;
  rear = 20;
}

one-Holds : Holds one ((20, 7) ∷ [])
one-Holds = record { junk = 0; linked = (refl, refl); distinct = (refl, (refl, tt)); at_end = refl }

push-Holds_example :
    (s' : Store) × (alone 4 30 one (push_alloc 8) ≡ some (s', pushed))
    × Holds s' ((20, 7) ∷ (30, 8) ∷ [])
push-Holds_example = push-Holds one ((20, 7) ∷ []) 30 8 one-Holds refl

pop-Holds_example :
    (s' : Store) × (alone 7 30 one pop_empty ≡ some (s', popped (some 7)))
    × Holds s' []
    × (s'.node 20 ≡ none)
pop-Holds_example = pop-Holds one 20 7 [] 30 one-Holds

que_init-Holds : Holds (que_init 10 5) []
unfolding que_init
que_init-Holds = record { junk = 5; linked = refl; distinct = (refl, tt); at_end = refl }

-- Two pushes and three pops.
five_calls : Option (Pc × Pc × Pc)
five_calls = do
  r₁ ← alone 4 20 (que_init 10 5) (push_alloc 1)
  r₂ ← alone 4 30 (r₁.0) (push_alloc 2)
  r₃ ← alone 7 40 (r₂.0) pop_empty
  r₄ ← alone 7 40 (r₃.0) pop_empty
  r₅ ← alone 1 40 (r₄.0) pop_empty
  some (r₃.1, r₄.1, r₅.1)

first_first : five_calls ≡ some (popped (some 1), popped (some 2), popped none)
unfolding five_calls alone step que_init
first_first = refl

race-pop_example :
    (s' : Store) × (interleave turns 30 one pop_empty (push_alloc 8)
      ≡ some (s', popped (some 7), pushed))
    × (s'.node 30 ≡ some (node_of none 8))
    × Lost s'
    × ((s'' : Store) × (alone 6 40 s' pop_empty ≡ some (s'', popped none)) × Lost s'')
race-pop_example = race-pop one 20 7 30 8 40 one-Holds refl

-- Two calls read `rear`, and the second one links first.
both : (w : Calls) × Reach one (λ t. t) w
unfolding step
both = (
  _,
  later 1 60 _ _
      (later 1 60 _ _
        (later 2 60 _ _
          (later 1 60 _ _
            (later 2 60 _ _
              (later 2 60 _ _
                (later 1 60 _ _ (later 2 50 _ _ (later 1 40 _ _ begin refl refl) refl refl) refl
                  refl)
                refl refl)
              refl refl)
            refl refl)
          refl refl)
        refl refl)
      refl refl,
)

both-order : order (both.1) ≡ 2 ∷ 1 ∷ []
unfolding both step
both-order = refl

follow-Pushes_example : Pushes ((20, 7) ∷ []) (λ t. t) (both.0) (order (both.1))
follow-Pushes_example = follow-Pushes one ((20, 7) ∷ []) (λ t. t) one-Holds (both.1)
