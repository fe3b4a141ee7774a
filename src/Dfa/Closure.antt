-- ===== src/Dfa/Closure.antt =====
-- `E_Closure` of nfa2dfa.c against the states that are reached by edges with the empty character.
use mathlib.Core.List.{append_assoc, append-nil}
use mathlib.Core.Path.{subst}
use chunxiao_code.Prelude.{
  ℕ, zero, suc, ◌+◌, ◌≤◌, ◌<◌, ◌≡◌, refl, ap, ◌∙◌, List, [], ◌∷◌, ◌++◌, Option, some, true, false,
  ◌==◌, length, length-append, get_elem?, Bool-cases, inl, inr, arith,
}
use chunxiao_code.Prelude.Fault.{◌>>=◌}
use chunxiao_code.Dfa.Graph.{Vertex}
use chunxiao_code.Dfa.Positions.{states}
use chunxiao_code.Dfa.Moves.{visit, closure_loop}
use chunxiao_code.Prelude.Members.{member}
use chunxiao_code.Dfa.Cells.{cells}
use chunxiao_code.Dfa.Gather.{insert_all, reached_from, Positive, AllInside, visit-Inserts}
use chunxiao_code.Prelude.Members.{Distinct, Within, member-append, Distinct-length}
use chunxiao_code.Dfa.Distinct.{member-insert_all, insert_all-extends, Distinct-insert_all}
use chunxiao_code.Dfa.Arrows.{
  Arrow, Reach, here, step, member-Arrow, Arrow-member, Arrow-state, states-Positive,
}

-- Reading an array at the end of a list, and behind it.
get_elem?-middle :
    (xs ys : List ℕ) (x spare : ℕ) → get_elem? (cells (xs ++ (x ∷ ys)) spare) (length xs) ≡ some x
get_elem?-middle [] ys x spare = refl
get_elem?-middle (w ∷ xs) ys x spare = get_elem?-middle xs ys x spare

get_elem?-behind : (xs : List ℕ) (spare : ℕ) → get_elem? (cells xs (suc spare)) (length xs) ≡ some 0
get_elem?-behind [] spare = refl
get_elem?-behind (w ∷ xs) spare = get_elem?-behind xs spare

length-states : (g : List Vertex) → length (states g) ≡ length g
length-states [] = refl
length-states (v ∷ g) = ap suc (length-states g)

module _ (g : List Vertex) (word : ℕ) where
  -- Every state of the set is reached from one of the first.
  abbrev pub From : List ℕ → List ℕ → Type 0
  From first ws =
      (b : ℕ) → member ws b ≡ true → (a : ℕ) × (member first a ≡ true) × Reach g word a b

  -- The set has whatever a move from a state of the first part leads to.
  abbrev pub Closed : List ℕ → List ℕ → Type 0
  Closed part ws = (a b : ℕ) → member part a ≡ true → Arrow g word a b → member ws b ≡ true

  -- A set of states between two rounds, in an array with `spare` cells left.
  pub record Fits (size : ℕ) (ws : List ℕ) (spare : ℕ) : Type 0 where
    pub distinct : Distinct ws
    pub within : Within ws (states g)
    pub room : length ws + spare ≡ size

  -- What the loop leaves.
  pub record Closes (size : ℕ) (first ws : List ℕ) (left : ℕ) : Type 0 where
    pub fits : Fits size ws left
    pub keeps : Within first ws
    pub from : From first ws
    pub closed : Closed ws ws

  pub Fits-length : (size : ℕ) (ws : List ℕ) (spare : ℕ) → Fits size ws spare → length ws ≤ length g
  Fits-length size ws spare f =
      omega (arith, length-states g, Distinct-length ws (states g) f.distinct f.within)

  abbrev after : List ℕ → ℕ → List ℕ
  after ws name = insert_all ws (reached_from g word name g)

  after-Within :
      (ws : List ℕ) (name : ℕ)
      → AllInside (length g) g
      → Within ws (states g)
      → Within (after ws name) (states g)
  after-Within ws name inside within b at = elim (Bool-cases (member ws b)) [
    | inl old ↦ within b old
    | inr new ↦ Arrow-state (
        member-Arrow g word name b inside
          (ground (arith, member-insert_all ws (reached_from g word name g) b)))
  ]

  -- One round: the visit of a state.
  visit-Fits :
      (size : ℕ) (ws : List ℕ) (spare name : ℕ)
      → Positive g
      → AllInside (length g) g
      → length g < size
      → Fits size ws spare
      → (left : ℕ) × (visit g word name g (cells ws spare, length ws)
          ≡ some (cells (after ws name) left, length (after ws name)))
        × Fits size (after ws name) left
  visit-Fits size ws spare name pos inside small f =
      let distinct = Distinct-insert_all ws (reached_from g word name g) f.distinct in
      let within = after-Within ws name inside f.within in
      let (left, e, n) = visit-Inserts g word name g pos inside ws spare (
        omega (
          arith,
          f.room,
          length-states g,
          Distinct-length (after ws name) (states g) distinct within,
        )) in
      (left, e, record { distinct = distinct; within = within; room = omega (arith, f.room) })

  after-From :
      (first ws : List ℕ) (name : ℕ)
      → AllInside (length g) g
      → member ws name ≡ true
      → From first ws
      → From first (after ws name)
  after-From first ws name inside at from b is = elim (Bool-cases (member ws b)) [
    | inl old ↦ from b old
    | inr new ↦
        let (a, start, way) = from name at in
        (
          a,
          start,
          step way (
              member-Arrow g word name b inside
                (ground (arith, member-insert_all ws (reached_from g word name g) b))),
        )
  ]

  after-keeps : (ws : List ℕ) (name : ℕ) → Within ws (after ws name)
  after-keeps ws name b at = ground (arith, member-insert_all ws (reached_from g word name g) b)

  after-Closed :
      (part ws : List ℕ) (name : ℕ) → Closed part ws → Closed (part ++ (name ∷ [])) (after ws name)
  after-Closed part ws name closed a b at arrow = elim (Bool-cases (member part a)) [
    | inl old ↦ after-keeps ws name b (closed a b old arrow)
    | inr new ↦
        let same : name ≡ a = ground (arith, member-append part (name ∷ []) a) in
        ground (
          arith,
          member-insert_all ws (reached_from g word name g) b,
          Arrow-member g word name b (rw same arrow),
        )
  ]

abbrev pub empty : ℕ
empty = b'*'

-- A round of the loop on a cell that is not zero.
closure_loop-step :
    (f : ℕ) (g : List Vertex) (i name : ℕ) (t : List ℕ) (k : ℕ) (s' : List ℕ × ℕ)
    (r : Option (List ℕ × ℕ))
    → get_elem? t i ≡ some name
    → 0 < name
    → visit g empty name g (t, k) ≡ some s'
    → closure_loop f g (i + 1) s' ≡ r
    → closure_loop (suc f) g i (t, k) ≡ r
unfolding closure_loop
closure_loop-step f g i name t k s' r read named e rest =
    let other : (name == 0) ≡ false = ground arith in rw (read, ◌>>=◌, other, e) rest

module _ (g : List Vertex) (size : ℕ) (first : List ℕ) (pos : Positive g)
    (inside : AllInside (length g) g) (small : length g < size) where
  -- Between two rounds: `part` are the states that were visited.
  record Runs (part todo ws : List ℕ) (spare : ℕ) : Type 0 where
    split : ws ≡ part ++ todo
    fits : Fits g empty size ws spare
    keeps : Within first ws
    from : From g empty first ws
    closed : Closed g empty part ws

  Ends : ℕ → ℕ → List ℕ → ℕ → Type 0
  Ends f i ws spare =
      (ws' : List ℕ) × (left : ℕ) × (closure_loop f g i (cells ws spare, length ws)
        ≡ some (cells ws' left, length ws'))
      × Closes g empty size first ws' left

  Runs-length :
      (part todo ws : List ℕ) (spare : ℕ)
      → Runs part todo ws spare
      → (length part + length todo ≡ length ws) × (length ws ≤ length g)
  Runs-length part todo ws spare r =
      let e = ap length r.split in
      omega (arith, length-append part todo, Fits-length g empty size ws spare r.fits)

  Runs-head :
      (part todo ws : List ℕ) (name spare : ℕ)
      → Runs part (name ∷ todo) ws spare
      → (get_elem? (cells ws spare) (length part) ≡ some name) × (member ws name ≡ true)
  Runs-head part todo ws name spare r = (
    rw r.split (get_elem?-middle part todo name spare),
    ground (arith, ap (λ l. member l name) r.split, member-append part (name ∷ todo) name),
  )

  Runs-visit :
      (part todo ws : List ℕ) (name spare left : ℕ)
      → Runs part (name ∷ todo) ws spare
      → Fits g empty size (after g empty ws name) left
      → (todo' : List ℕ) × Runs (part ++ (name ∷ [])) todo' (after g empty ws name) left
  Runs-visit part todo ws name spare left r fits =
      let (fresh, grown) = insert_all-extends ws (reached_from g empty name g) in
      (
        todo ++ fresh,
        record {
          split = grown ∙ rw r.split (simp append_assoc);
          fits = fits;
          keeps = λ b at. after-keeps g empty ws name b (r.keeps b at);
          from =
              after-From g empty first ws name inside (Runs-head part todo ws name spare r).1
                r.from;
          closed = after-Closed g empty part ws name r.closed;
        },
      )

  loop-stops :
      (f : ℕ) (part ws : List ℕ) (spare : ℕ)
      → Runs part [] ws spare
      → Ends (suc f) (length part) ws spare
  unfolding closure_loop Ends
  loop-stops f part ws zero r = absurd (omega (arith, Runs-length part [] ws 0 r, r.fits.room))
  loop-stops f part ws (suc spare) r =
      let whole : ws ≡ part = r.split ∙ append-nil part in
      (
        ws,
        suc spare,
        rw (← whole, get_elem?-behind ws spare) refl,
        record {
          fits = r.fits;
          keeps = r.keeps;
          from = r.from;
          closed = rw (← whole) at (r.closed);
        },
      )

  loop-Ends :
      (f : ℕ) (part todo ws : List ℕ) (spare : ℕ)
      → length g < length part + f
      → Runs part todo ws spare
      → Ends f (length part) ws spare
  unfolding Ends
  loop-Ends zero part todo ws spare fuel r =
      absurd (omega (arith, Runs-length part todo ws spare r))
  loop-Ends (suc f) part [] ws spare fuel r = loop-stops f part ws spare r
  loop-Ends (suc f) part (name ∷ todo) ws spare fuel r =
      let (read, at) = Runs-head part todo ws name spare r in
      let named : 0 < name = states-Positive g name pos (r.fits.within name at) in
      let (left, e, fits) = visit-Fits g empty size ws spare name pos inside small r.fits in
      let (todo', runs) = Runs-visit part todo ws name spare left r fits in
      let (ws', left', e', done) =
        loop-Ends f (part ++ (name ∷ [])) todo' (after g empty ws name) left
          (omega (arith, length-append part (name ∷ []))) runs in
      (
        ws',
        left',
        closure_loop-step f g (length part) name (cells ws spare) (length ws)
            (cells (after g empty ws name) left, length (after g empty ws name))
            (some (cells ws' left', length ws')) read named e
            (subst
              (λ i.
                closure_loop f g i
                  (cells (after g empty ws name) left, length (after g empty ws name))
                ≡ some (cells ws' left', length ws'))
              (omega (arith, length-append part (name ∷ []))) e'),
        done,
      )

  -- The loop from the first cell on, with fuel for one round more than there are cells.
  pub loop-Closes :
      (spare : ℕ)
      → Fits g empty size first spare
      → (ws : List ℕ) × (left : ℕ) × (closure_loop (suc size) g 0 (cells first spare, length first)
          ≡ some (cells ws left, length ws))
        × Closes g empty size first ws left
  unfolding Ends
  loop-Closes spare fits = loop-Ends (suc size) [] first first spare (omega arith) (record {
    split = refl;
    fits = fits;
    keeps = λ b at. at;
    from = λ b at. (b, at, here);
    closed = λ a b at. absurd cc;
  })
