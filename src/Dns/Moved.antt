-- ===== src/Dns/Moved.antt =====
-- What becomes of a name with a label in dns.c: `result` has moved when it is given to free.
use chunxiao_code.Prelude.{
  ℕ, zero, suc, ◌+◌, ◌-◌, ◌≤◌, ◌<◌, ◌≡◌, refl, List, Option, none, some, Bool, Bool-cases,
  Option-cases, inl, inr, true, false, ◌||◌, ◌==◌, ltb, leb, arith, get_elem?, length,
  if◌then◌else◌,
}
use chunxiao_code.Prelude.Fault.{◌>>=◌}
use chunxiao_code.Pcap.State.{Endian}
use chunxiao_code.Dns.{
  Url, Converted, failed, Next, error, next, load16, memcpy, store, count, limit, label, pointer,
  free, finish, convert_loop, url_convert, start_at, url_max_length,
}

-- A round that did not fault leaves a pointer that has moved; when it does not end the loop, it is one of
-- the first hundred.
abbrev Moves : ℕ → Option Next → Type 0
Moves n none = Unit
Moves n (some (error result)) = 0 < result
Moves n (some (next s)) = (0 < s.result) × (s.counter ≡ n) × (n < 100)

Moves-bind {ℓ} :
    {A : Type ℓ} (n : ℕ) (m : Option A) (f : A → Option Next)
    → ((a : A) → Moves n (f a))
    → Moves n (m >>= f)
Moves-bind n none f h = tt
Moves-bind n (some a) f h = h a

Moves-if :
    (n : ℕ) (b : Bool) (o o' : Option Next)
    → Moves n o
    → ((b ≡ false) → Moves n o')
    → Moves n (if b then o else o')
Moves-if n true o o' h h' = h
Moves-if n false o o' h h' = h' refl

limit-Moves : (s : Url) → 0 < s.result → Moves (s.counter) (limit s)
unfolding limit
limit-Moves s moved =
    Moves-if (s.counter) (leb 100 (s.counter))
      (store (s.buffer) (s.result) 0 >>= λ buffer. some (error (s.result))) (some (next s))
      (Moves-bind (s.counter) (store (s.buffer) (s.result) 0) (λ buffer. some (error (s.result)))
        (λ buffer. moved))
      (λ e. (moved, refl, ground (arith, e)))

-- A label that is not empty moves the pointer.
label-Moves :
    (mem : List ℕ) (c : ℕ) (s : Url) → 0 < c → c < 0xc0 → Moves (s.counter) (label mem c s)
unfolding label
label-Moves mem c s some_c small =
    let n = s.counter in
    let fits : ltb url_max_length (c + 1) ≡ false = ground arith in
    rw fits (
      Moves-bind n (memcpy mem (s.buffer) (s.result) (s.ptr_ + 1) c) _ (λ buffer.
        Moves-bind n (get_elem? mem (s.ptr_ + (c + 1))) _ (λ d.
          Moves-bind n (store buffer (s.result + c) (if d == 0 then 0 else b'.')) _ (λ buffer'.
            limit-Moves
              (record s {
                ptr_ = s.ptr_ + (c + 1);
                len =
                    if d == 0
                    then count (record s { len = count s (c + 1) }) 1
                    else count s (c + 1);
                result = if d == 0 then s.result + c else s.result + c + 1;
                buffer = buffer';
              })
              (behind d)))))
  where
    behind : (d : ℕ) → 0 < (if d == 0 then s.result + c else s.result + c + 1)
    behind d = ground arith

pointer-Moves :
    (order : Endian) (mem : List ℕ) (ptr : ℕ) (s : Url)
    → 0 < s.result
    → Moves (s.counter) (pointer order mem ptr s)
unfolding pointer
pointer-Moves order mem ptr s moved =
    let n = s.counter in
    Moves-bind n (load16 order mem (s.ptr_)) _ (λ v.
      Moves-if n ((s.ptr_ + 0xc000 == ptr + v) || leb v 0xc012) (some (error (s.result))) _ moved
        (λ _.
          limit-Moves
            (record s { ptr_ = ptr + (v - 0xc000); len = count s 2; not_compress = false }) moved))

free-moved : (result : ℕ) (o : Converted) → 0 < result → free result o ≡ none
free-moved result o moved = ground arith

finish-moved : (packet_tail : ℕ) (s : Url) → 0 < s.result → finish packet_tail s ≡ none
unfolding finish
finish-moved packet_tail s moved = elim (Bool-cases (ltb packet_tail (s.ptr_))) [
  | inl e ↦ rw e (free-moved (s.result) failed moved)
  | inr e ↦ rw e (elim (Bool-cases (ltb (length (s.buffer)) (s.result + url_max_length))) [
    | inl e' ↦ rw e' refl
    | inr e' ↦ rw e' (free-moved (s.result) _ moved)
  ])
]

-- What follows a round that has moved the pointer faults, if it does so for both kinds of round.
behind-moved :
    (n : ℕ) (after : Option Next) (go_on : Next → Option Converted)
    → Moves n after
    → ((result : ℕ) → 0 < result → go_on (error result) ≡ none)
    → ((s : Url) → 0 < s.result → s.counter ≡ n → n < 100 → go_on (next s) ≡ none)
    → (after >>= go_on) ≡ none
behind-moved n none go_on m at_error at_next = refl
behind-moved n (some (error result)) go_on m at_error at_next = at_error result m
behind-moved n (some (next s)) go_on (moved, e, few) at_error at_next = at_next s moved e few

left_false : (a b : Bool) → (a || b) ≡ false → a ≡ false
left_false true b h = h
left_false false b h = refl

module _ (order : Endian) (mem : List ℕ) (ptr packet_tail : ℕ) where
  abbrev round_of : ℕ → Url → Option Next
  round_of c s = if ltb c 0xc0 then label mem c s else pointer order mem ptr s

  round-Moves : (c : ℕ) (s : Url) → 0 < c → 0 < s.result → Moves (s.counter) (round_of c s)
  round-Moves c s some_c moved = elim (Bool-cases (ltb c 0xc0)) [
    | inl small ↦ rw small (label-Moves mem c s some_c (ground arith))
    | inr other ↦ rw other (pointer-Moves order mem ptr s moved)
  ]

  positive : (c : ℕ) (b : Bool) → ((c == 0) || b) ≡ false → 0 < c
  positive c b h = let other : (c == 0) ≡ false = left_false (c == 0) b h in ground arith

  -- With fuel for the rounds up to the hundredth, the loop from a pointer that has moved faults.
  loop-moved :
      (f : ℕ) (s : Url)
      → 0 < s.result
      → s.counter < 100
      → 100 ≤ s.counter + f
      → convert_loop f order mem ptr packet_tail s ≡ none
  unfolding convert_loop
  loop-moved zero s moved few enough = absurd (omega arith)
  loop-moved (suc f) s moved few enough = elim (Option-cases (get_elem? mem (s.ptr_))) [
    | inl e ↦ rw e refl
    | inr (c, e) ↦ rw e (elim (Bool-cases ((c == 0) || ltb packet_tail (s.ptr_))) [
      | inl last ↦ rw last (finish-moved packet_tail s moved)
      | inr more ↦ rw more (
          behind-moved (s.counter + 1) _ _
            (round-Moves c (record s { counter = s.counter + 1 })
              (positive c (ltb packet_tail (s.ptr_)) more) moved)
            (λ result m. free-moved result failed m)
            (λ s' m e' few'. loop-moved f s' m (omega (arith, e')) (omega (arith, e'))))
    ])
  ]

  -- `url_convert` on a name that begins with a label faults: malloc succeeds, and the label stands inside
  -- the packet.
  pub url_convert-label :
      (offset c : ℕ)
      → get_elem? mem (ptr + offset) ≡ some c
      → 0 < c
      → c < 0xc0
      → ptr + offset ≤ packet_tail
      → url_convert true order mem ptr offset packet_tail ≡ none
  unfolding url_convert convert_loop
  url_convert-label offset c at some_c small inside =
      let go : ((c == 0) || ltb packet_tail (ptr + offset)) ≡ false = ground arith in
      let lab : ltb c 0xc0 ≡ true = ground arith in
      let s = record (start_at (ptr + offset)) { counter = 1 } in
      rw (at, go, lab)
        (behind-moved 1 (label mem c s) _ (label-Moves mem c s some_c small)
          (λ result m. free-moved result failed m)
          (λ s' m e few. loop-moved 99 s' m (omega (arith, e)) (omega (arith, e))))
