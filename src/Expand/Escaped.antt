-- ===== src/Expand/Escaped.antt =====
-- What the loop of `l7_pattern_expand` writes.
use mathlib.Core.List.{append_assoc}
use chunxiao_code.Prelude.{
  ℕ, zero, suc, ◌+◌, ◌*◌, ◌≤◌, ◌<◌, ◌≡◌, ap, ◌∙◌, List, [], ◌∷◌, ◌++◌, Option, some, Bool,
  Bool-cases, inl, inr, true, false, ◌&&◌, ◌==◌, length, length-append, drop, replicate, arith,
}
use chunxiao_code.Prelude.Fault.{◌>>=◌}
use chunxiao_code.Expand.{put, expand_from}
use chunxiao_code.Expand.Grammar.{
  marked_by, special-marked_by, Escaped, over, plain, escape, begins_quote, unquoted, AllSet,
  get_elem?-drop, put-next, quotes-begins, after, round, last_round,
}

-- What is written behind `done`, with `left` cells free, for the characters that are left.
pub record Writes (done : List ℕ) (left : ℕ) (cs : List ℕ) (o : Option (List ℕ)) : Type 0 where
  pub out : List ℕ
  pub free : ℕ
  pub wrote : o ≡ some (done ++ (out ++ replicate free 0))
  pub room : length out + free ≡ left
  pub short : length out ≤ 2 * length cs
  pub escaped : Escaped out (unquoted cs)

Writes-plain :
    (done cs : List ℕ) (left c : ℕ) (o : Option (List ℕ))
    → marked_by c ≡ false
    → (c == b'\\' && begins_quote cs) ≡ false
    → Writes (done ++ (c ∷ [])) left cs o
    → Writes done (suc left) (c ∷ cs) o
Writes-plain done cs left c o normal bare w = record {
  out = c ∷ w.out;
  free = w.free;
  wrote = w.wrote ∙ ap some (append_assoc done (c ∷ []) (w.out ++ replicate (w.free) 0));
  room = omega (arith, w.room);
  short = omega (arith, w.short);
  escaped = rw bare (plain (special-marked_by c ∙ normal) (w.escaped));
}

Writes-escape :
    (done cs : List ℕ) (left c : ℕ) (o : Option (List ℕ))
    → marked_by c ≡ true
    → (c == b'\\' && begins_quote cs) ≡ false
    → Writes ((done ++ (b'\\' ∷ [])) ++ (c ∷ [])) left cs o
    → Writes done (suc (suc left)) (c ∷ cs) o
Writes-escape done cs left c o marked bare w = record {
  out = b'\\' ∷ c ∷ w.out;
  free = w.free;
  wrote =
      w.wrote
      ∙ ap some (
          append_assoc (done ++ (b'\\' ∷ [])) (c ∷ []) (w.out ++ replicate (w.free) 0)
          ∙ append_assoc done (b'\\' ∷ []) (c ∷ (w.out ++ replicate (w.free) 0)));
  room = omega (arith, w.room);
  short = omega (arith, w.short);
  escaped = rw bare (escape (special-marked_by c ∙ marked) (w.escaped));
}

Writes-skip :
    (done cs : List ℕ) (left c : ℕ) (o : Option (List ℕ))
    → (c == b'\\' && begins_quote cs) ≡ true
    → Writes done left cs o
    → Writes done left (c ∷ cs) o
Writes-skip done cs left c o quoted w = record {
  out = w.out;
  free = w.free;
  wrote = w.wrote;
  room = w.room;
  short = omega (arith, w.short);
  escaped = rw quoted (w.escaped);
}

Writes-path :
    (done cs : List ℕ) (left : ℕ) (o o' : Option (List ℕ))
    → o ≡ o'
    → Writes done left cs o'
    → Writes done left cs o
Writes-path done cs left o o' e w = record {
  out = w.out;
  free = w.free;
  wrote = e ∙ w.wrote;
  room = w.room;
  short = w.short;
  escaped = w.escaped;
}

after-plain :
    (f : ℕ) (string done : List ℕ) (i j left c : ℕ)
    → i ≡ length done
    → marked_by c ≡ false
    → after f string i j (done ++ replicate (suc left) 0) c false
      ≡ expand_from f string (i + 1) (j + 1) ((done ++ (c ∷ [])) ++ replicate left 0)
after-plain f string done i j left c here normal =
    let buf = done ++ replicate (suc left) 0 in
    ap
      (λ b. elim b [
        | true ↦ put buf i b'\\' >>= λ buf₁.
            put buf₁ (i + 1) c >>= λ buf₂. expand_from f string (i + 2) (j + 1) buf₂
        | false ↦ put buf i c >>= λ buf₁. expand_from f string (i + 1) (j + 1) buf₁
      ])
      normal
    ∙ ap (λ m. m >>= λ buf₁. expand_from f string (i + 1) (j + 1) buf₁)
        (put-next done left i c here)

after-escape :
    (f : ℕ) (string done : List ℕ) (i j left c : ℕ)
    → i ≡ length done
    → marked_by c ≡ true
    → after f string i j (done ++ replicate (suc (suc left)) 0) c false
      ≡ expand_from f string
          (i + 2)
          (j + 1)
          (((done ++ (b'\\' ∷ [])) ++ (c ∷ [])) ++ replicate left 0)
after-escape f string done i j left c here marked =
    let buf = done ++ replicate (suc (suc left)) 0 in
    let done₁ = done ++ (b'\\' ∷ []) in
    let size : i + 1 ≡ length done₁ = here_next in
    ap
      (λ b. elim b [
        | true ↦ put buf i b'\\' >>= λ buf₁.
            put buf₁ (i + 1) c >>= λ buf₂. expand_from f string (i + 2) (j + 1) buf₂
        | false ↦ put buf i c >>= λ buf₁. expand_from f string (i + 1) (j + 1) buf₁
      ])
      marked
    ∙ ap
        (λ m.
          m >>= λ buf₁. put buf₁ (i + 1) c >>= λ buf₂. expand_from f string (i + 2) (j + 1) buf₂)
        (put-next done (suc left) i b'\\' here)
    ∙ ap (λ m. m >>= λ buf₂. expand_from f string (i + 2) (j + 1) buf₂)
        (put-next done₁ left (i + 1) c size)
  where
    here_next : i + 1 ≡ length (done ++ (b'\\' ∷ []))
    here_next = omega (arith, here, length-append done (b'\\' ∷ []))

pub expand_from-Writes :
    (f : ℕ) (string cs spare done : List ℕ) (i j left : ℕ)
    → drop j string ≡ cs ++ (0 ∷ spare)
    → AllSet cs
    → length cs < f
    → i ≡ length done
    → 2 * length cs ≤ left
    → Writes done left cs (expand_from f string i j (done ++ replicate left 0))
expand_from-Writes zero string cs spare done i j left at set_all fuel here room =
    absurd (omega arith)
expand_from-Writes (suc f) string [] spare done i j left at set_all fuel here room = record {
  out = [];
  free = left;
  wrote = last_round f string i j _ ((get_elem?-drop string spare j 0 at).0);
  room = omega arith;
  short = omega arith;
  escaped = over;
}
expand_from-Writes (suc f) string (c ∷ cs) spare done i j zero at set_all fuel here room =
    absurd (omega arith)
expand_from-Writes (suc f) string (c ∷ cs) spare done i j (suc zero) at set_all fuel here room =
    absurd (omega arith)
expand_from-Writes (suc f) string (c ∷ cs) spare done i j (suc (suc left)) at (set_c, set_all) fuel
      here room =
    let (got, behind) = get_elem?-drop string (cs ++ (0 ∷ spare)) j c at in
    let first =
      round f string i j (done ++ replicate (suc (suc left)) 0) c _ got set_c
        (quotes-begins string cs spare j c behind) in
    let go = λ (b : Bool) (e : (c == b'\\' && begins_quote cs) ≡ b).
      first ∙ ap (after f string i j (done ++ replicate (suc (suc left)) 0) c) e in
    elim (Bool-cases (c == b'\\' && begins_quote cs)) [
      | inl quoted ↦ Writes-skip done cs (suc (suc left)) c _ quoted (
          Writes-path done cs (suc (suc left)) _ _ (go true quoted) (
            expand_from-Writes f string cs spare done i (j + 1) (suc (suc left)) behind set_all
              (omega arith) here (omega arith)))
      | inr bare ↦ elim (Bool-cases (marked_by c)) [
        | inl marked ↦ Writes-escape done cs left c _ marked bare (
            Writes-path _ cs left _ _
              (go false bare ∙ after-escape f string done i j left c here marked)
              (expand_from-Writes f string cs spare _ (i + 2) (j + 1) left behind set_all
                (omega arith)
                (omega (
                  arith,
                  here,
                  length-append done (b'\\' ∷ []),
                  length-append (done ++ (b'\\' ∷ [])) (c ∷ []),
                ))
                (omega arith)))
        | inr normal ↦ Writes-plain done cs (suc left) c _ normal bare (
            Writes-path _ cs (suc left) _ _
              (go false bare ∙ after-plain f string done i j (suc left) c here normal)
              (expand_from-Writes f string cs spare _ (i + 1) (j + 1) (suc left) behind set_all
                (omega arith) (omega (arith, here, length-append done (c ∷ []))) (omega arith)))
      ]
    ]
