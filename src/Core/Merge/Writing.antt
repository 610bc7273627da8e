-- ===== src/Core/Merge/Writing.antt =====
-- What `WriteToShard` does to the second layer shards, one by one.
use zincsearch.Core.Shards.{at_id, get_writer}
use zincsearch.Prelude.{
  bind-ok, ◌∷◌, ◌≡◌, Bool, List, String, false, length, ok, ℕ, get_elem?, set, suc, ◌-◌, ◌<◌, ◌≢◌,
  if◌then◌else◌, some, true, ap, arith, [], none, zero, refl, Result-cases, inl, inr, ok_injective,
  Result, ◌++◌, Option-cases, length-append, subst, sym, ◌∙◌,
}
use zincsearch.Prelude.Int.{pos}
use zincsearch.Core.Engine.{Engine, Laws, Op, CoreErr}
use zincsearch.Core.Merge.{
  write_one, put_writer, Ops, batch_each, split_last, put_batch, err, write_every, write_older,
  write_last,
}
use zincsearch.Core.Merge.Batches.{after_batch}

module _ (ε : Engine) where
  open ε use {Index, Content, found, batch}

  -- the documents of an id in the second layer shard of a number
  unfoldable pub docs_at : String → ℕ → List Index → List Content
  docs_at k j shards = elim (get_elem? shards j) [ none ↦ [] | some x ↦ found k x ]

  -- The first batch was written to the shard `h`, and the second to all others if `all` says so.
  pub record Wrote (h : ℕ) (all : Bool) (ops : List (Op Content) × List (Op Content))
      (x y : List Index) : Type 0 where
    pub same_length : length y ≡ length x
    pub is_there : h < length x
    pub at_home : (k : String) → docs_at k h y ≡ after_batch k ops.0 (docs_at k h x)
    pub elsewhere :
        (k : String) (j : ℕ)
        → j < length x
        → j ≢ h
        → docs_at k j y ≡ (if all then after_batch k ops.1 (docs_at k j x) else docs_at k j x)

  pub get_writer-there :
      (n : ℕ) (xs : List Index) (x : Index)
      → get_writer (pos n) xs ≡ ok x
      → (get_elem? xs n ≡ some x) × (n < length xs)
  unfolding get_writer at_id
  get_writer-there n [] x h = cc
  get_writer-there zero (a ∷ xs) x h = (ap some (ok_injective h), omega arith)
  get_writer-there (suc n) (a ∷ xs) x h = let (e, l) = get_writer-there n xs x h in (e, omega arith)

  module _ (law : Laws ε) where
    pub batch_docs :
        (ops : List (Op Content)) (x y : Index)
        → batch ops x ≡ ok y
        → (k : String) → found k y ≡ after_batch k ops (found k x)
    unfolding after_batch
    batch_docs ops x y h k = law.batch_found ops x y h k

    pub length-set : (xs : List Index) (n : ℕ) (y : Index) → length (set xs n y) ≡ length xs
    length-set [] n y = refl
    length-set (x ∷ xs) zero y = refl
    length-set (x ∷ xs) (suc n) y = ap suc (length-set xs n y)

    pub docs_at-set_self :
        (k : String) (n : ℕ) (xs : List Index) (x y : Index)
        → get_elem? xs n ≡ some x
        → (docs_at k n (set xs n y) ≡ found k y) × (docs_at k n xs ≡ found k x)
    unfolding docs_at
    docs_at-set_self k n [] x y h = cc
    docs_at-set_self k zero (a ∷ xs) x y h = ground arith
    docs_at-set_self k (suc n) (a ∷ xs) x y h = docs_at-set_self k n xs x y h

    pub docs_at-set_other :
        (k : String) (n j : ℕ) (xs : List Index) (y : Index)
        → j ≢ n
        → docs_at k j (set xs n y) ≡ docs_at k j xs
    unfolding docs_at
    docs_at-set_other k n j [] y h = refl
    docs_at-set_other k zero zero (a ∷ xs) y h = absurd (h refl)
    docs_at-set_other k zero (suc j) (a ∷ xs) y h = refl
    docs_at-set_other k (suc n) zero (a ∷ xs) y h = refl
    docs_at-set_other k (suc n) (suc j) (a ∷ xs) y h =
        docs_at-set_other k n j xs y (λ e. h (ap suc e))

    put_batch-ok :
        (n : ℕ) (xs ys : List Index) (r : Result CoreErr Index)
        → put_batch ε (pos n) xs r ≡ (ok tt, ys)
        → (y : Index) × (r ≡ ok y) × (set xs n y ≡ ys)
    unfolding put_batch put_writer
    put_batch-ok n xs ys (ok y) h = (y, refl, ap (λ p. p.1) h)
    put_batch-ok n xs ys (err e) h = cc

    pub write_one-Wrote :
        (n : ℕ) (built : Ops ε) (xs ys : List Index)
        → write_one ε (pos n) built xs ≡ (ok tt, ys)
        → (ops : List (Op Content) × List (Op Content)) × (built ≡ ok ops) × Wrote n false ops xs ys
    unfolding write_one
    write_one-Wrote n built xs ys h =
        let (y, e, ys_set) = put_batch-ok n xs ys _ h in
        let (x, there, e1) = bind-ok (get_writer (pos n) xs) _ e in
        let (ops, made, e2) = bind-ok built _ e1 in
        let (at_n, lt) = get_writer-there n xs x there in
        (
          ops,
          made,
          rw (← ys_set) (record {
            same_length = length-set xs n y;
            is_there = lt;
            at_home = λ k.
                let (new, old) = docs_at-set_self k n xs x y at_n in
                rw (new, old) (batch_docs ops.0 x y e2 k);
            elsewhere = λ k j l d. docs_at-set_other k n j xs y d;
          }),
        )

    batch_each-cons :
        (ops : List (Op Content)) (x : Index) (xs ys : List Index)
        → batch_each ε ops (x ∷ xs) ≡ (ok tt, ys)
        → (y : Index) × (rest : List Index) × (batch ops x ≡ ok y)
          × (batch_each ε ops xs ≡ (ok tt, rest))
          × (y ∷ rest ≡ ys)
    unfolding batch_each
    batch_each-cons ops x xs ys h = elim (Result-cases (batch ops x)) [
      | inl (y, e) ↦ (y, (batch_each ε ops xs).1, e, ground arith, ground arith)
      | inr (f, e) ↦ absurd (ground arith)
    ]

    batch_each-docs :
        (ops : List (Op Content)) (xs ys : List Index)
        → batch_each ε ops xs ≡ (ok tt, ys)
        → (length ys ≡ length xs)
          × ((k : String) (j : ℕ)
              → j < length xs
              → docs_at k j ys ≡ after_batch k ops (docs_at k j xs))
    unfolding batch_each docs_at
    batch_each-docs ops [] ys h = rw (← ap (λ p. p.1) h) (refl, λ k j l. elim l [ ])
    batch_each-docs ops (x ∷ xs) ys h =
        let (y, rest, wrote, more, e) = batch_each-cons ops x xs ys h in
        let (len, docs) = batch_each-docs ops xs rest more in
        rw (← e) (ap suc len, each y rest wrote docs)
      where
        each :
            (y : Index) (rest : List Index)
            → batch ops x ≡ ok y
            → ((k : String) (j : ℕ)
                → j < length xs
                → docs_at k j rest ≡ after_batch k ops (docs_at k j xs))
            → (k : String) (j : ℕ) → j < length (x ∷ xs)
            → docs_at k j (y ∷ rest) ≡ after_batch k ops (docs_at k j (x ∷ xs))
        each y rest wrote docs k zero l = batch_docs ops x y wrote k
        each y rest wrote docs k (suc j) l = docs k j (omega arith)

    split_last-none : (xs : List Index) → split_last xs ≡ none → xs ≡ []
    unfolding split_last
    split_last-none [] h = refl
    split_last-none (a ∷ xs) h = absurd (ground arith)

    split_last-append :
        (xs front : List Index) (x : Index) → split_last xs ≡ some (front, x) → xs ≡ front ++ x ∷ []
    unfolding split_last
    split_last-append [] front x h = cc
    split_last-append (a ∷ xs) front x h = elim (Option-cases (split_last xs)) [
      | inl e ↦ ground (arith, split_last-none xs)
      | inr (p, e) ↦ ground (arith, split_last-append xs p.0 p.1)
    ]

    docs_at-front :
        (k : String) (j : ℕ) (xs : List Index) (x : Index)
        → j < length xs
        → docs_at k j (xs ++ x ∷ []) ≡ docs_at k j xs
    unfolding docs_at
    docs_at-front k j [] x l = elim l [ ]
    docs_at-front k zero (a ∷ xs) x l = refl
    docs_at-front k (suc j) (a ∷ xs) x l = docs_at-front k j xs x (omega arith)

    docs_at-last :
        (k : String) (j : ℕ) (xs : List Index) (x : Index)
        → j ≡ length xs
        → docs_at k j (xs ++ x ∷ []) ≡ found k x
    unfolding docs_at
    docs_at-last k zero [] x e = refl
    docs_at-last k (suc j) [] x e = absurd (omega arith)
    docs_at-last k zero (a ∷ xs) x e = absurd (omega arith)
    docs_at-last k (suc j) (a ∷ xs) x e = docs_at-last k j xs x (omega arith)

    write_older-ok :
        (xs ys : List Index) (x : Index) (r : Result CoreErr (List (Op Content) × Index))
        → write_older ε xs x r ≡ (ok tt, ys)
        → (others : List (Op Content)) × (y : Index) × (rest : List Index) × (r ≡ ok (others, y))
          × (batch_each ε others xs ≡ (ok tt, rest))
          × (rest ++ y ∷ [] ≡ ys)
    unfolding write_older
    write_older-ok xs ys x (ok (others, y)) h =
        (others, y, (batch_each ε others xs).1, refl, ground arith, ground arith)
    write_older-ok xs ys x (err e) h = cc

    write_last-ok :
        (built : Ops ε) (x y : Index) (others : List (Op Content))
        → write_last ε built x ≡ ok (others, y)
        → (ops : List (Op Content) × List (Op Content)) × (built ≡ ok ops)
          × (batch ops.0 x ≡ ok y)
          × (ops.1 ≡ others)
    unfolding write_last
    write_last-ok built x y others h =
        let (ops, made, h1) = bind-ok built _ h in
        let (y', wrote, h2) = bind-ok (batch ops.0 x) _ h1 in
        (ops, made, rw wrote (ap (λ p. ok p.1) (ok_injective h2)), ap (λ p. p.0) (ok_injective h2))

    older-Wrote :
        (built : Ops ε) (front ys : List Index) (x : Index)
        → write_older ε front x (write_last ε built x) ≡ (ok tt, ys)
        → (ops : List (Op Content) × List (Op Content)) × (built ≡ ok ops)
          × Wrote (length front) true ops (front ++ x ∷ []) ys
    older-Wrote built front ys x h =
        let (others, y, rest, last, more, e) = write_older-ok front ys x _ h in
        let (ops, made, wrote, is_others) = write_last-ok built x y others last in
        let (len, docs) = batch_each-docs others front rest more in
        (
          ops,
          made,
          rw (← e) (record {
            same_length = omega (arith, length-append front (x ∷ []), length-append rest (y ∷ []));
            is_there = omega (arith, length-append front (x ∷ []));
            at_home = λ k.
                docs_at-last k (length front) rest y (sym len)
                ∙ batch_docs ops.0 x y wrote k
                ∙ ap (after_batch k ops.0) (sym (docs_at-last k (length front) front x refl));
            elsewhere = λ k j l d.
                let j_lt : j < length front = omega (arith, length-append front (x ∷ [])) in
                docs_at-front k j rest y (rw len j_lt)
                ∙ docs k j j_lt
                ∙ rw is_others (ap (after_batch k others) (sym (docs_at-front k j front x j_lt)));
          }),
        )

    pub write_every-Wrote :
        (built : Ops ε) (xs ys : List Index)
        → write_every ε built xs ≡ (ok tt, ys)
        → (ops : List (Op Content) × List (Op Content)) × (built ≡ ok ops)
          × Wrote (length xs - 1) true ops xs ys
    unfolding write_every
    write_every-Wrote built xs ys h = elim (Option-cases (split_last xs)) [
      | inl e ↦ absurd (ground arith)
      | inr ((front, x), e) ↦
          let whole = split_last-append xs front x e in
          let (ops, made, wrote) = older-Wrote built front ys x (ground arith) in
          let len : length front ≡ length xs - 1 =
            omega (arith, ap length whole, length-append front (x ∷ [])) in
          (
            ops,
            made,
            subst (λ l. Wrote l true ops xs ys) len
                (subst (λ l. Wrote (length front) true ops l ys) (sym whole) wrote),
          )
    ]
