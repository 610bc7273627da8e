-- ===== src/Zutils/Rendezvous/Scores.antt =====
-- `Lookup` finds a node with the highest score.
use Prim.Native.Nat.{bit_xor, suc}
use zincsearch.Prelude.{
  ℕ, ◌+◌, ◌≤◌, ◌≡◌, String, List, [], ◌∷◌, ◌++◌, some, refl, arith, map, length, get_elem?, All,
  subst, append-nil, Bool-cases, ltb, inl, inr, In, sym, ◌∙◌, length-append, Any, append_assoc,
  All-append, zero, if◌then◌else◌,
}
use zincsearch.Zutils.Rendezvous.{Rendezvous, best_from, xorshift_mult64, lookup}

module _ (hash : String → ℕ) where
  -- the score of a node for a key
  unfoldable pub score : String → String → ℕ
  score k y = xorshift_mult64 (bit_xor (hash k) (hash y))

  -- The hashes are those of the nodes.
  abbrev pub IsHashed : Rendezvous → Type 0
  IsHashed r = r.nhash ≡ map hash r.nstr

  pub get_elem?-middle :
      {A : Type 0} (pre : List A) (y : A) (ns : List A)
      → get_elem? (pre ++ y ∷ ns) (length pre) ≡ some y
  get_elem?-middle [] y ns = refl
  get_elem?-middle (x ∷ pre) y ns = get_elem?-middle pre y ns

  pub In-get_elem? : {A : Type 0} (xs : List A) (n : ℕ) (x : A) → get_elem? xs n ≡ some x → In x xs
  In-get_elem? [] n x h = cc
  In-get_elem? (y ∷ xs) zero x h = Any.here (cc h)
  In-get_elem? (y ∷ xs) (suc n) x h = Any.there (In-get_elem? xs n x h)

  module _ (k : String) where
    -- The best of the nodes so far, among all nodes.
    pub record IsBest (all pre : List String) (best : ℕ × ℕ) : Type 0 where
      pub name : String
      pub there : get_elem? all best.0 ≡ some name
      pub within : best.1 ≤ score k name
      pub highest : All (λ y. score k y ≤ best.1) pre

    raised :
        (m n : ℕ) (pre : List String)
        → m ≤ n
        → All (λ y. score k y ≤ m) pre
        → All (λ y. score k y ≤ n) pre
    raised m n [] l h = tt
    raised m n (y ∷ pre) l h = (omega (arith, h.0), raised m n pre l h.1)

    best_from-IsBest :
        (all pre ns : List String) (best : ℕ × ℕ)
        → all ≡ pre ++ ns
        → IsBest all pre best
        → IsBest all all (best_from (hash k) (length pre) (map hash ns) best)
    unfolding best_from score
    best_from-IsBest all pre [] best e b =
        subst (λ l. IsBest all l best) (sym (e ∙ append-nil pre)) b
    best_from-IsBest all pre (y ∷ ns) (midx, mhash) e b =
        let on : (best : ℕ × ℕ)
            → IsBest all (pre ++ y ∷ []) best
            → IsBest all all (best_from (hash k) (length pre + 1) (map hash ns) best) =
          λ best h.
            subst (λ i. IsBest all all (best_from (hash k) i (map hash ns) best))
              (length-append pre (y ∷ []))
              (best_from-IsBest all (pre ++ y ∷ []) ns best (e ∙ sym (append_assoc pre (y ∷ []) ns))
                h) in
        let step : IsBest all (pre ++ y ∷ [])
            (if ltb mhash (score k y) then (length pre, score k y) else (midx, mhash)) =
          elim (Bool-cases (ltb mhash (score k y))) [
            | inl better ↦ rw better (record {
              name = y;
              there = rw e (get_elem?-middle pre y ns);
              within = omega arith;
              highest =
                  All-append (λ x. score k x ≤ score k y) pre (y ∷ [])
                    (raised mhash (score k y) pre (ground arith) b.highest) (omega arith, tt);
            })
            | inr worse ↦ rw worse (record {
              name = b.name;
              there = b.there;
              within = b.within;
              highest =
                  All-append (λ x. score k x ≤ mhash) pre (y ∷ []) b.highest (ground arith, tt);
            })
          ] in
        on (if ltb mhash (score k y) then (length pre, score k y) else (midx, mhash)) step

  -- What the loop of `Lookup` finds.
  pub loop-IsBest :
      (r : Rendezvous) (k first : String) (rest : List String)
      → IsHashed r
      → r.nstr ≡ first ∷ rest
      → IsBest k r.nstr r.nstr (best_from (hash k) 0 r.nhash (0, 0))
  loop-IsBest r k first rest h e =
      let start : IsBest k r.nstr [] (0, 0) = record {
        name = first;
        there = rw e refl;
        within = omega arith;
        highest = tt;
      } in
      subst (λ l. IsBest k r.nstr r.nstr (best_from (hash k) 0 l (0, 0))) (sym h)
        (best_from-IsBest k r.nstr [] r.nstr (0, 0) refl start)

  -- Where there is a node and the hashes are the nodes', a key is given a node, and no node has a
  -- higher score for the key.
  pub lookup_is_best :
      (r : Rendezvous) (k first : String) (rest : List String)
      → IsHashed r
      → r.nstr ≡ first ∷ rest
      → (x : String) × (lookup hash r k ≡ some x)
        × In x r.nstr
        × All (λ y. score k y ≤ score k x) r.nstr
  unfolding lookup
  lookup_is_best r k first rest h e =
      let b = loop-IsBest r k first rest h e in
      (
        b.name,
        b.there,
        In-get_elem? r.nstr _ b.name b.there,
        raised k _ _ r.nstr b.within b.highest,
      )
