-- ===== src/Zutils/Rendezvous/Moves.antt =====
-- A node that is added takes over the keys for which it has the highest score, and no others move.
use Prim.Native.Nat.{bit_xor, suc}
use zincsearch.Prelude.{
  ℕ, ◌+◌, ◌≤◌, ◌<◌, ◌≡◌, ◌⊎◌, inl, inr, String, List, [], ◌∷◌, ◌++◌, some, refl, arith, map, length,
  get_elem?, true, false, ap, if◌then◌else◌, none, ltb, zero, ◌∙◌, Bool-cases, subst, sym, All-In,
}
use zincsearch.Zutils.Rendezvous.{
  Rendezvous, best_from, xorshift_mult64, lookup, add, contains, remove,
}
use zincsearch.Zutils.Rendezvous.Scores.{
  score, IsHashed, loop-IsBest, get_elem?-middle, In-get_elem?,
}

best_from-append :
    (khash i h : ℕ) (hs : List ℕ) (best : ℕ × ℕ)
    → best_from khash i (hs ++ h ∷ []) best ≡ (
        if ltb (best_from khash i hs best).1 (xorshift_mult64 (bit_xor khash h))
        then (i + length hs, xorshift_mult64 (bit_xor khash h))
        else best_from khash i hs best)
unfolding best_from
best_from-append khash i h [] (m, s) = ground arith
best_from-append khash i h (g ∷ hs) (m, s) =
    best_from-append khash (i + 1) h hs _
    ∙ ap
        (λ (n : ℕ).
          if ltb (best_from khash i (g ∷ hs) (m, s)).1 (xorshift_mult64 (bit_xor khash h))
          then (n, xorshift_mult64 (bit_xor khash h))
          else best_from khash i (g ∷ hs) (m, s))
        (omega arith)

get_elem?-front :
    {A : Type 0} (xs ys : List A) (n : ℕ) (x : A)
    → get_elem? xs n ≡ some x
    → get_elem? (xs ++ ys) n ≡ some x
get_elem?-front [] ys n x h = cc
get_elem?-front (y ∷ xs) ys zero x h = h
get_elem?-front (y ∷ xs) ys (suc n) x h = get_elem?-front xs ys n x h

map-snoc :
    (f : String → ℕ) (xs : List String) (x : String) → map f (xs ++ x ∷ []) ≡ map f xs ++ f x ∷ []
map-snoc f [] x = refl
map-snoc f (y ∷ xs) x = ap (λ l. f y ∷ l) (map-snoc f xs x)

length-map : (f : String → ℕ) (xs : List String) → length (map f xs) ≡ length xs
length-map f [] = refl
length-map f (y ∷ xs) = ap suc (length-map f xs)

-- There is nothing at the length of a list.
get_elem?-length : {A : Type 0} (xs : List A) → get_elem? xs (length xs) ≡ none
get_elem?-length [] = refl
get_elem?-length (x ∷ xs) = get_elem?-length xs

get_elem?-nonempty :
    {A : Type 0} (xs : List A) (n : ℕ) (x : A)
    → get_elem? xs n ≡ some x
    → (first : A) × (rest : List A) × (xs ≡ first ∷ rest)
get_elem?-nonempty [] n x h = cc
get_elem?-nonempty (y ∷ xs) n x h = (y, xs, refl)

module _ (hash : String → ℕ) where
  add_there : (r : Rendezvous) (node : String) → contains r node ≡ true → add hash r node ≡ r
  unfolding add
  add_there r node there = rw there refl

  add_new-nstr :
      (r : Rendezvous) (node : String)
      → contains r node ≡ false
      → (add hash r node).nstr ≡ r.nstr ++ node ∷ []
  unfolding add
  add_new-nstr r node new = rw new refl

  add_new-nhash :
      (r : Rendezvous) (node : String)
      → contains r node ≡ false
      → (add hash r node).nhash ≡ r.nhash ++ hash node ∷ []
  unfolding add
  add_new-nhash r node new = rw new refl

  add-IsHashed :
      (r : Rendezvous) (node : String) → IsHashed hash r → IsHashed hash (add hash r node)
  add-IsHashed r node h = elim (Bool-cases (contains r node)) [
    | inl there ↦ subst (λ s. IsHashed hash s) (sym (add_there r node there)) h
    | inr new ↦
        add_new-nhash r node new
        ∙ ap (λ l. l ++ hash node ∷ []) h
        ∙ sym (map-snoc hash r.nstr node)
        ∙ ap (λ l. map hash l) (sym (add_new-nstr r node new))
  ]

  -- The score of the node found is the one the loop ends with.
  found_score :
      (r : Rendezvous) (k x : String)
      → IsHashed hash r
      → lookup hash r k ≡ some x
      → (best_from (hash k) 0 r.nhash (0, 0)).1 ≡ score hash k x
  unfolding lookup
  found_score r k x h found =
      let (first, rest, e) = get_elem?-nonempty r.nstr _ x found in
      let b = loop-IsBest hash r k first rest h e in
      let same : b.name ≡ x = cc (b.there, found) in
      let below : score hash k b.name ≤ (best_from (hash k) 0 r.nhash (0, 0)).1 =
        All-In (λ y. score hash k y ≤ (best_from (hash k) 0 r.nhash (0, 0)).1) b.highest
          (In-get_elem? hash r.nstr _ b.name b.there) in
      let exact : (best_from (hash k) 0 r.nhash (0, 0)).1 ≡ score hash k b.name =
        omega (arith, below, b.within) in
      exact ∙ ap (λ y. score hash k y) same

  -- The loop over the nodes with one more: it ends where it ended, or with the new node.
  best_of_added :
      (r : Rendezvous) (node k x : String)
      → IsHashed hash r
      → lookup hash r k ≡ some x
      → contains r node ≡ false
      → best_from (hash k) 0 (add hash r node).nhash (0, 0) ≡ (
          if ltb (score hash k x) (score hash k node)
          then (length r.nstr, score hash k node)
          else best_from (hash k) 0 r.nhash (0, 0))
  unfolding score
  best_of_added r node k x h found new =
      let best = best_from (hash k) 0 r.nhash (0, 0) in
      ap (λ l. best_from (hash k) 0 l (0, 0)) (add_new-nhash r node new)
      ∙ best_from-append (hash k) 0 (hash node) r.nhash (0, 0)
      ∙ ap
          (λ m. if ltb m (score hash k node) then (0 + length r.nhash, score hash k node) else best)
          (found_score r k x h found)
      ∙ ap
          (λ (n : ℕ).
            if ltb (score hash k x) (score hash k node) then (n, score hash k node) else best)
          (omega (arith, ap length h ∙ length-map hash r.nstr))

  lookup_of_added :
      (r : Rendezvous) (node k x : String)
      → IsHashed hash r
      → lookup hash r k ≡ some x
      → contains r node ≡ false
      → lookup hash (add hash r node) k
        ≡ get_elem?
            (r.nstr ++ node ∷ [])
            (if ltb (score hash k x) (score hash k node)
              then (length r.nstr, score hash k node)
              else best_from (hash k) 0 r.nhash (0, 0)).0
  unfolding lookup
  lookup_of_added r node k x h found new =
      ap (λ best. get_elem? (add hash r node).nstr best.0) (best_of_added r node k x h found new)
      ∙ ap
          (λ l.
            get_elem? l
              (if ltb (score hash k x) (score hash k node)
                then (length r.nstr, score hash k node)
                else best_from (hash k) 0 r.nhash (0, 0)).0)
          (add_new-nstr r node new)

  -- The hashes of the nodes stay right when a node is added. A key that had a node keeps it, unless
  -- the added node is new and has a higher score for the key: then the key goes to the added node.
  pub add_moves_to_new :
      (r : Rendezvous) (node k x : String)
      → IsHashed hash r
      → lookup hash r k ≡ some x
      → IsHashed hash (add hash r node)
        × ((lookup hash (add hash r node) k ≡ some x)
              × ((contains r node ≡ true) ⊎ (score hash k node ≤ score hash k x))
            ⊎ (lookup hash (add hash r node) k ≡ some node)
              × (contains r node ≡ false)
              × (score hash k x < score hash k node))
  unfolding lookup
  add_moves_to_new r node k x h found = (
    add-IsHashed r node h,
    elim (Bool-cases (contains r node)) [
      | inl there ↦
          inl
            (subst (λ s. lookup hash s k ≡ some x) (sym (add_there r node there)) found, inl there)
      | inr new ↦ elim (Bool-cases (ltb (score hash k x) (score hash k node))) [
        | inl more ↦ inr (
          lookup_of_added r node k x h found new ∙ rw more (get_elem?-middle hash r.nstr node []),
          new,
          ground arith,
        )
        | inr less ↦ inl (
          lookup_of_added r node k x h found new
              ∙ rw less (get_elem?-front r.nstr (node ∷ []) _ x found),
          inr (ground arith),
        )
      ]
    ],
  )

-- `Remove` panics, whatever nodes there are: it reads the slice of the nodes at its length.
pub remove_panics : (r : Rendezvous) (node : String) → remove r node ≡ none
unfolding remove
remove_panics r node = rw (get_elem?-length r.nstr, remove) refl
