-- ===== src/State/Mem/Listing.antt =====
-- `List` of the store in memory: the entries under a prefix, each once, in the order of their keys.
use zincsearch.Prelude.{
  ℕ, String, List, [], ◌∷◌, ◌≡◌, refl, sym, ◌∙◌, subst, none, some, true, false, arith, eq_iff,
  str_eq, ok, In, here, there, All, Bool-cases, inl, inr, false≢true, eq_refl, ok_injective,
}
use zincsearch.Dict
use zincsearch.Dict.{Dict, get-put, get-remove}
use zincsearch.Text.{str_lt, codes_lt, codes, has_prefix}
use zincsearch.State.Entry.{Entry}
use zincsearch.State.Store.{IsOrdered}
use zincsearch.State.Mem.{Mem, matching, insert_by_key, sort_by_key, list}

codes_lt-asym : (a b : List ℕ) → codes_lt a b ≡ true → codes_lt b a ≡ false
unfolding codes_lt
codes_lt-asym [] [] h = refl
codes_lt-asym [] (y ∷ b) h = refl
codes_lt-asym (x ∷ a) [] h = cc h
codes_lt-asym (x ∷ a) (y ∷ b) h = ground (arith, codes_lt-asym a b)

codes_lt_trans : (a b c : List ℕ) → codes_lt a b ≡ true → codes_lt b c ≡ true → codes_lt a c ≡ true
unfolding codes_lt
codes_lt_trans a [] [] h k = cc k
codes_lt_trans [] [] (z ∷ c) h k = refl
codes_lt_trans (x ∷ a) [] (z ∷ c) h k = cc h
codes_lt_trans a (y ∷ b) [] h k = cc k
codes_lt_trans [] (y ∷ b) (z ∷ c) h k = refl
codes_lt_trans (x ∷ a) (y ∷ b) (z ∷ c) h k = ground (arith, codes_lt_trans a b c)

str_lt-asym : (a b : String) → str_lt a b ≡ true → str_lt b a ≡ false
unfolding str_lt
str_lt-asym a b = codes_lt-asym (codes a) (codes b)

-- What is not before `x` is not before what is before `x`.
later : (e x f : String) → str_lt e x ≡ true → str_lt f x ≡ false → str_lt f e ≡ false
unfolding str_lt
later e x f h k = elim (Bool-cases (str_lt f e)) [
  | inr no' ↦ no'
  | inl yes' ↦
      let t = codes_lt_trans (codes f) (codes e) (codes x) yes' h in absurd (false≢true (sym k ∙ t))
]

module _ {V : Type 0} where
  -- No key stands twice.
  abbrev pub IsDistinct : Dict (Entry V) → Type 0
  IsDistinct [] = Unit
  IsDistinct ((k, e) ∷ d) = (Dict.get d k ≡ none) × IsDistinct d

  pub put-IsDistinct :
      (d : Dict (Entry V)) (k : String) (e : Entry V) → IsDistinct d → IsDistinct (Dict.put d k e)
  unfolding Dict.put Dict.get
  put-IsDistinct [] k e h = (refl, tt)
  put-IsDistinct ((j, x) ∷ d) k e h = elim (Bool-cases (str_eq j k)) [
    | inl same ↦ rw same (subst (λ i. Dict.get d i ≡ none) ((eq_iff j k).0 same) h.0, h.1)
    | inr other ↦
        rw other
          (ground (arith, get-put d k e j, eq_iff k j, eq_iff j k, h.0), put-IsDistinct d k e h.1)
  ]

  pub remove-IsDistinct :
      (d : Dict (Entry V)) (k : String) → IsDistinct d → IsDistinct (Dict.remove d k)
  unfolding Dict.remove
  remove-IsDistinct [] k h = tt
  remove-IsDistinct ((j, x) ∷ d) k h = elim (Bool-cases (str_eq j k)) [
    | inl same ↦ rw same (remove-IsDistinct d k h.1)
    | inr other ↦ rw other (ground (arith, get-remove d k j, h.0), remove-IsDistinct d k h.1)
  ]

  -- Every entry stands under its own key.
  abbrev pub OwnKeys : Dict (Entry V) → Type 0
  OwnKeys d = (k : String) (e : Entry V) → Dict.get d k ≡ some e → e.key ≡ k

  get-rest :
      (k : String) (x : Entry V) (d : Dict (Entry V)) (j : String) (e : Entry V)
      → Dict.get d k ≡ none
      → Dict.get d j ≡ some e
      → Dict.get ((k, x) ∷ d) j ≡ some e
  unfolding Dict.get
  get-rest k x d j e new h = elim (Bool-cases (str_eq k j)) [
    | inl same ↦ absurd (
        let at : Dict.get d j ≡ none = subst (λ i. Dict.get d i ≡ none) ((eq_iff k j).0 same) new in
        cc (at, h))
    | inr other ↦ rw other h
  ]

  get-first : (k : String) (x : Entry V) (d : Dict (Entry V)) → Dict.get ((k, x) ∷ d) k ≡ some x
  unfolding Dict.get
  get-first k x d = rw (eq_refl k) refl

  matching_sound :
      (d : Dict (Entry V)) (prefix : String)
      → IsDistinct d
      → OwnKeys d
      → (e : Entry V) → In e (matching d prefix)
      → (Dict.get d e.key ≡ some e) × (has_prefix e.key prefix ≡ true)
  unfolding matching
  matching_sound [] prefix h own e m = elim m [ ]
  matching_sound ((k, x) ∷ d) prefix h own e m =
      let rest : In e (matching d prefix)
          → (Dict.get ((k, x) ∷ d) e.key ≡ some e) × (has_prefix e.key prefix ≡ true) =
        λ m'.
          let r = matching_sound d prefix h.1 (λ j f p. own j f (get-rest k x d j f h.0 p)) e m' in
          (get-rest k x d e.key e h.0 r.0, r.1) in
      elim (Bool-cases (has_prefix k prefix)) [
        | inr no' ↦ rest (rw no' at m)
        | inl yes' ↦ elim (rw yes' at m) [
          | there m' ↦ rest m'
          | here same ↦
              let key_is : x.key ≡ k = own k x (get-first k x d) in
              let at : e.key ≡ k = cc (same, key_is) in
              (
                subst (λ i. Dict.get ((k, x) ∷ d) i ≡ some e) (sym at) (get-first k x d ∙ cc same),
                subst (λ i. has_prefix i prefix ≡ true) (sym at) yes',
              )
        ]
      ]

  matching_complete :
      (d : Dict (Entry V)) (prefix k : String) (e : Entry V)
      → Dict.get d k ≡ some e
      → has_prefix k prefix ≡ true
      → In e (matching d prefix)
  unfolding matching Dict.get
  matching_complete [] prefix k e h p = cc h
  matching_complete ((j, x) ∷ d) prefix k e h p = elim (Bool-cases (str_eq j k)) [
    | inl same ↦
        let at : has_prefix j prefix ≡ true =
          subst (λ i. has_prefix i prefix ≡ true) (sym ((eq_iff j k).0 same)) p in
        let h' = rw same at h in rw at (here (cc h'))
    | inr other ↦
        let rest = matching_complete d prefix k e (rw other at h) p in
        elim (Bool-cases (has_prefix j prefix)) [
          | inl yes' ↦ rw yes' (there rest)
          | inr no' ↦ rw no' rest
        ]
  ]

  insert-In :
      (x : Entry V) (es : List (Entry V)) (e : Entry V) → In e (insert_by_key x es) → In e (x ∷ es)
  unfolding insert_by_key
  insert-In x [] e m = m
  insert-In x (y ∷ es) e m = elim (Bool-cases (str_lt x.key y.key)) [
    | inl first ↦ rw first at m
    | inr after ↦ elim (rw after at m) [
      | here same ↦ there (here same)
      | there m' ↦ elim (insert-In x es e m') [
        | here same ↦ here same
        | there m'' ↦ there (there m'')
      ]
    ]
  ]

  In-insert :
      (x : Entry V) (es : List (Entry V)) (e : Entry V) → In e (x ∷ es) → In e (insert_by_key x es)
  unfolding insert_by_key
  In-insert x [] e m = m
  In-insert x (y ∷ es) e m = elim (Bool-cases (str_lt x.key y.key)) [
    | inl first ↦ rw first m
    | inr after ↦ rw after (elim m [
      | here same ↦ there (In-insert x es e (here same))
      | there m' ↦ elim m' [
        | here same ↦ here same
        | there m'' ↦ there (In-insert x es e (there m''))
      ]
    ])
  ]

  sort-In : (es : List (Entry V)) (e : Entry V) → In e (sort_by_key es) → In e es
  unfolding sort_by_key
  sort-In [] e m = m
  sort-In (x ∷ es) e m = elim (insert-In x (sort_by_key es) e m) [
    | here same ↦ here same
    | there m' ↦ there (sort-In es e m')
  ]

  In-sort : (es : List (Entry V)) (e : Entry V) → In e es → In e (sort_by_key es)
  unfolding sort_by_key
  In-sort [] e m = m
  In-sort (x ∷ es) e (here same) = In-insert x (sort_by_key es) e (here same)
  In-sort (x ∷ es) e (there m) = In-insert x (sort_by_key es) e (there (In-sort es e m))

  later-All :
      (e x : Entry V) (es : List (Entry V))
      → str_lt e.key x.key ≡ true
      → All (λ f. str_lt f.key x.key ≡ false) es
      → All (λ f. str_lt f.key e.key ≡ false) es
  later-All e x [] h a = tt
  later-All e x (f ∷ es) h a = (later e.key x.key f.key h a.0, later-All e x es h a.1)

  insert-All :
      (x e : Entry V) (es : List (Entry V))
      → str_lt e.key x.key ≡ false
      → All (λ f. str_lt f.key x.key ≡ false) es
      → All (λ f. str_lt f.key x.key ≡ false) (insert_by_key e es)
  unfolding insert_by_key
  insert-All x e [] h a = (h, tt)
  insert-All x e (y ∷ es) h a = elim (Bool-cases (str_lt e.key y.key)) [
    | inl first ↦ rw first (h, a)
    | inr after ↦ rw after (a.0, insert-All x e es h a.1)
  ]

  insert-IsOrdered :
      (e : Entry V) (es : List (Entry V)) → IsOrdered es → IsOrdered (insert_by_key e es)
  unfolding insert_by_key
  insert-IsOrdered e [] h = (tt, tt)
  insert-IsOrdered e (x ∷ es) h = elim (Bool-cases (str_lt e.key x.key)) [
    | inl first ↦ rw first ((str_lt-asym e.key x.key first, later-All e x es first h.0), h)
    | inr after ↦ rw after (insert-All x e es after h.0, insert-IsOrdered e es h.1)
  ]

  sort-IsOrdered : (es : List (Entry V)) → IsOrdered (sort_by_key es)
  unfolding sort_by_key
  sort-IsOrdered [] = tt
  sort-IsOrdered (e ∷ es) = insert-IsOrdered e (sort_by_key es) (sort-IsOrdered es)

  pub list_shape :
      (m : Mem V) (prefix : String) (es : List (Entry V))
      → IsDistinct m.entries
      → OwnKeys m.entries
      → list m prefix ≡ ok es
      → ((e : Entry V)
          → In e es
          → (Dict.get m.entries e.key ≡ some e) × (has_prefix e.key prefix ≡ true))
        × ((k : String) (e : Entry V)
            → Dict.get m.entries k ≡ some e
            → has_prefix k prefix ≡ true
            → In e es)
        × IsOrdered es
  unfolding list
  list_shape m prefix es h own p =
      let all = matching m.entries prefix in
      let same : sort_by_key all ≡ es = ok_injective p in
      (
        λ e i. matching_sound m.entries prefix h own e (sort-In all e (subst (In e) (sym same) i)),
        λ k e q r. subst (In e) same (In-sort all e (matching_complete m.entries prefix k e q r)),
        subst IsOrdered same (sort-IsOrdered all),
      )
