-- ===== src/Core/Aliases/Removing.antt =====
-- What `RemoveIndexesFromAlias` leaves.
use zincsearch.Prelude.{
  ℕ, zero, suc, ◌+◌, ◌≤◌, String, List, [], ◌∷◌, ◌++◌, Bool, true, false, some, ◌≡◌, refl, ap, ◌∙◌,
  if◌then◌else◌, length, str_eq, arith, Bool-cases, inl, inr, eq_iff, eq_refl,
}
use zincsearch.Dict.{Dict}
use zincsearch.Dict
use zincsearch.Core.Aliases.{
  is_one, put_second, last_first, removal_loop, remove_indexes_from_alias, remove_found,
  get_indexes_for_alias, set_metadata,
}

-- how often a name is in a list
unfoldable pub count : String → List String → ℕ
count x [] = 0
count x (y ∷ names) = (if str_eq y x then 1 else 0) + count x names

count-append : (x : String) (ys zs : List String) → count x (ys ++ zs) ≡ count x ys + count x zs
unfolding count
count-append x [] zs = omega arith
count-append x (y ∷ ys) zs = omega (arith, count-append x ys zs)

count-put_second :
    (x y : String) (names : List String) → count x (put_second y names) ≡ count x (y ∷ names)
unfolding put_second count
count-put_second x y [] = refl
count-put_second x y (z ∷ names) = omega arith

count-last_first : (x : String) (names : List String) → count x (last_first names) ≡ count x names
unfolding last_first count
count-last_first x [] = refl
count-last_first x (y ∷ names) =
    count-put_second x y (last_first names) ∙ omega (arith, count-last_first x names)

length-put_second :
    (y : String) (names : List String) → length (put_second y names) ≡ suc (length names)
unfolding put_second
length-put_second y [] = refl
length-put_second y (z ∷ names) = refl

length-last_first : (names : List String) → length (last_first names) ≡ length names
unfolding last_first
length-last_first [] = refl
length-last_first (y ∷ names) =
    length-put_second y (last_first names) ∙ ap suc (length-last_first names)

module _ (removed : List String) (x : String) where
  -- how often the name stays of a list
  unfoldable pub left : List String → ℕ
  left names = if is_one removed x then 0 else count x names

  left-cons :
      (y : String) (names : List String)
      → left (y ∷ names) ≡ (if is_one removed y then 0 else count x (y ∷ [])) + left names
  unfolding left count
  left-cons y names = elim (Bool-cases (str_eq y x)) [
    | inl same ↦
        let e : is_one removed y ≡ is_one removed x = ap (is_one removed) ((eq_iff y x).0 same) in
        rw (same, e) (ground arith)
    | inr other ↦ rw other (ground arith)
  ]

  left-nil : left [] ≡ 0
  unfolding left count
  left-nil = elim (Bool-cases (is_one removed x)) [
    | inl goes ↦ rw goes refl
    | inr stays ↦ rw stays refl
  ]

  left-last_first : (names : List String) → left (last_first names) ≡ left names
  unfolding left
  left-last_first names = ap (λ n. if is_one removed x then 0 else n) (count-last_first x names)

  removal_loop-left :
      (turns : ℕ) (front window : List String)
      → length window ≤ turns
      → count x (removal_loop turns removed front window) ≡ count x front + left window
  unfolding removal_loop
  removal_loop-left zero front [] h = omega (arith, left-nil)
  removal_loop-left zero front (y ∷ window) h = absurd (omega arith)
  removal_loop-left (suc turns) front [] h = omega (arith, left-nil)
  removal_loop-left (suc turns) front (y ∷ window) h = elim (Bool-cases (is_one removed y)) [
    | inl goes ↦
        let rest =
          removal_loop-left turns front (last_first window)
            (omega (arith, length-last_first window, h)) in
        let head : left (y ∷ window) ≡ 0 + left window = left-cons y window ∙ rw goes refl in
        rw goes (rest ∙ omega (arith, left-last_first window, head))
    | inr stays ↦
        let rest = removal_loop-left turns (front ++ y ∷ []) window (omega (arith, h)) in
        let head : left (y ∷ window) ≡ count x (y ∷ []) + left window =
          left-cons y window ∙ rw stays refl in
        rw stays (rest ∙ omega (arith, count-append x front (y ∷ []), head))
  ]

removal-put :
    (stored : Bool) (alias : String) (removed before : List String) (aliases : Dict (List String))
    → get_indexes_for_alias aliases alias ≡ some before
    → (remove_indexes_from_alias stored alias removed aliases).1
      ≡ Dict.put aliases alias (removal_loop (length before) removed [] before)
unfolding get_indexes_for_alias remove_indexes_from_alias remove_found set_metadata
removal-put true alias removed before aliases there =
    ap (λ o. (remove_found true alias removed aliases o).1) there
removal-put false alias removed before aliases there =
    ap (λ o. (remove_found false alias removed aliases o).1) there

-- An alias that is there has afterwards as often as before each index that is not to be removed, and
-- none that is, whether or not the metadata are stored; the other aliases keep their indexes.
pub removal-left :
    (stored : Bool) (alias : String) (removed before : List String) (aliases : Dict (List String))
    → get_indexes_for_alias aliases alias ≡ some before
    → ((now : List String) × (get_indexes_for_alias
            (remove_indexes_from_alias stored alias removed aliases).1
            alias
          ≡ some now)
        × ((x : String) → count x now ≡ (if is_one removed x then 0 else count x before)))
      × ((other : String)
          → str_eq alias other ≡ false
          → get_indexes_for_alias (remove_indexes_from_alias stored alias removed aliases).1 other
            ≡ get_indexes_for_alias aliases other)
unfolding get_indexes_for_alias left count
removal-left stored alias removed before aliases there =
    let now = removal_loop (length before) removed [] before in
    let put = removal-put stored alias removed before aliases there in
    (
      (
        now,
        ap (λ m. Dict.get m alias) put
            ∙ Dict.get-put aliases alias now alias
            ∙ rw (eq_refl alias) refl,
        λ x. removal_loop-left removed x (length before) [] before (omega arith) ∙ omega arith,
      ),
      λ other h. ap (λ m. Dict.get m other) put ∙ Dict.get-put aliases alias now other ∙ rw h refl,
    )
