-- ===== src/Coordinator/Buffer/Queue/Kept.antt =====
-- The items of a queue that are left when those up to a sequence number are off.
use zincsearch.Prelude.{
  ℕ, suc, ◌≤◌, ◌<◌, List, [], ◌∷◌, map, true, leb, arith, ◌≡◌, refl, ap, length, All, Bool-cases,
  inl, inr, if◌then◌else◌,
}
use zincsearch.Coordinator.Buffer.{Item}
use zincsearch.Coordinator.Buffer.Queue.{total}

-- The items after a sequence number.
unfoldable pub kept : ℕ → List Item → List Item
kept up_to [] = []
kept up_to (i ∷ q) = let rest = kept up_to q in if leb i.seq up_to then rest else i ∷ rest

pub kept_later : (up_to : ℕ) (q : List Item) → All (λ j. up_to < j.seq) q → kept up_to q ≡ q
unfolding kept
kept_later up_to [] h = refl
kept_later up_to (i ∷ q) h = elim (Bool-cases (leb i.seq up_to)) [
  | inl le ↦ let lt = h.0 in absurd (ground (arith, le, lt))
  | inr gt' ↦ rw gt' (ap (λ t. i ∷ t) (kept_later up_to q h.1))
]

pub above :
    (up_to n : ℕ) (q : List Item) → up_to < n → All (λ j. n < j.seq) q → All (λ j. up_to < j.seq) q
above up_to n [] lt h = tt
above up_to n (j ∷ q) lt h = let more = h.0 in (omega (arith, lt, more), above up_to n q lt h.1)

pub length-kept : (up_to : ℕ) (q : List Item) → length (kept up_to q) ≤ length q
unfolding kept
length-kept up_to [] = omega arith
length-kept up_to (i ∷ q) = ground (arith, length-kept up_to q)

-- If none is taken off, the queue is as it was.
pub kept-same : (up_to : ℕ) (q : List Item) → length (kept up_to q) ≡ length q → kept up_to q ≡ q
unfolding kept
kept-same up_to [] h = refl
kept-same up_to (i ∷ q) h = elim (Bool-cases (leb i.seq up_to)) [
  | inl le ↦ absurd (omega (arith, length-kept up_to q, rw (le, kept) at h))
  | inr gt' ↦ rw gt' (ap (λ t. i ∷ t) (kept-same up_to q (omega (arith, rw (gt', kept) at h))))
]

pub kept-early :
    (up_to : ℕ) (i : Item) (q : List Item)
    → leb i.seq up_to ≡ true
    → kept up_to (i ∷ q) ≡ kept up_to q
unfolding kept
kept-early up_to i q h = rw h refl

pub total-kept : (up_to : ℕ) (q : List Item) → total (kept up_to q) ≤ total q
unfolding kept
total-kept up_to [] = omega arith
total-kept up_to (i ∷ q) = ground (arith, total-kept up_to q)

pub length-map : {A B : Type 0} (f : A → B) (xs : List A) → length (map f xs) ≡ length xs
length-map f [] = refl
length-map f (x ∷ xs) = ap suc (length-map f xs)
