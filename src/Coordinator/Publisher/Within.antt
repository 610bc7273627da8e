-- ===== src/Coordinator/Publisher/Within.antt =====
-- One list in order within another, and where a batch of the buffer ends.
use zincsearch.Prelude.{
  ◌<◌, List, [], ◌∷◌, ◌++◌, map, ◌≡◌, refl, ap, subst, arith, All, Bool-cases, leb, inl, inr,
}
use zincsearch.Coordinator.Buffer.{Entry, Item}
use zincsearch.Coordinator.Buffer.Queue.{IsAscending}
use zincsearch.Coordinator.Buffer.Queue.Kept.{kept, kept_later}

-- The elements of the first list stand in the second, in this order.
pub data IsWithin {A : Type 0} : List A → List A → Type 0 where
  done : {ys : List A} → IsWithin [] ys
  takes : {x : A} {xs ys : List A} → IsWithin xs ys → IsWithin (x ∷ xs) (x ∷ ys)
  skips : {y : A} {xs ys : List A} → IsWithin xs ys → IsWithin xs (y ∷ ys)

module _ {A : Type 0} where
  pub IsWithin-grow : {xs ys : List A} (zs : List A) → IsWithin xs ys → IsWithin xs (ys ++ zs)
  IsWithin-grow zs done = done
  IsWithin-grow zs (takes h) = takes (IsWithin-grow zs h)
  IsWithin-grow zs (skips h) = skips (IsWithin-grow zs h)

  last-IsWithin : (x : A) (ys : List A) → IsWithin (x ∷ []) (ys ++ x ∷ [])
  last-IsWithin x [] = takes done
  last-IsWithin x (y ∷ ys) = skips (last-IsWithin x ys)

  pub IsWithin-both :
      {xs ys : List A} (x : A) → IsWithin xs ys → IsWithin (xs ++ x ∷ []) (ys ++ x ∷ [])
  IsWithin-both {ys = ys} x done = last-IsWithin x ys
  IsWithin-both x (takes h) = takes (IsWithin-both x h)
  IsWithin-both x (skips h) = skips (IsWithin-both x h)

  front :
      (zs : List A) {ws ys : List A}
      → IsWithin ws ys
      → (xs : List A) → ws ≡ xs ++ zs
      → IsWithin xs ys
  front zs h [] e = done
  front zs done (x ∷ xs) e = cc
  front zs (takes {x = w} {xs = us} {ys = vs} h) (x ∷ xs) e =
      subst (λ v. IsWithin (v ∷ xs) (w ∷ vs)) (cc (e))
        (takes (front zs {ws = us} {ys = vs} h xs (cc (e))))
  front zs (skips {xs = us} {ys = vs} h) (x ∷ xs) e =
      skips (front zs {ws = us} {ys = vs} h (x ∷ xs) e)

  pub IsWithin-front : (xs zs : List A) {ys : List A} → IsWithin (xs ++ zs) ys → IsWithin xs ys
  IsWithin-front xs zs h = front zs h xs refl

abbrev pub entries : List Item → List Entry
entries = map (λ i. i.entry)

pub entries-append : (q r : List Item) → entries (q ++ r) ≡ entries q ++ entries r
entries-append [] r = refl
entries-append (i ∷ q) r = ap (λ t. i.entry ∷ t) (entries-append q r)

All-last : (P : Item → Type 0) (s : List Item) (i : Item) (r : List Item) → All P (s ++ i ∷ r) → P i
All-last P [] i r h = h.0
All-last P (j ∷ s) i r h = All-last P s i r h.1

-- Taking off the items up to one of them leaves those behind it.
pub kept-split :
    (s : List Item) (i : Item) (r : List Item)
    → IsAscending (s ++ i ∷ r)
    → kept i.seq (s ++ i ∷ r) ≡ r
unfolding kept
kept-split [] i r h = elim (Bool-cases (leb i.seq i.seq)) [
  | inl le ↦ rw le (kept_later i.seq r h.0)
  | inr no' ↦ absurd (ground (arith, no'))
]
kept-split (j ∷ s) i r h =
    let lt = All-last (λ k. j.seq < k.seq) s i r h.0 in
    elim (Bool-cases (leb j.seq i.seq)) [
      | inl le ↦ rw le (kept-split s i r h.1)
      | inr no' ↦ absurd (ground (arith, no', lt))
    ]
