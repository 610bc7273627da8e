-- ===== src/Coordinator/Buffer/Queue/Numbers.antt =====
-- How the entries of a call of `Append` are numbered, measured and checked.
use zincsearch.Prelude.{
  ℕ, ◌+◌, ◌≤◌, ◌<◌, ◌^◌, List, [], ◌∷◌, ◌++◌, map, true, false, ltb, arith, ◌≡◌, ◌≢◌, refl, ap,
  length, All, some, ok, err, Bool-cases, inl, inr, All-append, append_assoc,
}
use zincsearch.Coordinator.Buffer.BigEndian.{Bytes, bytes_lt, be64, be64-lt, un64-be64, length-be64}
use zincsearch.Coordinator.Buffer.{
  Entry, Item, full, has_nul, size, u64, check_entries, uint_or_zero, count_key, bytes_key,
}
use zincsearch.Coordinator.Buffer.Queue.{encode_item, total, IsAscending}

-- The items that new entries become.
abbrev pub number : ℕ → List Entry → List Item
number n [] = []
number n (e ∷ es) = record { seq = n + 1; entry = e } ∷ number (n + 1) es

abbrev pub size_all : List Entry → ℕ
size_all [] = 0
size_all (e ∷ es) = size e + size_all es

pub total-number : (n : ℕ) (es : List Entry) → total (number n es) ≡ size_all es
total-number n [] = refl
total-number n (e ∷ es) = omega (arith, total-number (n + 1) es)

pub length-number : (n : ℕ) (es : List Entry) → length (number n es) ≡ length es
length-number n [] = refl
length-number n (e ∷ es) = omega (arith, length-number (n + 1) es)

pub total-append : (q r : List Item) → total (q ++ r) ≡ total q + total r
total-append [] r = omega arith
total-append (i ∷ q) r = omega (arith, total-append q r)

pub keys_before :
    (n : ℕ) (q : List Item)
    → n + 1 < 2 ^ 64
    → All (λ i. i.seq ≤ n) q
    → All (λ e. bytes_lt e.0 (be64 (n + 1)) ≡ true) (map encode_item q)
keys_before n [] room h = tt
keys_before n (i ∷ q) room h =
    let le = h.0 in (be64-lt i.seq (n + 1) (omega (arith, le)) room, keys_before n q room h.1)

pub below_mono : (m n : ℕ) (q : List Item) → m ≤ n → All (λ i. i.seq ≤ m) q → All (λ i. i.seq ≤ n) q
below_mono m n [] le h = tt
below_mono m n (i ∷ q) le h = let small = h.0 in (omega (arith, small, le), below_mono m n q le h.1)

pub IsAscending-append :
    (n : ℕ) (q : List Item) (i : Item)
    → n < i.seq
    → All (λ j. j.seq ≤ n) q
    → IsAscending q
    → IsAscending (q ++ i ∷ [])
IsAscending-append n [] i lt below h = (tt, tt)
IsAscending-append n (j ∷ q) i lt below h =
    let le = below.0 in
    (
      All-append (λ k. j.seq < k.seq) q (i ∷ []) h.0 (omega (arith, le, lt), tt),
      IsAscending-append n q i lt below.1 h.1,
    )

pub map-append :
    {A B : Type 0} (f : A → B) (xs ys : List A) → map f (xs ++ ys) ≡ map f xs ++ map f ys
map-append f [] ys = refl
map-append f (x ∷ xs) ys = ap (λ t. f x ∷ t) (map-append f xs ys)

pub rejoin :
    (q : List Item) (n : ℕ) (e : Entry) (es : List Entry) (m : ℕ)
    → m ≡ n + 1
    → (q ++ record { seq = n + 1; entry = e } ∷ []) ++ number m es ≡ q ++ number n (e ∷ es)
rejoin q n e es m h =
    rw h (append_assoc q (record { seq = n + 1; entry = e } ∷ []) (number (n + 1) es))

pub head : Bytes → ℕ
head [] = 0
head (b ∷ bs) = b

pub keys_differ : bytes_key ≢ count_key
unfolding head
keys_differ e = let first : ◌≡◌ {A = ℕ} 98 99 = ap head e in omega (arith, first)

pub uint-be64 : (n : ℕ) → n < 2 ^ 64 → uint_or_zero (some (be64 n)) ≡ n
unfolding uint_or_zero
uint-be64 n h = rw (length-be64 n, un64-be64 n h) refl

-- What the checks of `Append` let through.
pub check_entries-ok :
    (max' t : ℕ) (es : List Entry) (sum : ℕ)
    → t + size_all es < 2 ^ 64
    → check_entries max' t es ≡ ok sum
    → (sum ≡ t + size_all es) × All (λ e. has_nul e.id ≡ false) es
unfolding check_entries
check_entries-ok max' t [] sum room h = (ground arith, tt)
check_entries-ok max' t (e ∷ es) sum room h =
    let small : t + size e < 2 ^ 64 = omega arith in
    let wraps : u64 (t + size e) ≡ t + size e = omega (arith, small) in
    elim (Bool-cases (has_nul e.id)) [
      | inl nul ↦ cc (rw (nul, check_entries) at h)
      | inr clean ↦ elim (Bool-cases (ltb max' (size e))) [
        | inl large ↦ cc (rw (clean, large, check_entries) at h)
        | inr fits ↦
            let (same, rest) =
              check_entries-ok max' (t + size e) es sum (omega arith)
                (rw (clean, fits, wraps, check_entries) at h) in
            (omega (arith, same), (clean, rest))
      ]
    ]

pub check_entries-fits : (max' t : ℕ) (es : List Entry) → check_entries max' t es ≢ err full
unfolding check_entries
check_entries-fits max' t [] h = cc
check_entries-fits max' t (e ∷ es) h = elim (Bool-cases (has_nul e.id)) [
  | inl nul ↦ cc (rw (nul, check_entries) at h)
  | inr clean ↦ elim (Bool-cases (ltb max' (size e))) [
    | inl large ↦ cc (rw (clean, large, check_entries) at h)
    | inr fits ↦
        check_entries-fits max' (u64 (t + size e)) es (rw (clean, fits, check_entries) at h)
  ]
]
