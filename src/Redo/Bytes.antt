-- ===== src/Redo/Bytes.antt =====
-- The bytes of the redo log: what is copied to a place is read there, and nowhere else.
use zincsearch.Prelude.{
  ◌+◌, ◌<◌, ◌≢◌, set, ◌++◌, ◌^◌, ◌≡◌, ◌≤◌, arith, suc, zero, ◌∷◌, ◌⊎◌, [], ap, inl, refl, ◌/◌, ◌∙◌,
  inr,
}
use mathlib.Core.Path.{ap₂}
use zincsearch.Redo.{byte_at, slice, copy, bytes_of, uint64, List, ℕ, length, ◌+◌}

byte_at-set_same : (d : List ℕ) (n b : ℕ) → n < length d → byte_at (set d n b) n ≡ b
unfolding byte_at
byte_at-set_same [] n b h = omega arith
byte_at-set_same (x ∷ d) zero b h = refl
byte_at-set_same (x ∷ d) (suc n) b h = byte_at-set_same d n b (omega arith)

byte_at-set_other : (d : List ℕ) (m n b : ℕ) → m ≢ n → byte_at (set d n b) m ≡ byte_at d m
unfolding byte_at
byte_at-set_other [] m n b h = refl
byte_at-set_other (x ∷ d) zero zero b h = absurd (h refl)
byte_at-set_other (x ∷ d) zero (suc n) b h = refl
byte_at-set_other (x ∷ d) (suc m) zero b h = refl
byte_at-set_other (x ∷ d) (suc m) (suc n) b h = byte_at-set_other d m n b (λ e. h (ap suc e))

length-set : (d : List ℕ) (n b : ℕ) → length (set d n b) ≡ length d
length-set [] n b = refl
length-set (x ∷ d) zero b = refl
length-set (x ∷ d) (suc n) b = ap suc (length-set d n b)

pub length-copy : (d : List ℕ) (n : ℕ) (bytes : List ℕ) → length (copy d n bytes) ≡ length d
unfolding copy
length-copy d n [] = refl
length-copy d n (b ∷ bytes) = length-copy (set d n b) (n + 1) bytes ∙ length-set d n b

-- Two ranges, each from a place on for a number of bytes, do not overlap.
abbrev pub Apart : ℕ → ℕ → ℕ → ℕ → Type 0
Apart m count n size = (m + count ≤ n) ⊎ (n + size ≤ m)

byte_at-copy :
    (d : List ℕ) (m n : ℕ) (bytes : List ℕ)
    → Apart m 1 n (length bytes)
    → byte_at (copy d n bytes) m ≡ byte_at d m
unfolding copy
byte_at-copy d m n [] h = refl
byte_at-copy d m n (b ∷ bytes) h =
    byte_at-copy (set d n b) m (n + 1) bytes
      (elim h [ inl before ↦ inl (omega arith) | inr after ↦ inr (omega arith) ])
    ∙ byte_at-set_other d m n b (λ e. elim h [ inl before ↦ omega arith | inr after ↦ omega arith ])

pub slice-copy_same :
    (d : List ℕ) (n : ℕ) (bytes : List ℕ)
    → n + length bytes ≤ length d
    → slice (copy d n bytes) n (length bytes) ≡ bytes
unfolding slice copy
slice-copy_same d n [] h = refl
slice-copy_same d n (b ∷ bytes) h =
    ap₂ (λ x xs. x ∷ xs)
      (byte_at-copy (set d n b) n (n + 1) bytes (inl (omega arith))
        ∙ byte_at-set_same d n b (omega arith))
      (slice-copy_same (set d n b) (n + 1) bytes (omega (arith, length-set d n b)))

pub slice-copy-Apart :
    (d : List ℕ) (m count n : ℕ) (bytes : List ℕ)
    → Apart m count n (length bytes)
    → slice (copy d n bytes) m count ≡ slice d m count
unfolding slice
slice-copy-Apart d m zero n bytes h = refl
slice-copy-Apart d m (suc count) n bytes h =
    ap₂ (λ x xs. x ∷ xs)
      (byte_at-copy d m n bytes
        (elim h [ inl before ↦ inl (omega arith) | inr after ↦ inr (omega arith) ]))
      (slice-copy-Apart d (m + 1) count n bytes
        (elim h [ inl before ↦ inl (omega arith) | inr after ↦ inr (omega arith) ]))

byte_at-append : (d more : List ℕ) (n : ℕ) → n < length d → byte_at (d ++ more) n ≡ byte_at d n
unfolding byte_at
byte_at-append [] more n h = omega arith
byte_at-append (x ∷ d) more zero h = refl
byte_at-append (x ∷ d) more (suc n) h = byte_at-append d more n (omega arith)

pub slice-append :
    (d more : List ℕ) (n count : ℕ)
    → n + count ≤ length d
    → slice (d ++ more) n count ≡ slice d n count
unfolding slice
slice-append d more n zero h = refl
slice-append d more n (suc count) h =
    ap₂ (λ x xs. x ∷ xs) (byte_at-append d more n (omega arith))
      (slice-append d more (n + 1) count (omega arith))

pub uint64-bytes_of : (count n : ℕ) → n < 256 ^ count → uint64 (bytes_of count n) ≡ n
unfolding uint64 bytes_of
uint64-bytes_of zero n h = omega arith
uint64-bytes_of (suc count) n h = omega (arith, uint64-bytes_of count (n / 256) (omega arith))

byte_at-append_after :
    (d more : List ℕ) (n : ℕ) → byte_at (d ++ more) (length d + n) ≡ byte_at more n
unfolding byte_at
byte_at-append_after [] more n = ap (λ m. byte_at more m) (omega arith)
byte_at-append_after (x ∷ d) more n =
    let next : suc (length d) + n ≡ suc (length d + n) = omega arith in
    ap (λ m. byte_at (x ∷ d ++ more) m) next ∙ byte_at-append_after d more n

pub slice-append_after :
    (d more : List ℕ) (n count : ℕ) → slice (d ++ more) (length d + n) count ≡ slice more n count
unfolding slice
slice-append_after d more n zero = refl
slice-append_after d more n (suc count) =
    ap₂ (λ x xs. x ∷ xs) (byte_at-append_after d more n)
      (let next : length d + n + 1 ≡ length d + (n + 1) = omega arith in
        ap (λ m. slice (d ++ more) m count) next ∙ slice-append_after d more (n + 1) count)
