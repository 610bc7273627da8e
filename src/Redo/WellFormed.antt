-- ===== src/Redo/WellFormed.antt =====
-- What holds of a redo log that `Write` made, and that a new value keeps it.
use zincsearch.Prelude.{
  ◌%◌, ◌+◌, ◌≡◌, ◌≤◌, ap, arith, inl, some, ◌∙◌, ◌⊎◌, Bool-cases, inr, subst, ◌-◌, ltb, sym, ◌<◌,
}
use zincsearch.Redo.{
  Log, slice, uint64, bytes_of, copy, put_uint64, put_value, write_at, List, length, ℕ, ◌%◌, ◌+◌,
}
use zincsearch.Redo.Bytes.{Apart, length-copy, slice-copy_same, slice-copy-Apart, uint64-bytes_of}

-- The bytes are whole blocks, one for each key of the index, which has the place after the key.
pub record IsLog (l : Log) : Type 0 where
  pub whole : length l.bytes % 80 ≡ 0
  pub placed : (k n : ℕ) → l.index k ≡ some n → (n % 80 ≡ 8) × (n + 72 ≤ length l.bytes)
  pub sized : (k n : ℕ) → l.index k ≡ some n → uint64 (slice l.bytes n 8) ≤ 64
  pub named : (k n : ℕ) → l.index k ≡ some n → uint64 (slice l.bytes (n - 8) 8) ≡ k
  pub complete :
      (n : ℕ)
      → n % 80 ≡ 0
      → n < length l.bytes
      → l.index (uint64 (slice l.bytes n 8)) ≡ some (n + 8)

-- What `put_value` leaves and what it puts.
module _ (d : List ℕ) (o : ℕ) (v : List ℕ) where
  pub length-put_value : length (put_value d o v) ≡ length d
  unfolding put_value put_uint64
  length-put_value = length-copy (copy d o (bytes_of 8 (length v))) (o + 8) v ∙ length-copy d o _

  pub put_value-size :
      o + 8 ≤ length d → length v ≤ 64 → uint64 (slice (put_value d o v) o 8) ≡ length v
  unfolding put_value put_uint64 bytes_of
  put_value-size room short =
      let head = bytes_of 8 (length v) in
      ap uint64 (
        slice-copy-Apart (copy d o head) o 8 (o + 8) v (inl (omega arith))
        ∙ slice-copy_same d o head room)
      ∙ uint64-bytes_of 8 (length v) (omega arith)

  pub put_value-value :
      o + 72 ≤ length d → length v ≤ 64 → slice (put_value d o v) (o + 8) (length v) ≡ v
  unfolding put_value put_uint64 bytes_of
  put_value-value room short =
      slice-copy_same (copy d o (bytes_of 8 (length v))) (o + 8) v
        (omega (arith, length-copy d o (bytes_of 8 (length v))))

  pub put_value-Apart :
      (m count : ℕ)
      → length v ≤ 64
      → Apart m count o 72
      → slice (put_value d o v) m count ≡ slice d m count
  unfolding put_value put_uint64 bytes_of
  put_value-Apart m count short h =
      let head = bytes_of 8 (length v) in
      slice-copy-Apart (copy d o head) m count (o + 8) v
        (elim h [ inl before ↦ inl (omega arith) | inr after ↦ inr (omega arith) ])
      ∙ slice-copy-Apart d m count o head
          (elim h [ inl before ↦ inl before | inr after ↦ inr (omega arith) ])

-- Two places are the same, or the blocks of the two do not overlap.
pub same_or_apart : (m n : ℕ) → m % 80 ≡ 8 → n % 80 ≡ 8 → (m ≡ n) ⊎ ((m + 80 ≤ n) ⊎ (n + 80 ≤ m))
same_or_apart m n hm hn = elim (Bool-cases (ltb m n)) [
  | inl less ↦ inr (inl (ground arith))
  | inr more ↦ elim (Bool-cases (ltb n m)) [
    | inl less ↦ inr (inr (ground arith))
    | inr even ↦ inl (ground arith)
  ]
]

-- A key stands apart from the values.
key-Apart : (m o : ℕ) → m % 80 ≡ 0 → o % 80 ≡ 8 → Apart m 8 o 72
key-Apart m o hm ho = elim (Bool-cases (ltb m o)) [
  | inl before ↦ inl (ground arith)
  | inr after ↦ inr (ground arith)
]

-- A new value at the place of a key.
pub overwrite-IsLog :
    (l : Log) (key o : ℕ) (v : List ℕ)
    → IsLog l
    → l.index key ≡ some o
    → length v ≤ 64
    → IsLog (write_at l key v (some o))
unfolding write_at
overwrite-IsLog l key o v w found short =
    let d = l.bytes in
    let (place, room) = w.placed key o found in
    let long = length-put_value d o v in
    record {
      whole = ap (λ n. n % 80) long ∙ w.whole;
      placed = λ k n h. ((w.placed k n h).0, omega (arith, long, (w.placed k n h).1));
      sized = λ k n h. elim (same_or_apart n o (w.placed k n h).0 place) [
        | inl same ↦
            let size = put_value-size d o v (omega arith) short in
            subst (λ m. uint64 (slice (put_value d o v) m 8) ≤ 64) (sym same) (omega (arith, size))
        | inr apart ↦
            let kept =
              put_value-Apart d o v n 8 short
                (elim apart [ inl before ↦ inl (omega arith) | inr after ↦ inr (omega arith) ]) in
            subst (λ b. uint64 b ≤ 64) (sym kept) (w.sized k n h)
      ];
      named = λ k n h.
          let kept =
            put_value-Apart d o v (n - 8) 8 short
              (key-Apart (n - 8) o (omega (arith, (w.placed k n h).0)) place) in
          ap uint64 kept ∙ w.named k n h;
      complete = λ n hn lt.
          let kept = put_value-Apart d o v n 8 short (key-Apart n o hn place) in
          ap (λ b. l.index (uint64 b)) kept ∙ w.complete n hn (omega (arith, long, lt));
    }
