-- ===== src/Redo/NewBlock.antt =====
-- The block that `Write` adds for a new key.
use zincsearch.Prelude.{
  ◌++◌, ◌+◌, ◌<◌, ◌≡◌, none, replicate, some, ◌^◌, ◌≢◌, ◌≤◌, ==_iff, Bool-cases, ap, inl, ◌∙◌, ◌⊎◌,
  arith, inr, length-append, refl, ◌==◌, subst, sym, ◌-◌,
}
use zincsearch.Redo.{
  Log, slice, uint64, bytes_of, put_uint64, put_index, byte_at, List, ℕ, Option, length, ◌++◌, ◌+◌,
}
use zincsearch.Redo.Bytes.{
  length-copy, slice-copy_same, slice-copy-Apart, slice-append, slice-append_after, uint64-bytes_of,
}
use zincsearch.Redo.WellFormed.{IsLog}

-- The log with an empty block for a new key.
abbrev pub new_block : Log → ℕ → Log
new_block l key = record l {
  index = put_index l.index key (length l.bytes + 8);
  bytes = put_uint64 (l.bytes ++ replicate 80 0) (length l.bytes) key;
}

pub put_index-same : (index : ℕ → Option ℕ) (key n : ℕ) → put_index index key n key ≡ some n
unfolding put_index
put_index-same index key n = rw ((==_iff key key).1 refl) refl

pub put_index-other :
    (index : ℕ → Option ℕ) (key n k : ℕ) → k ≢ key → put_index index key n k ≡ index k
unfolding put_index
put_index-other index key n k h = elim (Bool-cases (k == key)) [
  | inl same ↦ absurd (h ((==_iff k key).0 same))
  | inr other ↦ rw other refl
]

put_index-cases :
    (index : ℕ → Option ℕ) (key m k n : ℕ)
    → put_index index key m k ≡ some n
    → ((k ≡ key) × (n ≡ m)) ⊎ (index k ≡ some n)
unfolding put_index
put_index-cases index key m k n h = elim (Bool-cases (k == key)) [
  | inl same ↦ let h' = rw same at h in inl ((==_iff k key).0 same, cc h')
  | inr other ↦ inr (rw other at h)
]

-- The bytes of a new block, and those before it.
module _ (d : List ℕ) (key : ℕ) where
  pub new_length : length (put_uint64 (d ++ replicate 80 0) (length d) key) ≡ length d + 80
  unfolding put_uint64
  new_length =
      length-copy (d ++ replicate 80 0) (length d) (bytes_of 8 key)
      ∙ length-append d (replicate 80 0)

  pub new_key :
      key < 2 ^ 64
      → uint64 (slice (put_uint64 (d ++ replicate 80 0) (length d) key) (length d) 8) ≡ key
  unfolding put_uint64 bytes_of
  new_key small =
      ap uint64 (
        slice-copy_same (d ++ replicate 80 0) (length d) (bytes_of 8 key)
          (omega (arith, length-append d (replicate 80 0))))
      ∙ uint64-bytes_of 8 key (omega arith)

  pub new_size :
      uint64 (slice (put_uint64 (d ++ replicate 80 0) (length d) key) (length d + 8) 8) ≡ 0
  unfolding put_uint64 bytes_of slice uint64 byte_at
  new_size = ap uint64 (
      slice-copy-Apart (d ++ replicate 80 0) (length d + 8) 8 (length d) (bytes_of 8 key)
        (inr (omega arith))
      ∙ slice-append_after d (replicate 80 0) 8 8)

  pub before_new :
      (m count : ℕ)
      → m + count ≤ length d
      → slice (put_uint64 (d ++ replicate 80 0) (length d) key) m count ≡ slice d m count
  unfolding put_uint64
  before_new m count h =
      slice-copy-Apart (d ++ replicate 80 0) m count (length d) (bytes_of 8 key) (inl h)
      ∙ slice-append d (replicate 80 0) m count h

pub new_block-IsLog :
    (l : Log) (key : ℕ) → IsLog l → l.index key ≡ none → key < 2 ^ 64 → IsLog (new_block l key)
new_block-IsLog l key w new small =
    let d = l.bytes in
    let long = new_length d key in
    record {
      whole = omega (arith, long, w.whole);
      placed = λ k n h. elim (put_index-cases l.index key (length d + 8) k n h) [
        | inl (e, at_end) ↦ (omega (arith, w.whole), omega (arith, long))
        | inr old ↦ ((w.placed k n old).0, omega (arith, long, (w.placed k n old).1))
      ];
      sized = λ k n h. elim (put_index-cases l.index key (length d + 8) k n h) [
        | inl (e, at_end) ↦
            subst (λ m. uint64 (slice (new_block l key).bytes m 8) ≤ 64) (sym at_end)
              (omega (arith, new_size d key))
        | inr old ↦
            subst (λ b. uint64 b ≤ 64)
              (sym (before_new d key n 8 (omega (arith, (w.placed k n old).1)))) (w.sized k n old)
      ];
      named = λ k n h. elim (put_index-cases l.index key (length d + 8) k n h) [
        | inl (e, at_end) ↦
            let start : length d ≡ n - 8 = omega (arith, at_end) in
            subst (λ m. uint64 (slice (new_block l key).bytes m 8) ≡ k) start
              (new_key d key small ∙ sym e)
        | inr old ↦
            ap uint64 (before_new d key (n - 8) 8 (omega (arith, w.placed k n old)))
            ∙ w.named k n old
      ];
      complete = λ n hn lt. elim (Bool-cases (n == length d)) [
        | inl last ↦
            subst
              (λ m.
                (new_block l key).index (uint64 (slice (new_block l key).bytes m 8)) ≡ some (m + 8))
              (sym ((==_iff n (length d)).0 last))
              (ap (put_index l.index key (length d + 8)) (new_key d key small)
                ∙ put_index-same l.index key (length d + 8))
        | inr more ↦
            let before : n < length d = ground (arith, long, lt) in
            let there = w.complete n hn before in
            ap (λ b. put_index l.index key (length d + 8) (uint64 b))
              (before_new d key n 8 (omega (arith, w.whole)))
            ∙ put_index-other l.index key (length d + 8) (uint64 (slice d n 8))
                (λ e. let there' = rw e at there in cc (there', new))
            ∙ there
      ];
    }
