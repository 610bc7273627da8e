-- ===== src/Redo/Reopening.antt =====
-- `Open` reads the index back from the file.
use zincsearch.Prelude.{
  ◌%◌, ◌≡◌, some, ◌+◌, ◌<◌, if◌then◌else◌, length, ◌*◌, Bool-cases, ltb, ◌∙◌, none, suc, ◌==◌,
  arith, inl, ==_iff, zero, ap, sym, inr, false, false≢true, refl, ◌/◌, ◌≢◌, Option-cases, ◌-◌,
}
use zincsearch.Redo.{
  Log, slice, uint64, put_index, open_log, open_from, read, read_at, Bool, ℕ, Option, ◌%◌,
}
use zincsearch.Redo.WellFormed.{IsLog}
use zincsearch.Redo.NewBlock.{put_index-same, put_index-other}

-- the place, where it is before the n-th byte
before : ℕ → Option ℕ → Option ℕ
before n none = none
before n (some m) = if ltb m n then some m else none

none-before : (place : Option ℕ) → none ≡ before 0 place
unfolding before
none-before none = refl
none-before (some m) = ground arith

all_before :
    (n : ℕ) (place : Option ℕ) → ((m : ℕ) → place ≡ some m → m < n) → before n place ≡ place
unfolding before
all_before n none h = refl
all_before n (some m) h = let lt = h m refl in ground arith

-- No place but n + 8 lies in the block at n.
before-later :
    (m n : ℕ) → m % 80 ≡ 8 → n % 80 ≡ 0 → m ≢ n + 8 → before n (some m) ≡ before (n + 80) (some m)
unfolding before
before-later m n hm hn other = ground arith

module _ (l : Log) (w : IsLog l) where
  -- A key that is not the one of the block at n.
  unchanged :
      (n k : ℕ)
      → n % 80 ≡ 0
      → (k == uint64 (slice l.bytes n 8)) ≡ false
      → before n (l.index k) ≡ before (n + 80) (l.index k)
  unfolding before
  unchanged n k hn differs = elim (Option-cases (l.index k)) [
    | inl missing ↦ ap (before n) missing ∙ sym (ap (before (n + 80)) missing)
    | inr (m, there) ↦
        let other : m ≢ n + 8 = λ e.
          let start : m - 8 ≡ n = omega (arith, e) in
          let e' : k ≡ uint64 (slice l.bytes n 8) =
            sym (w.named k m there) ∙ ap (λ x. uint64 (slice l.bytes x 8)) start in
          false≢true (sym differs ∙ (==_iff k (uint64 (slice l.bytes n 8))).1 e') in
        ap (before n) there
        ∙ before-later m n (w.placed k m there).0 hn other
        ∙ sym (ap (before (n + 80)) there)
  ]

  -- One turn of the loop: the index of the blocks before, with the block that is read.
  next_block :
      (n k : ℕ)
      → n % 80 ≡ 0
      → n < length l.bytes
      → (index : ℕ → Option ℕ) → ((j : ℕ) → index j ≡ before n (l.index j))
      → put_index index (uint64 (slice l.bytes n 8)) (n + 8) k ≡ before (n + 80) (l.index k)
  unfolding before
  next_block n k hn lt index so_far =
      let key = uint64 (slice l.bytes n 8) in
      elim (Bool-cases (k == key)) [
        | inl same ↦
            let e : k ≡ key = (==_iff k key).0 same in
            ap (λ x. put_index index key (n + 8) x) e
            ∙ put_index-same index key (n + 8)
            ∙ (let early : before (n + 80) (some (n + 8)) ≡ some (n + 8) = ground arith in
                sym early)
            ∙ ap (before (n + 80)) (sym (w.complete n hn lt))
            ∙ ap (λ x. before (n + 80) (l.index x)) (sym e)
        | inr differs ↦
            put_index-other index key (n + 8) k (λ e. false≢true (sym differs ∙ (==_iff k key).1 e))
            ∙ so_far k
            ∙ unchanged n k hn differs
      ]

  open_from-index :
      (blocks n : ℕ)
      → n % 80 ≡ 0
      → n + 80 * blocks ≡ length l.bytes
      → (index : ℕ → Option ℕ) → ((j : ℕ) → index j ≡ before n (l.index j))
      → (k : ℕ) → open_from blocks n l.bytes index k ≡ l.index k
  unfolding open_from
  open_from-index zero n hn long index so_far k =
      so_far k ∙ all_before n (l.index k) (λ m there. omega (arith, long, (w.placed k m there).1))
  open_from-index (suc blocks) n hn long index so_far k =
      open_from-index blocks (n + 80) (omega (arith, hn)) (omega (arith, long)) _
        (λ j. next_block n j hn (omega (arith, long)) index so_far) k

  same_bytes :
      (no_sync : Bool) (place : Option ℕ)
      → read_at (open_log no_sync l.bytes) place ≡ read_at l place
  unfolding open_log read_at
  same_bytes no_sync none = refl
  same_bytes no_sync (some n) = refl

  -- A log that is opened again reads every key as before.
  pub open_log-read : (no_sync : Bool) (k : ℕ) → read (open_log no_sync l.bytes) k ≡ read l k
  unfolding open_log read read_at
  open_log-read no_sync k =
      ap (read_at (open_log no_sync l.bytes)) (
        open_from-index (length l.bytes / 80) 0 refl (omega (arith, w.whole)) (λ x. none)
          (λ j. none-before (l.index j)) k)
      ∙ same_bytes no_sync (l.index k)
