-- ===== src/Redo/Reading.antt =====
-- `Read` after `Write`.
use zincsearch.Prelude.{
  ◌≢◌, arith, ◌<◌, ◌≡◌, ok, some, ◌^◌, length, ◌≤◌, Option-cases, ◌⊎◌, err, inl, inr, Bool-cases,
  ltb, refl, ap, ◌+◌, false, none, ◌∙◌, [], subst, sym, ◌-◌,
}
use zincsearch.Redo.{
  Log, slice, uint64, put_value, write, write_at, read, read_at, Bool, ℕ, List, value_too_large,
  open_log, open_from,
}
use zincsearch.Redo.WellFormed.{
  IsLog, overwrite-IsLog, put_value-size, put_value-value, put_value-Apart, same_or_apart,
}
use zincsearch.Redo.NewBlock.{
  new_block, new_block-IsLog, put_index-same, put_index-other, before_new,
}

abbrev pub empty_log : Log
empty_log = open_log false []

pub empty_log-IsLog : IsLog empty_log
unfolding open_log open_from
empty_log-IsLog = record {
  whole = refl;
  placed = λ k n h. cc h;
  sized = λ k n h. cc h;
  named = λ k n h. cc h;
  complete = λ n hn lt. absurd (omega arith);
}

-- `after` is a log in which `key` has `value`, and the other keys what they had in `l`.
pub record Reads (l after : Log) (key : ℕ) (value : List ℕ) : Type 0 where
  pub log : IsLog after
  pub own : read after key ≡ ok value
  pub others : (k : ℕ) → k ≢ key → read after k ≡ read l k

-- A value whose bytes are kept is read as before.
read_at-same :
    (l after : Log) (n : ℕ)
    → slice after.bytes n 8 ≡ slice l.bytes n 8
    → slice after.bytes (n + 8) (uint64 (slice l.bytes n 8))
      ≡ slice l.bytes (n + 8) (uint64 (slice l.bytes n 8))
    → read_at after (some n) ≡ read_at l (some n)
unfolding read_at
read_at-same l after n size value =
    ap ok (ap (λ b. slice after.bytes (n + 8) (uint64 b)) size ∙ value)

overwrite-Reads :
    (l : Log) (key o : ℕ) (v : List ℕ)
    → IsLog l
    → l.index key ≡ some o
    → length v ≤ 64
    → Reads l (write_at l key v (some o)) key v
unfolding write_at read read_at
overwrite-Reads l key o v w found short =
    let d = l.bytes in
    let (place, room) = w.placed key o found in
    record {
      log = overwrite-IsLog l key o v w found short;
      own =
          ap (read_at (write_at l key v (some o))) found
          ∙ ap ok (
              ap (slice (put_value d o v) (o + 8)) (put_value-size d o v (omega arith) short)
              ∙ put_value-value d o v room short);
      others = λ k other. elim (Option-cases (l.index k)) [
        | inl missing ↦
            ap (read_at (write_at l key v (some o))) missing ∙ sym (ap (read_at l) missing)
        | inr (n, there) ↦
            ap (read_at (write_at l key v (some o))) there
            ∙ elim (same_or_apart n o (w.placed k n there).0 place) [
              | inl same ↦ absurd (
                  other (
                    sym (w.named k n there)
                    ∙ ap (λ m. uint64 (slice d (m - 8) 8)) same
                    ∙ w.named key o found))
              | inr apart ↦
                  read_at-same l (write_at l key v (some o)) n
                    (put_value-Apart d o v n 8 short (elim apart [
                      | inl before ↦ inl (omega arith)
                      | inr after ↦ inr (omega arith)
                    ]))
                    (put_value-Apart d o v (n + 8) (uint64 (slice d n 8)) short (elim apart [
                      | inl before ↦ inl (omega (arith, w.sized k n there))
                      | inr after ↦ inr (omega arith)
                    ]))
            ]
            ∙ sym (ap (read_at l) there)
      ];
    }

new_block-read : (l : Log) (key k : ℕ) → IsLog l → k ≢ key → read (new_block l key) k ≡ read l k
unfolding read read_at
new_block-read l key k w other =
    let d = l.bytes in
    ap (read_at (new_block l key)) (put_index-other l.index key (length d + 8) k other)
    ∙ elim (Option-cases (l.index k)) [
      | inl missing ↦ ap (read_at (new_block l key)) missing ∙ sym (ap (read_at l) missing)
      | inr (n, there) ↦
          ap (read_at (new_block l key)) there
          ∙ read_at-same l (new_block l key) n
              (before_new d key n 8 (omega (arith, (w.placed k n there).1)))
              (before_new d key (n + 8) (uint64 (slice d n 8))
                (omega (arith, (w.placed k n there).1, w.sized k n there)))
          ∙ sym (ap (read_at l) there)
    ]

write_at-Reads :
    (l : Log) (key : ℕ) (v : List ℕ)
    → IsLog l
    → key < 2 ^ 64
    → length v ≤ 64
    → Reads l (write_at l key v (l.index key)) key v
unfolding write_at
write_at-Reads l key v w small short = elim (Option-cases (l.index key)) [
  | inl new ↦
      let r =
        overwrite-Reads (new_block l key) key (length l.bytes + 8) v
          (new_block-IsLog l key w new small) (put_index-same l.index key (length l.bytes + 8))
          short in
      let added : Reads l (write_at l key v none) key v = record {
        log = r.log;
        own = r.own;
        others = λ k h. r.others k h ∙ new_block-read l key k w h;
      } in
      subst (λ p. Reads l (write_at l key v p) key v) (sym new) added
  | inr (o, there) ↦
      subst (λ p. Reads l (write_at l key v p) key v) (sym there)
        (overwrite-Reads l key o v w there short)
]

-- A value of at most 64 bytes that is written is the one that is read, and the other keys keep their
-- values, in the log in memory, whether or not the file takes the bytes. A longer one is refused,
-- and leaves the log.
pub write-Reads :
    (written synced : Bool) (l : Log) (key : ℕ) (v : List ℕ)
    → IsLog l
    → key < 2 ^ 64
    → ((length v ≤ 64) × Reads l (write written synced l key v).1 key v)
      ⊎ ((64 < length v) × (write written synced l key v ≡ (err value_too_large, l)))
unfolding write
write-Reads written synced l key v w small = elim (Bool-cases (ltb 64 (length v))) [
  | inl long ↦ inr (ground arith, rw long refl)
  | inr short ↦ inl (ground arith, rw short (write_at-Reads l key v w small (ground arith)))
]
