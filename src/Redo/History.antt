-- ===== src/Redo/History.antt =====
-- A redo log after writings in a row, and opened again.
use zincsearch.Prelude.{
  ℕ, List, [], ◌∷◌, All, Bool, true, false, ◌&&◌, Result, ok, err, inl, inr, ◌<◌, ◌^◌, ◌≡◌, leb,
  ◌==◌, if◌then◌else◌, length, arith, ==_iff, false≢true, sym, ap, ◌∙◌, subst, refl, Bool-cases,
}
use zincsearch.Redo.{RedoErr, not_found, Log, write, read, read_at, open_log, open_from}
use zincsearch.Redo.WellFormed.{IsLog}
use zincsearch.Redo.Reading.{empty_log, empty_log-IsLog, write-Reads}
use zincsearch.Redo.Reopening.{open_log-read}

-- Keys and values that are written one after the other, where the file takes them all.
unfoldable pub write_all : List (ℕ × List ℕ) → Log → Log
write_all [] l = l
write_all ((key, value) ∷ rest) l = write_all rest (write true true l key value).1

-- What a key has after these: the last value that is not too long, or else what it had.
unfoldable pub latest : ℕ → List (ℕ × List ℕ) → Result RedoErr (List ℕ) → Result RedoErr (List ℕ)
latest k [] had = had
latest k ((key, value) ∷ rest) had =
    latest k rest (if k == key && leb (length value) 64 then ok value else had)

and_false : (b : Bool) → (b && false) ≡ false
and_false true = refl
and_false false = refl

-- one more writing
write-latest :
    (l : Log) (key k : ℕ) (v : List ℕ)
    → IsLog l
    → key < 2 ^ 64
    → IsLog (write true true l key v).1
      × (read (write true true l key v).1 k
          ≡ (if k == key && leb (length v) 64 then ok v else read l k))
write-latest l key k v w small = elim (write-Reads true true l key v w small) [
  | inl (short, r) ↦ (
    r.log,
    elim (Bool-cases (k == key)) [
      | inl same ↦
          let fits : leb (length v) 64 ≡ true = ground arith in
          rw (same, fits) (ap (read (write true true l key v).1) ((==_iff k key).0 same) ∙ r.own)
      | inr other ↦ rw other (r.others k (λ e. false≢true (sym other ∙ (==_iff k key).1 e)))
    ],
  )
  | inr (long, refused) ↦
      let misses : leb (length v) 64 ≡ false = ground arith in
      (
        subst (λ p. IsLog p.1) (sym refused) w,
        ap (λ p. read p.1 k) refused ∙ rw (misses, and_false (k == key)) refl,
      )
]

write_all-latest :
    (ws : List (ℕ × List ℕ)) (l : Log) (k : ℕ)
    → IsLog l
    → All (λ w. w.0 < 2 ^ 64) ws
    → IsLog (write_all ws l) × (read (write_all ws l) k ≡ latest k ws (read l k))
unfolding write_all latest
write_all-latest [] l k w h = (w, refl)
write_all-latest ((key, v) ∷ ws) l k w h =
    let (w', e) = write-latest l key k v w h.0 in
    let (last, r) = write_all-latest ws (write true true l key v).1 k w' h.1 in
    (last, r ∙ ap (latest k ws) e)

read-empty_log : (k : ℕ) → read empty_log k ≡ err not_found
unfolding read read_at open_log open_from
read-empty_log k = refl

-- When the file of a new redo log is opened again after writings that it took, a key has the last of
-- the values of at most 64 bytes that were written for it, and is not found if there was none.
pub reopened-latest :
    (no_sync : Bool) (ws : List (ℕ × List ℕ)) (k : ℕ)
    → All (λ w. w.0 < 2 ^ 64) ws
    → read (open_log no_sync (write_all ws empty_log).bytes) k ≡ latest k ws (err not_found)
reopened-latest no_sync ws k h =
    let (w, r) = write_all-latest ws empty_log k empty_log-IsLog h in
    open_log-read (write_all ws empty_log) w no_sync k ∙ r ∙ ap (latest k ws) (read-empty_log k)
