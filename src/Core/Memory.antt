-- ===== src/Core/Memory.antt =====
-- An engine in memory that keeps the promises that `Core` relies on: a second layer shard is a list
-- of documents, and a log a list of entries.
use zincsearch.Core.Wal.Flushing.{RedoLaws}
use zincsearch.Core.Wal.{RedoLog}
use zincsearch.Core.Documents.Origin.{WalLaws}
use zincsearch.Core.Merge.Settled.{IsRange}
use zincsearch.Core.Merge.{RangeOrder}
use zincsearch.Core.Wal.{entry_at}
use zincsearch.Core.Wal.Undoing.{LogForLatest, ForLatest}
use zincsearch.Prelude.{
  ℕ, zero, suc, ◌≡◌, String, List, [], ◌∷◌, ◌++◌, Result, ok, err, str_eq, if◌then◌else◌, length,
  arith, refl, subst, eq_iff, ok_injective, ◌∙◌, ◌==◌, ◌⊎◌, inr, sym, inl, All, ◌≢◌,
}
use zincsearch.Core.Engine.{
  Engine, Laws, Op, add, replace, drop_id, drops, adds, LogEntry, CoreErr, not_found,
}

abbrev Docs : Type 0
Docs = List (String × ℕ)

unfoldable pub found_in : String → Docs → List ℕ
found_in k [] = []
found_in k ((j, c) ∷ x) = if str_eq j k then c ∷ found_in k x else found_in k x

unfoldable pub kept : List (Op ℕ) → Docs → Docs
kept ops [] = []
kept ops ((j, c) ∷ x) = if drops j ops then kept ops x else (j, c) ∷ kept ops x

unfoldable pub added : List (Op ℕ) → Docs
added [] = []
added (add j c ∷ ops) = (j, c) ∷ added ops
added (replace j c ∷ ops) = (j, c) ∷ added ops
added (drop_id j ∷ ops) = added ops

unfoldable pub read_entry : List (LogEntry ℕ) → ℕ → Result CoreErr (LogEntry ℕ)
read_entry w zero = err not_found
read_entry [] (suc n) = err not_found
read_entry (e ∷ w) (suc zero) = ok e
read_entry (e ∷ w) (suc (suc n)) = read_entry w (suc n)

abbrev pub memory : Engine
memory = record {
  Index = Docs;
  Content = ℕ;
  Data = ℕ;
  Wal = List (LogEntry ℕ);
  Bytes = LogEntry ℕ;
  fresh = [];
  size = λ x. length x;
  found = found_in;
  batch = λ ops x. ok (kept ops x ++ added ops);
  build = λ k d. ok d;
  marshal = λ e. e;
  unmarshal = λ e. ok e;
  wal_write = λ e w. (ok tt, w ++ e ∷ []);
  wal_last = λ w. ok (length w);
  wal_read = read_entry;
  wal_truncate = λ n w. (ok tt, w);
}

found-append : (k : String) (x y : Docs) → found_in k (x ++ y) ≡ found_in k x ++ found_in k y
unfolding found_in
found-append k [] y = refl
found-append k ((j, c) ∷ x) y = ground (arith, found-append k x y)

found-kept :
    (k : String) (ops : List (Op ℕ)) (x : Docs)
    → found_in k (kept ops x) ≡ (if drops k ops then [] else found_in k x)
unfolding found_in kept
found-kept k ops [] = ground arith
found-kept k ops ((j, c) ∷ x) = ground (arith, found-kept k ops x, eq_iff j k)

found-added : (k : String) (ops : List (Op ℕ)) → found_in k (added ops) ≡ adds k ops
unfolding found_in added adds
found-added k [] = refl
found-added k (add j c ∷ ops) = ground (arith, found-added k ops)
found-added k (replace j c ∷ ops) = ground (arith, found-added k ops)
found-added k (drop_id j ∷ ops) = found-added k ops

memory_batch :
    (ops : List (Op ℕ)) (x y : Docs)
    → memory.batch ops x ≡ ok y
    → (k : String) → found_in k y ≡ (if drops k ops then [] else found_in k x) ++ adds k ops
memory_batch ops x y h k =
    subst (λ z. found_in k z ≡ (if drops k ops then [] else found_in k x) ++ adds k ops)
      (ok_injective h)
      (found-append k (kept ops x) (added ops) ∙ rw (found-kept k ops x, found-added k ops) refl)

pub memory-Laws : Laws memory
unfolding found_in
memory-Laws = record { batch_found = memory_batch; found_fresh = λ k. refl }

-- The range over a map in the order in which its keys came.
abbrev pub in_order : RangeOrder ℕ
in_order = record { docs = λ m. m; groups = λ w. w }

pub in_order-IsRange : IsRange in_order
in_order-IsRange = record {
  docs_get = λ m k. refl;
  docs_IsMap = λ m h. h;
  groups_at = λ w s. refl;
  groups_IsGroups = λ w h. h;
}

read-append :
    (w : List (LogEntry ℕ)) (e x : LogEntry ℕ) (n : ℕ)
    → read_entry (w ++ e ∷ []) n ≡ ok x
    → (read_entry w n ≡ ok x) ⊎ (x ≡ e)
unfolding read_entry
read-append w e x zero h = cc
read-append [] e x (suc zero) h = inr (sym (ok_injective h))
read-append [] e x (suc (suc n)) h = cc
read-append (f ∷ w) e x (suc zero) h = inl h
read-append (f ∷ w) e x (suc (suc n)) h = read-append w e x (suc n) h

pub memory-WalLaws : WalLaws memory
memory-WalLaws = record {
  read-write = λ b b' w id h. read-append w b b' id h;
  unmarshal-marshal = λ e. refl;
}

-- a redo log as a list of records
unfoldable pub record_of : ℕ → List (ℕ × ℕ × ℕ) → Result CoreErr (ℕ × ℕ)
record_of o [] = err not_found
record_of o ((p, a, b) ∷ l) = if p == o then ok (a, b) else record_of o l

abbrev pub records : RedoLog
records = record {
  Log = List (ℕ × ℕ × ℕ);
  write = λ o a b l. (ok tt, (o, a, b) ∷ l);
  read = record_of;
}

pub records_read-write :
    (o a b : ℕ) (l : List (ℕ × ℕ × ℕ)) → record_of o ((o, a, b) ∷ l) ≡ ok (a, b)
unfolding record_of
records_read-write o a b l = ground arith

pub records_read-write_other :
    (o p a b : ℕ) (l : List (ℕ × ℕ × ℕ)) → o ≢ p → record_of o ((p, a, b) ∷ l) ≡ record_of o l
unfolding record_of
records_read-write_other o p a b l n = ground arith

abbrev pub records-RedoLaws : RedoLaws records
records-RedoLaws = record {
  IsValid = λ l. Unit;
  write-IsValid = λ o a b l p q r v. tt;
  read-write = λ o a b l p q r v. records_read-write o a b l;
  read-write_other = λ o p a b l q r t v n. records_read-write_other o p a b l n;
}

-- A log whose inserting entries are for the latest shard.
pub All-LogForLatest : (w : List (LogEntry ℕ)) → All ForLatest w → LogForLatest memory records w
unfolding read_entry entry_at
All-LogForLatest w all zero e h = cc
All-LogForLatest [] all (suc n) e h = cc
All-LogForLatest (f ∷ w) all (suc zero) e h = subst ForLatest (ok_injective h) all.0
All-LogForLatest (f ∷ w) all (suc (suc n)) e h = All-LogForLatest w all.1 (suc n) e h
