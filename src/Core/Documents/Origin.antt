-- ===== src/Core/Documents/Origin.antt =====
-- Where the entries of a log come from: every entry is one that a document's operation wrote.
use zincsearch.Prelude.{
  ℕ, ◌≡◌, ◌⊎◌, inl, inr, Bool, true, false, ok, err, bind-ok, List, Result, Option, String, subst,
  ok_injective, refl, sym, ◌∙◌, ◌&&◌, Bool-cases,
}
use zincsearch.Prelude.Int.{ℤ, pos}
use zincsearch.Core.Engine.{Engine, LogEntry, CoreErr}
use zincsearch.Core.Shards.{need_latest}
use zincsearch.Core.Wal.{RedoLog, IndexShard, entry_at}
use zincsearch.Core.Wal.Undoing.{LogForLatest, ForLatest}
use zincsearch.Core.Documents.{
  write_entry, write_checked, create_document, update_found, update_document, delete_found,
  delete_document, find_shard, is_id_not_found,
}

-- What is relied on of the log and of the JSON: a write adds no entry but its own, and an entry is
-- read back.
pub record WalLaws (ε : Engine) : Type 0 where
  pub read-write :
      (b b' : ε.Bytes) (w : ε.Wal) (id : ℕ)
      → ε.wal_read (ε.wal_write b w).1 id ≡ ok b'
      → (ε.wal_read w id ≡ ok b') ⊎ (b' ≡ b)
  pub unmarshal-marshal : (e : LogEntry ε.Data) → ε.unmarshal (ε.marshal e) ≡ ok e

module _ (ε : Engine) (law : WalLaws ε) (ρ : RedoLog) where
  open ε use {Data, Wal}

  write_entry-LogForLatest :
      (e : LogEntry Data) (s : IndexShard ε ρ)
      → ForLatest e
      → LogForLatest ε ρ s.wal
      → LogForLatest ε ρ (write_entry ε ρ e s).1.wal
  unfolding write_entry entry_at
  write_entry-LogForLatest e s f all id x h =
      let (b, there, h1) = bind-ok (ε.wal_read (ε.wal_write (ε.marshal e) s.wal).1 id) _ h in
      elim (law.read-write (ε.marshal e) b s.wal id there) [
        | inl old ↦ all id x (rw old h1)
        | inr new ↦
            subst ForLatest
              (ok_injective
                (sym (law.unmarshal-marshal e) ∙ subst (λ c. ε.unmarshal c ≡ ok x) new h1))
              f
      ]

  write_checked-LogForLatest :
      (r : Result CoreErr Data) (k : String) (is_update : Bool) (t : ℤ) (s : IndexShard ε ρ)
      → (is_update ≡ false → t ≡ need_latest)
      → LogForLatest ε ρ s.wal
      → LogForLatest ε ρ (write_checked ε ρ r k is_update t s).1.wal
  unfolding write_checked
  write_checked-LogForLatest (err e) k is_update t s f all = all
  write_checked-LogForLatest (ok d) k true t s f all = write_entry-LogForLatest _ s (λ i. cc i) all
  write_checked-LogForLatest (ok d) k false t s f all =
      write_entry-LogForLatest _ s (λ i. f refl) all

  update_found-LogForLatest :
      (n : Result CoreErr ℕ) (r : Result CoreErr Data) (k : String) (may : Bool)
      (s : IndexShard ε ρ)
      → LogForLatest ε ρ s.wal
      → LogForLatest ε ρ (update_found ε ρ n r k may s).1.wal
  unfolding update_found
  update_found-LogForLatest (ok n) r k may s all =
      write_checked-LogForLatest r k true (pos n) s (λ e. cc e) all
  update_found-LogForLatest (err e) r k may s all =
      elim (Bool-cases (may && is_id_not_found ε ρ e)) [
        | inl new ↦
            subst (λ p. LogForLatest ε ρ p.1.wal) (sym (if_new new))
              (write_checked-LogForLatest r k false need_latest s (λ i. refl) all)
        | inr fails ↦ subst (λ p. LogForLatest ε ρ p.1.wal) (sym (if_fails fails)) all
      ]
    where
      if_new :
          (may && is_id_not_found ε ρ e) ≡ true
          → update_found ε ρ (err e) r k may s ≡ write_checked ε ρ r k false need_latest s
      if_new h = rw h refl

      if_fails :
          (may && is_id_not_found ε ρ e) ≡ false → update_found ε ρ (err e) r k may s ≡ (err e, s)
      if_fails h = rw h refl

  delete_found-LogForLatest :
      (n : Result CoreErr ℕ) (d : Data) (k : String) (s : IndexShard ε ρ)
      → LogForLatest ε ρ s.wal
      → LogForLatest ε ρ (delete_found ε ρ n d k s).1.wal
  unfolding delete_found
  delete_found-LogForLatest (err e) d k s all = all
  delete_found-LogForLatest (ok n) d k s all = write_entry-LogForLatest _ s (λ i. cc i) all

  -- Creating, updating and deleting documents, whether or not they succeed, keep it so that each
  -- entry of the log that inserts a document is for the latest shard. A write to the log adds its
  -- own entry at most, and the JSON of an entry is read back.
  pub documents-LogForLatest :
      (s : IndexShard ε ρ) (pick : List ℕ → Option ℕ) (checked : Result CoreErr Data) (d : Data)
      (k : String) (flag : Bool)
      → LogForLatest ε ρ s.wal
      → LogForLatest ε ρ (create_document ε ρ checked k flag s).1.wal
        × LogForLatest ε ρ (update_document ε ρ pick checked k flag s).1.wal
        × LogForLatest ε ρ (delete_document ε ρ pick d k s).1.wal
  unfolding create_document update_document delete_document
  documents-LogForLatest s pick checked d k flag all = (
    write_checked-LogForLatest checked k flag _ s (λ e. rw e refl) all,
    update_found-LogForLatest (find_shard ε ρ pick k s.shards) checked k flag s all,
    delete_found-LogForLatest (find_shard ε ρ pick k s.shards) d k s all,
  )
