-- ===== src/Core/Wal/Committed/Gathering.antt =====
-- How the entries that were gathered are counted, and that `Reset` empties them.
use zincsearch.Prelude.{◌<◌, ◌≡◌, List, [], ◌∷◌, ◌++◌, length, refl, arith, String, ◌≤◌}
use zincsearch.Dict.{Dict}
use zincsearch.Dict
use zincsearch.Core.Engine.{LogEntry}
use zincsearch.Core.Merge.{
  MergeDocs, WalDocument, add_document, max_shard_len, put_group, reset, group_or_new,
}
use zincsearch.Core.Merge.Gathered.{add_all, IsGroups-reset, IsGroups-add_all, doc_in-reset}
use zincsearch.Core.Wal.Committed.{Emptied, ℤ}

module _ {D : Type 0} where
  pub add_all-append :
      (es : List (LogEntry D)) (e : LogEntry D) (w : MergeDocs D)
      → add_all (es ++ e ∷ []) w ≡ add_document e (add_all es w)
  unfolding add_all
  add_all-append [] e w = refl
  add_all-append (f ∷ es) e w = add_all-append es e (add_document f w)

  put_pos :
      (m : Dict (WalDocument D)) (k : String) (d : WalDocument D) → 0 < length (Dict.put m k d)
  unfolding Dict.put
  put_pos [] k d = omega arith
  put_pos ((j, c) ∷ m) k d = ground arith

  put_group-le :
      (s : ℤ) (m : Dict (WalDocument D)) (w : MergeDocs D)
      → length m ≤ max_shard_len (put_group s m w)
  unfolding max_shard_len put_group
  put_group-le s m [] = omega arith
  put_group-le s m ((t, n) ∷ w) = ground (arith, put_group-le s m w)

  put_group_pos :
      (s : ℤ) (k : String) (d : WalDocument D) (m : Dict (WalDocument D)) (w : MergeDocs D)
      → 0 < max_shard_len (put_group s (Dict.put m k d) w)
  put_group_pos s k d m w = omega (arith, put_group-le s (Dict.put m k d) w, put_pos m k d)

  pub add_document_pos : (e : LogEntry D) (w : MergeDocs D) → 0 < max_shard_len (add_document e w)
  unfolding add_document
  add_document_pos e w = put_group_pos e.shard e.doc_id _ (group_or_new e.shard w) w

  pub Emptied-reset :
      (es : List (LogEntry D)) (w : MergeDocs D) → Emptied w → Emptied (reset (add_all es w))
  Emptied-reset es w h = (
    IsGroups-reset (add_all es w) (IsGroups-add_all es w h.0),
    λ u k. doc_in-reset u k (add_all es w),
  )
