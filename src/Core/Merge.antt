-- ===== src/Core/Merge.antt =====
-- `walMergeDocs` of pkg/core/index_shards_wal.go: the entries of a batch are gathered by the second
-- layer shard that they are for and by document, and each document is written once.
pub mod Gathered
pub mod Batches
pub mod Writing
pub mod Settled
pub mod LastAction
pub mod Copies
use zincsearch.Prelude.{
  ℕ, String, List, [], ◌∷◌, ◌++◌, Bool, ◌&&◌, Option, none, some, if◌then◌else◌, length, set,
  Result, ok, err, ◌>>=◌, max,
}
use zincsearch.Prelude.Int.{ℤ, pos, negsuc, leb_ℤ}
use zincsearch.Dict.{Dict}
use zincsearch.Dict
use zincsearch.Core.Engine.{
  Engine, Action, insert, update, delete, other, CoreErr, invalid_action, index_out_of_range,
  LogEntry, Op, add, replace, drop_id,
}
use zincsearch.Core.Shards.{need_latest, latest_shard_id, get_writer}

pub record WalDocument (D : Type 0) : Type 0 where
  pub doc_id : String
  pub actions : List Action
  pub fields : D

-- `walMergeDocs`: the map from the numbers of shards to the map from ids to documents
abbrev pub MergeDocs : Type 0 → Type 0
MergeDocs D = List (ℤ × Dict (WalDocument D))

unfoldable pub same_id : ℤ → ℤ → Bool
same_id a b = leb_ℤ a b && leb_ℤ b a

module _ {D : Type 0} where
  unfoldable pub group_at : ℤ → MergeDocs D → Option (Dict (WalDocument D))
  group_at s [] = none
  group_at s ((t, docs) ∷ w) = if same_id t s then some docs else group_at s w

  unfoldable pub put_group : ℤ → Dict (WalDocument D) → MergeDocs D → MergeDocs D
  put_group s docs [] = (s, docs) ∷ []
  put_group s docs ((t, old) ∷ w) =
      if same_id t s then (s, docs) ∷ w else (t, old) ∷ put_group s docs w

  unfoldable pub group_or_new : ℤ → MergeDocs D → Dict (WalDocument D)
  group_or_new s w = elim (group_at s w) [ none ↦ Dict.empty | some docs ↦ docs ]

  unfoldable pub actions_of : Option (WalDocument D) → List Action
  actions_of none = []
  actions_of (some d) = d.actions

  unfoldable pub add_document : LogEntry D → MergeDocs D → MergeDocs D
  unfolding group_or_new actions_of
  add_document e w =
      let docs = group_or_new e.shard w in
      let doc : WalDocument D = record {
        doc_id = e.doc_id;
        actions = actions_of (Dict.get docs e.doc_id) ++ e.action ∷ [];
        fields = e.fields;
      } in
      put_group e.shard (Dict.put docs e.doc_id doc) w

  unfoldable pub max_shard_len : MergeDocs D → ℕ
  max_shard_len [] = 0
  max_shard_len ((s, docs) ∷ w) = max (length docs) (max_shard_len w)

  unfoldable pub reset : MergeDocs D → MergeDocs D
  reset [] = []
  reset ((s, docs) ∷ w) = (s, []) ∷ reset w

-- the last element of a list that starts with `a`
unfoldable pub last_of : Action → List Action → Action
last_of a [] = a
last_of a (b ∷ rest) = last_of b rest

-- The order in which a `range` visits the documents, and the groups.
pub record RangeOrder (D : Type 0) : Type 0 where
  pub docs : Dict (WalDocument D) → Dict (WalDocument D)
  pub groups : MergeDocs D → MergeDocs D

module _ {C : Type 0} where
  -- what a document whose first entry inserts it adds to the batch, by its last entry
  unfoldable pub insert_ops : String → C → Action → List (Op C)
  insert_ops k c insert = add k c ∷ []
  insert_ops k c update = add k c ∷ []
  insert_ops k c delete = []
  insert_ops k c (other s) = []

  -- what another adds to the batch, and to that of the older shards
  unfoldable pub change_ops : String → C → Action → List (Op C) × List (Op C)
  change_ops k c insert = (replace k c ∷ [], drop_id k ∷ [])
  change_ops k c update = (replace k c ∷ [], drop_id k ∷ [])
  change_ops k c delete = (drop_id k ∷ [], drop_id k ∷ [])
  change_ops k c (other s) = ([], [])

  unfoldable pub doc_ops : String → C → List Action → Result CoreErr (List (Op C) × List (Op C))
  unfolding insert_ops change_ops last_of
  doc_ops k c [] = err index_out_of_range
  doc_ops k c (insert ∷ rest) = ok (insert_ops k c (last_of insert rest), [])
  doc_ops k c (update ∷ rest) = ok (change_ops k c (last_of update rest))
  doc_ops k c (delete ∷ rest) = ok (change_ops k c (last_of delete rest))
  doc_ops k c (other s ∷ rest) = err invalid_action

module _ {X : Type 0} where
  -- `otherWriters[:len(ws)-1]` and `ws[len(ws)-1]`
  unfoldable pub split_last : List X → Option (List X × X)
  split_last [] = none
  split_last (x ∷ xs) = elim (split_last xs) [
    | none ↦ some ([], x)
    | some (ys, y) ↦ some (x ∷ ys, y)
  ]

  unfoldable pub put_writer : ℤ → X → List X → List X
  put_writer (pos n) x shards = set shards n x
  put_writer (negsuc n) x shards = shards

module _ (ε : Engine) where
  open ε use {Index, Content, Data, batch, build}

  -- the loop over the documents of a shard, which fills both batches
  unfoldable pub collect :
      Dict (WalDocument Data) → Result CoreErr (List (Op Content) × List (Op Content))
  unfolding doc_ops
  collect [] = ok ([], [])
  collect ((k, d) ∷ docs) = do
    c ← build d.doc_id d.fields
    ops ← doc_ops d.doc_id c d.actions
    rest ← collect docs
    ok (ops.0 ++ rest.0, ops.1 ++ rest.1)

  -- `writer.Batch(otherBatch)` of each of the older shards
  unfoldable pub batch_each :
      List (Op Content) → List Index → Result CoreErr (Unit {0}) × List Index
  batch_each ops [] = (ok tt, [])
  batch_each ops (x ∷ xs) = elim (batch ops x) [
    | err e ↦ (err e, x ∷ xs)
    | ok y ↦ let (r, ys) = batch_each ops xs in (r, y ∷ ys)
  ]

  -- A step that may write: the shards after it are returned beside its result.
  abbrev pub Written : Type 0
  Written = Result CoreErr (Unit {0}) × List Index

  abbrev pub Ops : Type 0
  Ops = Result CoreErr (List (Op Content) × List (Op Content))

  -- A shard after a batch that was written, or not.
  unfoldable pub put_batch : ℤ → List Index → Result CoreErr Index → Written
  unfolding put_writer
  put_batch id shards (err e) = (err e, shards)
  put_batch id shards (ok y) = (ok tt, put_writer id y shards)

  -- `WriteToShard` with one writer, from the lookup of the writer on
  unfoldable pub write_one : ℤ → Ops → List Index → Written
  unfolding put_batch get_writer
  write_one id built shards =
      put_batch id shards (get_writer id shards >>= λ x. built >>= λ ops. batch ops.0 x)

  write_last : Ops → Index → Result CoreErr (List (Op Content) × Index)
  write_last built x = do ops ← built; y ← batch ops.0 x; ok (ops.1, y)

  -- the older shards, once the latest is written
  unfoldable pub write_older :
      List Index → Index → Result CoreErr (List (Op Content) × Index) → Written
  unfolding batch_each
  write_older xs x (err e) = (err e, xs ++ x ∷ [])
  write_older xs x (ok (others, y)) = let (r, ys) = batch_each others xs in (r, ys ++ y ∷ [])

  -- `WriteToShard` with the writers of all shards
  unfoldable pub write_every : Ops → List Index → Written
  unfolding split_last write_older write_last
  write_every built shards = elim (split_last shards) [
    | none ↦ (err index_out_of_range, shards)
    | some (xs, x) ↦ write_older xs x (write_last built x)
  ]

  -- the shard that is written, which is the latest where none is named
  unfoldable pub target : ℤ → List Index → ℤ
  unfolding latest_shard_id
  target s shards = if same_id s need_latest then latest_shard_id shards else s

  unfoldable pub write_docs : ℤ → Ops → List Index → Written
  unfolding write_one write_every
  write_docs id built shards =
      if leb_ℤ (pos 0) id then write_one id built shards else write_every built shards

  module _ (range : RangeOrder Data) where
    -- `WriteToShard`
    unfoldable pub write_to_shard : MergeDocs Data → ℤ → List Index → Written
    unfolding write_docs target collect
    write_to_shard w s shards = elim (group_at s w) [
      | none ↦ (ok tt, shards)
      | some docs ↦ write_docs (target s shards) (collect (range.docs docs)) shards
    ]

    -- the loop of `WriteTo` over the groups
    unfoldable pub write_groups : MergeDocs Data → MergeDocs Data → List Index → Written
    unfolding write_to_shard
    write_groups w [] shards = (ok tt, shards)
    write_groups w ((s, docs) ∷ groups) shards =
        let (r, shards') = write_to_shard w s shards in
        elim r [ err e ↦ (err e, shards') | ok done ↦ write_groups w groups shards' ]

    -- `WriteTo` that is no rollback; its caller empties the groups.
    unfoldable pub write_to : MergeDocs Data → List Index → Written
    unfolding write_groups
    write_to w shards = write_groups w (range.groups w) shards

  -- what a document adds to the batch of a rollback
  unfoldable pub undo_ops : String → List Action → Result CoreErr (List (Op Content))
  undo_ops k [] = err index_out_of_range
  undo_ops k (insert ∷ rest) = ok (drop_id k ∷ [])
  undo_ops k (update ∷ rest) = ok []
  undo_ops k (delete ∷ rest) = ok []
  undo_ops k (other s ∷ rest) = ok []

  -- the loop of `WriteToShardRollback` over the documents
  unfoldable pub collect_undo : Dict (WalDocument Data) → Result CoreErr (List (Op Content))
  unfolding undo_ops
  collect_undo [] = ok []
  collect_undo ((k, d) ∷ docs) = do
    _ ← build d.doc_id d.fields
    ops ← undo_ops d.doc_id d.actions
    rest ← collect_undo docs
    ok (ops ++ rest)

  module _ (range : RangeOrder Data) where
    -- `WriteToShardRollback` of the documents of a shard
    unfoldable pub undo_group : ℤ → Dict (WalDocument Data) → List Index → Written
    unfolding collect_undo put_batch get_writer
    undo_group (negsuc n) docs shards = (ok tt, shards)
    undo_group (pos n) docs shards =
        put_batch (pos n) shards
          (get_writer (pos n) shards >>= λ x. collect_undo (range.docs docs) >>= λ ops. batch ops x)

    unfoldable pub undo_shard : MergeDocs Data → ℤ → List Index → Written
    unfolding undo_group
    undo_shard w s shards = elim (group_at s w) [
      | none ↦ (ok tt, shards)
      | some docs ↦ undo_group s docs shards
    ]

    unfoldable pub undo_groups : MergeDocs Data → MergeDocs Data → List Index → Written
    unfolding undo_shard
    undo_groups w [] shards = (ok tt, shards)
    undo_groups w ((s, docs) ∷ groups) shards =
        let (r, shards') = undo_shard w s shards in
        elim r [ err e ↦ (err e, shards') | ok done ↦ undo_groups w groups shards' ]

    -- `WriteTo` that rolls back
    unfoldable pub undo : MergeDocs Data → List Index → Written
    unfolding undo_groups
    undo w shards = undo_groups w (range.groups w) shards
