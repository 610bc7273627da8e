-- ===== src/Core/Shards.antt =====
-- pkg/core/index_shards.go: the second layer shards of an `IndexShard`, which are numbered in the
-- order in which they were created. Their writers are open.
use zincsearch.Prelude.{
  List, Option, none, some, length, get_elem?, Result, ok, err, Bool, ℕ, if◌then◌else◌, ltb, ◌++◌,
  ◌∷◌, [],
}
use zincsearch.Prelude.Int.{ℤ, pos, negsuc, sub_ℕ}
use zincsearch.Core.Engine.{CoreErr, second_shard_not_found, Engine, failed}

abbrev pub need_latest : ℤ
need_latest = negsuc 0

abbrev pub need_update : ℤ
need_update = negsuc 1

module _ {X : Type 0} where
  -- `GetLatestShardID`
  unfoldable pub latest_shard_id : List X → ℤ
  latest_shard_id shards = sub_ℕ (length shards) 1

  unfoldable pub at_id : ℤ → List X → Option X
  at_id (negsuc n) shards = none
  at_id (pos n) shards = get_elem? shards n

  -- `GetWriter` of a shard whose number is given
  unfoldable pub get_writer : ℤ → List X → Result CoreErr X
  unfolding at_id
  get_writer id shards = elim (at_id id shards) [
    | none ↦ err second_shard_not_found
    | some x ↦ ok x
  ]

module _ (ε : Engine) where
  -- `NewShard`; whether the index's metadata could be put_batch is an argument.
  unfoldable pub new_shard : Bool → List ε.Index → Result CoreErr (Unit {0}) × List ε.Index
  new_shard is_stored shards =
      (if is_stored then ok tt else err (failed "storeIndex"), shards ++ ε.fresh ∷ [])

  -- `CheckShards` of a shard: a new second layer shard once the latest is too large
  unfoldable pub check_shards : ℕ → Bool → List ε.Index → Result CoreErr (Unit {0}) × List ε.Index
  unfolding latest_shard_id get_writer new_shard
  check_shards max_size is_stored shards = elim (get_writer (latest_shard_id shards) shards) [
    | err e ↦ (err e, shards)
    | ok x ↦ if ltb max_size (ε.size x) then new_shard is_stored shards else (ok tt, shards)
  ]
