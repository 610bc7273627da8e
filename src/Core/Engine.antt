-- ===== src/Core/Engine.antt =====
-- What pkg/core takes from outside: the index writer of github.com/vcaesar/riot, the log of
-- github.com/zincsearch/wal, and the JSON of a document. `Action` is pkg/meta/types.go.
use zincsearch.Prelude.{
  ℕ, String, List, [], ◌∷◌, ◌++◌, Bool, false, ◌≡◌, str_eq, if◌then◌else◌, ◌||◌, Result, ok,
}
use zincsearch.Prelude.Int.{ℤ}

-- `ActionTypeInsert`, `ActionTypeUpdate`, `ActionTypeDelete`, and any other text
pub data Action : Type 0 where
  insert update delete : Action
  other : String → Action

pub data CoreErr : Type 0 where
  id_not_found second_shard_not_found invalid_action index_out_of_range not_found bad_redo : CoreErr
  failed : String → CoreErr

-- An entry of the log, which `CheckDocument` and `DeleteDocument` write: `fields` is the document.
pub record LogEntry (Data : Type 0) : Type 0 where
  pub action : Action
  pub doc_id : String
  pub shard : ℤ
  pub fields : Data

-- One call on a batch of the index writer. A document is its id and its contents.
pub data Op (Content : Type 0) : Type 0 where
  add : String → Content → Op Content
  replace : String → Content → Op Content
  drop_id : String → Op Content

-- `Index` is one second layer shard on disk; `build` is `BuildBlugeDocumentFromJSON`, for whatever
-- fields the mapping gives a document.
pub record Engine : Type 1 where
  pub Index : Type 0
  pub Content : Type 0
  pub Data : Type 0
  pub Wal : Type 0
  pub Bytes : Type 0
  pub fresh : Index
  pub size : Index → ℕ
  pub found : String → Index → List Content
  pub batch : List (Op Content) → Index → Result CoreErr Index
  pub build : String → Data → Result CoreErr Content
  pub marshal : LogEntry Data → Bytes
  pub unmarshal : Bytes → Result CoreErr (LogEntry Data)
  pub wal_write : Bytes → Wal → Result CoreErr (Unit {0}) × Wal
  pub wal_last : Wal → Result CoreErr ℕ
  pub wal_read : Wal → ℕ → Result CoreErr Bytes
  pub wal_truncate : ℕ → Wal → Result CoreErr (Unit {0}) × Wal

module _ {C : Type 0} where
  -- whether a batch removes the documents of an id that are there
  unfoldable pub drops : String → List (Op C) → Bool
  drops k [] = false
  drops k (add j c ∷ ops) = drops k ops
  drops k (replace j c ∷ ops) = str_eq j k || drops k ops
  drops k (drop_id j ∷ ops) = str_eq j k || drops k ops

  -- the documents of an id that a batch adds
  unfoldable pub adds : String → List (Op C) → List C
  adds k [] = []
  adds k (add j c ∷ ops) = if str_eq j k then c ∷ adds k ops else adds k ops
  adds k (replace j c ∷ ops) = if str_eq j k then c ∷ adds k ops else adds k ops
  adds k (drop_id j ∷ ops) = adds k ops

-- A batch removes documents that were there before it, and then adds its own: an added document does
-- not replace those of its id, and within a batch nothing is removed.
pub record Laws (ε : Engine) : Type 0 where
  pub batch_found :
      (ops : List (Op ε.Content)) (x y : ε.Index)
      → ε.batch ops x ≡ ok y
      → (k : String) → ε.found k y ≡ (if drops k ops then [] else ε.found k x) ++ adds k ops
  pub found_fresh : (k : String) → ε.found k ε.fresh ≡ []
