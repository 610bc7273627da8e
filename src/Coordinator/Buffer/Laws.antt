-- ===== src/Coordinator/Buffer/Laws.antt =====
-- What the buffer relies on of bbolt: a bucket keeps its keys in the order of their bytes and counts
-- a sequence up, and an operation changes nothing else.
use zincsearch.Prelude.{ℕ, ◌+◌, ◌<◌, ◌^◌, List, [], ◌∷◌, ◌++◌, true, ◌≡◌, ◌≢◌, All, some}
use zincsearch.Coordinator.Buffer.BigEndian.{Bytes, bytes_lt}
use zincsearch.Coordinator.Buffer.{Bolt}

module _ (β : Bolt) where
  -- The counters are as they were.
  abbrev pub SameMeta : β.Db → β.Db → Type 0
  SameMeta db db' = (j : Bytes) → β.get_meta db' j ≡ β.get_meta db j

  pub record Laws : Type 0 where
    pub sequence : β.Db → ℕ
    pub next_ok :
        (db db' : β.Db) (n : ℕ)
        → sequence db + 1 < 2 ^ 64
        → β.next_sequence db ≡ some (n, db')
        → (n ≡ sequence db + 1) × (sequence db' ≡ n) × (β.items db' ≡ β.items db) × SameMeta db db'
    pub put_item_ok :
        (db db' : β.Db) (k v : Bytes)
        → All (λ e. bytes_lt e.0 k ≡ true) (β.items db)
        → β.put_item db k v ≡ some db'
        → (β.items db' ≡ β.items db ++ (k, v) ∷ []) × (sequence db' ≡ sequence db) × SameMeta db db'
    pub delete_first_ok :
        (db db' : β.Db) (e : Bytes × Bytes) (rest : List (Bytes × Bytes))
        → β.items db ≡ e ∷ rest
        → β.delete_first db ≡ some db'
        → (β.items db' ≡ rest) × (sequence db' ≡ sequence db) × SameMeta db db'
    pub put_meta_ok :
        (db db' : β.Db) (k v : Bytes)
        → β.put_meta db k v ≡ some db'
        → (β.items db' ≡ β.items db)
          × (sequence db' ≡ sequence db)
          × (β.get_meta db' k ≡ some v)
          × ((j : Bytes) → j ≢ k → β.get_meta db' j ≡ β.get_meta db j)
