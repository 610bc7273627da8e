-- ===== src/State/Mem.antt =====
-- pkg/coordinator/state/mem.go: the store in memory. A method runs under the mutex as a whole, so
-- it is one function from the store to its result and the store after it.
pub mod Listing
pub mod Laws
pub mod Answers
pub mod Revisions
use zincsearch.Prelude.{
  ℕ, ◌+◌, ◌%◌, ◌^◌, String, Option, none, some, List, [], ◌∷◌, ◌==◌, if◌then◌else◌, Result, ok, err,
}
use zincsearch.Dict
use zincsearch.Dict.{Dict}
use zincsearch.Text.{str_lt, has_prefix}
use zincsearch.State.Entry.{StateErr, not_found, conflict, invalid_key, valid_key, Entry}
use zincsearch.State.Store.{Store}

-- a uint64 wraps
abbrev pub u64 : ℕ → ℕ
u64 n = n % 2 ^ 64

pub record Mem (V : Type 0) : Type 0 where
  pub entries : Dict (Entry V)
  pub rev : ℕ  -- uint64

module _ {V : Type 0} where
  -- `NewMem`
  abbrev pub new : Mem V
  new = record { entries = []; rev = 0 }

  unfoldable pub get : Mem V → String → Result StateErr (Entry V)
  get m key = elim (Dict.get m.entries key) [ none ↦ err not_found | some e ↦ ok e ]

  -- the common end of `Create` and `Update`
  store : Mem V → String → V → Result StateErr ℕ × Mem V
  store m key value =
      let rev = u64 (m.rev + 1) in
      (
        ok rev,
        record {
          entries = Dict.put m.entries key (record { key = key; value = value; revision = rev });
          rev = rev;
        },
      )

  create_at : Option (Entry V) → Mem V → String → V → Result StateErr ℕ × Mem V
  unfolding store
  create_at (some e) m key value = (err conflict, m)
  create_at none m key value = store m key value

  unfoldable pub create : Mem V → String → V → Result StateErr ℕ × Mem V
  unfolding create_at
  create m key value =
      if valid_key key then create_at (Dict.get m.entries key) m key value else (err invalid_key, m)

  update_at : Option (Entry V) → Mem V → String → V → ℕ → Result StateErr ℕ × Mem V
  unfolding store
  update_at none m key value expected = (err not_found, m)
  update_at (some e) m key value expected =
      if e.revision == expected then store m key value else (err conflict, m)

  unfoldable pub update : Mem V → String → V → ℕ → Result StateErr ℕ × Mem V
  unfolding update_at
  update m key value expected =
      if valid_key key
      then update_at (Dict.get m.entries key) m key value expected
      else (err invalid_key, m)

  unfoldable pub delete : Mem V → String → Result StateErr (Unit {0}) × Mem V
  delete m key = (ok tt, record m { entries = Dict.remove m.entries key })

  -- the loop of `List`: the entries whose key has the prefix
  matching : Dict (Entry V) → String → List (Entry V)
  matching [] prefix = []
  matching ((key, e) ∷ rest) prefix =
      let tail = matching rest prefix in if has_prefix key prefix then e ∷ tail else tail

  insert_by_key : Entry V → List (Entry V) → List (Entry V)
  insert_by_key e [] = e ∷ []
  insert_by_key e (x ∷ xs) = if str_lt e.key x.key then e ∷ x ∷ xs else x ∷ insert_by_key e xs

  -- `sort.Slice` by key; the keys of a map are distinct, so the order is determined
  sort_by_key : List (Entry V) → List (Entry V)
  unfolding insert_by_key
  sort_by_key [] = []
  sort_by_key (e ∷ es) = insert_by_key e (sort_by_key es)

  unfoldable pub list : Mem V → String → Result StateErr (List (Entry V))
  unfolding matching sort_by_key
  list m prefix = ok (sort_by_key (matching m.entries prefix))

-- `Mem` implements the interface.
abbrev pub mem_store : (V : Type 0) → Store V
mem_store V = record {
  St = Mem V;
  get = get;
  create = create;
  update = update;
  delete = delete;
  list = list;
}
