-- ===== src/State/Mem/Answers.antt =====
-- Which calls of the store in memory succeed, and all that the store promises.
use zincsearch.Prelude.{ℕ, ◌+◌, String, ◌≡◌, refl, none, some, true, arith, List, ==_iff, ok, err}
use zincsearch.Dict
use zincsearch.State.Entry.{not_found, Entry, valid_key}
use zincsearch.State.Store.{Laws}
use zincsearch.State.Mem.{Mem, u64, get, create, update, delete, list, matching, sort_by_key}
use zincsearch.State.Mem.Laws.{mem_view, mem_laws}

module _ {V : Type 0} where
  -- Which calls on the store in memory succeed.
  pub record Answers (m : Mem V) : Type 0 where
    pub get_there : (k : String) (e : Entry V) → Dict.get m.entries k ≡ some e → get m k ≡ ok e
    pub get_not_there : (k : String) → Dict.get m.entries k ≡ none → get m k ≡ err not_found
    pub create_free :
        (k : String) (v : V)
        → valid_key k ≡ true
        → Dict.get m.entries k ≡ none
        → (r : ℕ) × ((create m k v).0 ≡ ok r)
    pub update_expected :
        (k : String) (v : V) (e : Entry V)
        → valid_key k ≡ true
        → Dict.get m.entries k ≡ some e
        → (r : ℕ) × ((update m k v e.revision).0 ≡ ok r)
    pub delete_any : (k : String) → (delete m k).0 ≡ ok tt
    pub list_any : (prefix : String) → (es : List (Entry V)) × (list m prefix ≡ ok es)

  answers : (m : Mem V) → Answers m
  unfolding get create update delete list
  answers m = record {
    get_there = λ k e p. ground (arith, p);
    get_not_there = λ k p. ground (arith, p);
    create_free = λ k v good p. (u64 (m.rev + 1), ground (arith, p));
    update_expected =
        λ k v e good p. (u64 (m.rev + 1), ground (arith, p, (==_iff e.revision e.revision).1 refl));
    delete_any = λ k. refl;
    list_any = λ prefix. (sort_by_key (matching m.entries prefix), refl);
  }

  -- The store in memory keeps the promises of the interface, while its revisions do not pass the
  -- uint64: a write succeeds only on the entry that it names, takes a revision that the key never had
  -- and leaves the other keys alone; a conflict means that the key exists, or has another revision,
  -- and a key that is not found is missing; a call that fails leaves the store as it was; `Delete`
  -- removes the key and nothing else, and `List` gives the entries whose key starts with the prefix,
  -- ordered by key. And it answers: an entry is read where there is one, creating a key that is valid
  -- and free succeeds, so does updating at the stored revision, and `Delete` and `List` never fail.
  pub mem_store-Laws : Laws (mem_view V) × ((m : Mem V) → Answers m)
  mem_store-Laws = (mem_laws, answers)
