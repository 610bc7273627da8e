-- ===== src/State/Store.antt =====
-- The interface `Store` of pkg/coordinator/state/state.go, and what its comments promise. They say what
-- the errors that it names mean; after any other error, such as a lost connection, a write may have
-- been done or not.
use zincsearch.Text.{has_prefix, str_lt}
use zincsearch.Prelude.{
  ℕ, String, ◌≡◌, ◌<◌, ◌≤◌, Option, none, some, List, str_eq, if◌then◌else◌, Result, ok, err, In,
  ◌∷◌, All, ◌⊎◌, true, ◌≢◌, [], false,
}
use zincsearch.State.Entry.{
  StateErr, not_found, conflict, invalid_key, bad_json, unavailable, Entry,
}

-- An operation that writes returns the store after it beside its result.
pub record Store (V : Type 0) : Type 1 where
  pub St : Type 0
  pub get : St → String → Result StateErr (Entry V)
  pub create : St → String → V → Result StateErr ℕ × St
  pub update : St → String → V → ℕ → Result StateErr ℕ × St
  pub delete : St → String → Result StateErr (Unit {0}) × St
  pub list : St → String → Result StateErr (List (Entry V))

-- What a store holds, as an abstract view of it: the entry of each key, and the highest revision
-- that the key ever had. `HasRoom` says that the next revision does not pass the uint64.
pub record View {V : Type 0} (σ : Store V) : Type 1 where
  pub entry : σ.St → String → Option (Entry V)
  pub top : σ.St → String → ℕ
  pub IsWell : σ.St → Type 0
  pub HasRoom : σ.St → Type 0

-- The errors that do not say whether the call was carried out: none that `Store` names.
abbrev pub IsUncertain : StateErr → Type 0
IsUncertain not_found = ⊥
IsUncertain conflict = ⊥
IsUncertain invalid_key = ⊥
IsUncertain bad_json = Unit
IsUncertain unavailable = Unit

-- A list of entries in the order of their keys.
abbrev pub IsOrdered : {V : Type 0} → List (Entry V) → Type 0
IsOrdered [] = Unit
IsOrdered (e ∷ es) = All (λ f. str_lt f.key e.key ≡ false) es × IsOrdered es

module _ {V : Type 0} {σ : Store V} (view : View σ) where
  open view use {entry, top, IsWell, HasRoom}

  -- `s'` is `s` with a new value under the key, at a revision that the key never had.
  pub record Written (s : σ.St) (k : String) (v : V) (r : ℕ) (s' : σ.St) : Type 0 where
    pub well : IsWell s'
    pub fresh : top s k < r
    pub grows : (j : String) → top s j ≤ top s' j
    pub entries :
        (j : String)
        → entry s' j
          ≡ (if str_eq k j then some (record { key = k; value = v; revision = r }) else entry s j)

  -- `s'` holds what `s` holds.
  pub record Kept (s s' : σ.St) : Type 0 where
    pub well : IsWell s'
    pub grows : (j : String) → top s j ≤ top s' j
    pub entries : (j : String) → entry s' j ≡ entry s j

  -- `s'` is `s` without the key.
  pub record Deleted (s : σ.St) (k : String) (s' : σ.St) : Type 0 where
    pub well : IsWell s'
    pub grows : (j : String) → top s j ≤ top s' j
    pub entries : (j : String) → entry s' j ≡ (if str_eq k j then none else entry s j)

  -- The entry that `Update` replaces: the key has it, at the revision that is expected.
  abbrev pub Expected : σ.St → String → ℕ → Type 0
  Expected s k x = (e : Entry V) × (entry s k ≡ some e) × (e.revision ≡ x)

  -- The entries whose key starts with the prefix, ordered by key.
  abbrev pub Lists : σ.St → String → List (Entry V) → Type 0
  Lists s prefix es =
      ((e : Entry V) → In e es → (entry s e.key ≡ some e) × (has_prefix e.key prefix ≡ true))
      × ((k : String) (e : Entry V) → entry s k ≡ some e → has_prefix k prefix ≡ true → In e es)
      × IsOrdered es

  pub record Laws : Type 1 where
    pub get_ok : (s : σ.St) (k : String) (e : Entry V) → σ.get s k ≡ ok e → entry s k ≡ some e
    pub get_missing : (s : σ.St) (k : String) → σ.get s k ≡ err not_found → entry s k ≡ none
    pub revision_le :
        (s : σ.St) (k : String) (e : Entry V) → IsWell s → entry s k ≡ some e → e.revision ≤ top s k
    pub create_was :
        (s : σ.St) (k : String) (v : V) (r : ℕ) → (σ.create s k v).0 ≡ ok r → entry s k ≡ none
    pub create_ok :
        (s : σ.St) (k : String) (v : V) (r : ℕ)
        → IsWell s
        → HasRoom s
        → (σ.create s k v).0 ≡ ok r
        → Written s k v r (σ.create s k v).1
    pub create_conflict :
        (s : σ.St) (k : String) (v : V)
        → (σ.create s k v).0 ≡ err conflict
        → (e : Entry V) × (entry s k ≡ some e)
    pub create_err :
        (s : σ.St) (k : String) (v : V) (e : StateErr)
        → IsWell s
        → HasRoom s
        → (σ.create s k v).0 ≡ err e
        → Kept s (σ.create s k v).1
          ⊎ (IsUncertain e × (entry s k ≡ none) × ((r : ℕ) × Written s k v r (σ.create s k v).1))
    pub update_was :
        (s : σ.St) (k : String) (v : V) (x r : ℕ) → (σ.update s k v x).0 ≡ ok r → Expected s k x
    pub update_ok :
        (s : σ.St) (k : String) (v : V) (x r : ℕ)
        → IsWell s
        → HasRoom s
        → (σ.update s k v x).0 ≡ ok r
        → Written s k v r (σ.update s k v x).1
    pub update_conflict :
        (s : σ.St) (k : String) (v : V) (x : ℕ)
        → (σ.update s k v x).0 ≡ err conflict
        → (e : Entry V) × (entry s k ≡ some e) × (e.revision ≢ x)
    pub update_missing :
        (s : σ.St) (k : String) (v : V) (x : ℕ)
        → (σ.update s k v x).0 ≡ err not_found
        → entry s k ≡ none
    pub update_err :
        (s : σ.St) (k : String) (v : V) (x : ℕ) (e : StateErr)
        → IsWell s
        → HasRoom s
        → (σ.update s k v x).0 ≡ err e
        → Kept s (σ.update s k v x).1
          ⊎ (IsUncertain e × Expected s k x × ((r : ℕ) × Written s k v r (σ.update s k v x).1))
    pub delete_ok :
        (s : σ.St) (k : String) → IsWell s → (σ.delete s k).0 ≡ ok tt → Deleted s k (σ.delete s k).1
    pub delete_err :
        (s : σ.St) (k : String) (e : StateErr)
        → IsWell s
        → (σ.delete s k).0 ≡ err e
        → Kept s (σ.delete s k).1 ⊎ (IsUncertain e × Deleted s k (σ.delete s k).1)
    pub list_ok :
        (s : σ.St) (prefix : String) (es : List (Entry V))
        → IsWell s
        → σ.list s prefix ≡ ok es
        → Lists s prefix es
