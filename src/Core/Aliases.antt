-- ===== src/Core/Aliases.antt =====
-- pkg/core/aliaslist.go: the indexes of each alias. `stored` is whether the metadata were stored.
pub mod Removing
mod Tests
use zincsearch.Prelude.{
  ℕ, zero, suc, String, List, [], ◌∷◌, ◌++◌, Bool, true, false, ◌||◌, Option, none, some, Result,
  ok, err, if◌then◌else◌, length, str_eq,
}
use zincsearch.Dict.{Dict}
use zincsearch.Dict
use zincsearch.Core.Engine.{CoreErr, failed}

unfoldable pub is_one : List String → String → Bool
is_one [] name = false
is_one (n ∷ names) name = str_eq n name || is_one names name

-- `indexes`, where there are none a nil slice
indexes_or_nil : Option (List String) → List String
indexes_or_nil none = []
indexes_or_nil (some indexes) = indexes

set_metadata : Bool → Dict (List String) → Result CoreErr (Unit {0}) × Dict (List String)
set_metadata true aliases = (ok tt, aliases)
set_metadata false aliases = (err (failed "metadata"), aliases)

-- `AddIndexesToAlias`
unfoldable pub add_indexes_to_alias :
    Bool
    → String
    → List String
    → Dict (List String)
    → Result CoreErr (Unit {0}) × Dict (List String)
unfolding indexes_or_nil set_metadata
add_indexes_to_alias stored alias indexes aliases =
    set_metadata stored
      (Dict.put aliases alias (indexes_or_nil (Dict.get aliases alias) ++ indexes))

put_second : String → List String → List String
put_second x [] = x ∷ []
put_second x (z ∷ rest) = z ∷ x ∷ rest

-- A list with its last element at the front.
unfoldable pub last_first : List String → List String
unfolding put_second
last_first [] = []
last_first (x ∷ rest) = put_second x (last_first rest)

-- The loop of `RemoveIndexesFromAlias`: the indexes before i, and those from i to `lastIndex`. An index
-- that is removed changes places with the last one, which then stands at i.
unfoldable pub removal_loop : ℕ → List String → List String → List String → List String
removal_loop zero removed front window = front
removal_loop (suc turns) removed front [] = front
removal_loop (suc turns) removed front (x ∷ window) =
    let without = removal_loop turns removed front (last_first window) in
    let on = removal_loop turns removed (front ++ x ∷ []) window in
    if is_one removed x then without else on

remove_found :
    Bool
    → String
    → List String
    → Dict (List String)
    → Option (List String)
    → Result CoreErr (Unit {0}) × Dict (List String)
unfolding set_metadata
remove_found stored alias removed aliases none = (ok tt, aliases)
remove_found stored alias removed aliases (some indexes) =
    set_metadata stored (Dict.put aliases alias (removal_loop (length indexes) removed [] indexes))

-- `RemoveIndexesFromAlias`
unfoldable pub remove_indexes_from_alias :
    Bool
    → String
    → List String
    → Dict (List String)
    → Result CoreErr (Unit {0}) × Dict (List String)
unfolding remove_found
remove_indexes_from_alias stored alias removed aliases =
    remove_found stored alias removed aliases (Dict.get aliases alias)

-- `GetIndexesForAlias`; `none` where there is no such alias.
unfoldable pub get_indexes_for_alias : Dict (List String) → String → Option (List String)
get_indexes_for_alias aliases alias = Dict.get aliases alias
