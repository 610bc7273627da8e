-- ===== src/Core/Aliases/Tests.antt =====
-- The list of aliases at concrete inputs.
use zincsearch.Prelude.{String, List, [], ◌∷◌, false, some, ◌≡◌, refl, str_eq, if◌then◌else◌, true}
use zincsearch.Dict.{Dict}
use zincsearch.Dict
use zincsearch.Core.Aliases.{
  add_indexes_to_alias, remove_indexes_from_alias, get_indexes_for_alias, removal_loop, last_first,
  is_one,
}
use zincsearch.Core.Aliases.Removing.{count, removal-left}

abbrev books : Dict (List String)
books = ("books", "x" ∷ "y" ∷ "x" ∷ "z" ∷ []) ∷ ("all", "x" ∷ []) ∷ []

abbrev without_x : Dict (List String)
without_x = (remove_indexes_from_alias true "books" ("x" ∷ []) books).1

-- The last index moves to the place of the first one.
order_changes : get_indexes_for_alias without_x "books" ≡ some ("z" ∷ "y" ∷ [])
unfolding get_indexes_for_alias remove_indexes_from_alias removal_loop last_first is_one Dict.get
    Dict.put
order_changes = refl

added_last :
    get_indexes_for_alias (add_indexes_to_alias true "all" ("w" ∷ []) books).1 "all"
    ≡ some ("x" ∷ "w" ∷ [])
unfolding get_indexes_for_alias add_indexes_to_alias Dict.get Dict.put
added_last = refl

there : get_indexes_for_alias books "books" ≡ some ("x" ∷ "y" ∷ "x" ∷ "z" ∷ [])
unfolding get_indexes_for_alias Dict.get
there = refl

removal-left_example :
    ((now : List String) × (get_indexes_for_alias without_x "books" ≡ some now)
      × ((x : String)
          → count x now
            ≡ (if is_one ("x" ∷ []) x then 0 else count x ("x" ∷ "y" ∷ "x" ∷ "z" ∷ []))))
    × ((other : String)
        → str_eq "books" other ≡ false
        → get_indexes_for_alias without_x other ≡ get_indexes_for_alias books other)
removal-left_example = removal-left true "books" ("x" ∷ []) ("x" ∷ "y" ∷ "x" ∷ "z" ∷ []) books there
