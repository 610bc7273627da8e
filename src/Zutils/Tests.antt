-- ===== src/Zutils/Tests.antt =====
-- pkg/zutils at concrete inputs.
use zincsearch.Prelude.{
  ◌^◌, ◌≡◌, String, length, none, some, ℕ, ◌∷◌, In, [], if◌then◌else◌, refl, true, ◌≤◌, All, str_eq,
  ◌⊎◌, false, ◌<◌, arith,
}
use zincsearch.Dict
use zincsearch.Zutils.Fnv64.{sum64}
use zincsearch.Zutils.Rendezvous.{Rendezvous, empty, add, lookup, remove, contains, xorshift_mult64}
use zincsearch.Zutils.Rendezvous.Scores.{lookup_is_best, IsHashed, score}
use zincsearch.Zutils.Rendezvous.Moves.{add_moves_to_new, remove_panics}
use zincsearch.Zutils.Base62.{encode, decode, digits, char_at, reverse}
use zincsearch.Zutils.Base62.RoundTrip.{decode-encode}

-- the hashes of three names
abbrev hash : String → ℕ
hash s =
    if str_eq s "a"
    then sum64 (97 ∷ [])
    else if str_eq s "b"
    then sum64 (98 ∷ [])
    else sum64 (107 ∷ [])

abbrev one : Rendezvous
one = add hash empty "a"

abbrev two : Rendezvous
two = add hash one "b"

two_nodes : two.nstr ≡ "a" ∷ "b" ∷ []
unfolding add Dict.get Dict.put
two_nodes = refl

key_of_two : lookup hash two "k" ≡ some "b"
unfolding add lookup Dict.get Dict.put xorshift_mult64 sum64
key_of_two = refl

key_of_one : lookup hash one "k" ≡ some "a"
unfolding add lookup Dict.get Dict.put xorshift_mult64 sum64
key_of_one = refl

two-IsHashed : IsHashed hash two
unfolding add Dict.get Dict.put
two-IsHashed = refl

one-IsHashed : IsHashed hash one
unfolding add Dict.get Dict.put
one-IsHashed = refl

lookup_is_best_example :
    (x : String) × (lookup hash two "k" ≡ some x)
    × In x two.nstr
    × All (λ y. score hash "k" y ≤ score hash "k" x) two.nstr
lookup_is_best_example = lookup_is_best hash two "k" "a" ("b" ∷ []) two-IsHashed two_nodes

add_moves_to_new_example :
    IsHashed hash (add hash one "b")
    × ((lookup hash (add hash one "b") "k" ≡ some "a")
          × ((contains one "b" ≡ true) ⊎ (score hash "k" "b" ≤ score hash "k" "a"))
        ⊎ (lookup hash (add hash one "b") "k" ≡ some "b")
          × (contains one "b" ≡ false)
          × (score hash "k" "a" < score hash "k" "b"))
add_moves_to_new_example = add_moves_to_new hash one "b" "k" "a" one-IsHashed key_of_one

remove_panics_example : remove two "a" ≡ none
remove_panics_example = remove_panics two "a"

-- the number of the test of the source
abbrev number : ℕ
number = 1517153236107137025

digits_of_number : encode number ≡ 49 ∷ 79 ∷ 52 ∷ 122 ∷ 80 ∷ 118 ∷ 81 ∷ 77 ∷ 118 ∷ 109 ∷ 104 ∷ []
unfolding encode digits char_at reverse
digits_of_number = refl

decode-encode_example :
    (decode (λ e. 62 ^ e) (encode number) ≡ number) × (length (encode number) ≤ 11)
decode-encode_example = decode-encode (λ e. 62 ^ e) (λ e h. refl) number (omega arith)
