-- ===== src/Zutils/Rendezvous.antt =====
-- pkg/zutils/hash/rendezvous/rendezvous.go: a key goes to the node whose hash, mixed with the key's,
-- is the highest. The hash of texts is an argument, as in `NewWithHash`.
pub mod Scores
pub mod Moves
use Prim.Native.Nat.{bit_xor}
use zincsearch.Prelude.{
  ℕ, ◌+◌, ◌*◌, ◌/◌, ◌%◌, ◌^◌, String, List, [], ◌∷◌, ◌++◌, Bool, true, false, Option, none, some,
  ltb, if◌then◌else◌, length, get_elem?, map, take, set,
}
use zincsearch.Dict.{Dict}
use zincsearch.Dict

-- `xorshiftMult64`
unfoldable pub xorshift_mult64 : ℕ → ℕ
xorshift_mult64 x =
    let x1 = bit_xor x (x / 2 ^ 12) in
    let x2 = bit_xor x1 (x1 * 2 ^ 25 % 2 ^ 64) in
    let x3 = bit_xor x2 (x2 / 2 ^ 27) in x3 * 0x2545F4914F6CDD1D % 2 ^ 64

pub record Rendezvous : Type 0 where
  pub nodes : Dict ℕ
  pub nstr : List String
  pub nhash : List ℕ

-- `New`
abbrev pub empty : Rendezvous
empty = record { nodes = []; nstr = []; nhash = [] }

-- the loop of `Lookup`: the place and the score of the best node so far
unfoldable pub best_from : ℕ → ℕ → List ℕ → ℕ × ℕ → ℕ × ℕ
best_from khash i [] best = best
best_from khash i (nhash ∷ rest) (midx, mhash) =
    let h = xorshift_mult64 (bit_xor khash nhash) in
    best_from khash (i + 1) rest (if ltb mhash h then (i, h) else (midx, mhash))

is_some : Option ℕ → Bool
is_some none = false
is_some (some n) = true

unfoldable pub contains : Rendezvous → String → Bool
unfolding is_some
contains r node = is_some (Dict.get r.nodes node)

module _ (hash : String → ℕ) where
  -- `Lookup`; `none` is the panic of an index out of range, where there is no node.
  unfoldable pub lookup : Rendezvous → String → Option String
  unfolding best_from
  lookup r k = get_elem? r.nstr (best_from (hash k) 0 r.nhash (0, 0)).0

  -- `Add`
  unfoldable pub add : Rendezvous → String → Rendezvous
  unfolding contains
  add r node = if contains r node then r else record {
    nodes = Dict.put r.nodes node (length r.nstr);
    nstr = r.nstr ++ node ∷ [];
    nhash = r.nhash ++ hash node ∷ [];
  }

index_of : Option ℕ → ℕ
index_of none = 0
index_of (some n) = n

-- `Remove`; `none` is a panic. The slices are read at their length.
unfoldable pub remove : Rendezvous → String → Option Rendezvous
unfolding index_of
remove r node =
    let nidx = index_of (Dict.get r.nodes node) in
    let l = length r.nstr in
    elim (get_elem? r.nstr l) [
      | none ↦ none
      | some last ↦ elim (get_elem? r.nhash l) [
        | none ↦ none
        | some last_hash ↦ some (record {
          nodes = Dict.put (Dict.remove r.nodes node) last nidx;
          nstr = take l (set r.nstr nidx last);
          nhash = take l (set r.nhash nidx last_hash);
        })
      ]
    ]
