-- ===== src/State/Entry.antt =====
-- pkg/coordinator/state/state.go: the errors, the keys and the entries of the coordinator's
-- key/value store, and the JSON that is kept in it.
use zincsearch.Prelude.{
  ℕ, String, ◌≡◌, List, [], ◌∷◌, Bool, false, ◌&&◌, ◌||◌, leb, ◌==◌, Option, some, length,
}
use zincsearch.Text.{codes, is_alnum, all_codes}

-- `ErrNotFound`, `ErrConflict`, `ErrInvalidKey`, a value that is no valid JSON for its type, and what else a
-- store may report, such as a connection that is lost
pub data StateErr : Type 0 where
  not_found conflict invalid_key bad_json unavailable : StateErr

-- `keyRe`: ^[A-Za-z0-9][A-Za-z0-9/_=.-]{0,254}$
unfoldable pub is_key_code : ℕ → Bool
unfolding is_alnum
is_key_code c = is_alnum c || c == b'/' || c == b'_' || c == b'=' || c == b'.' || c == b'-'

valid_codes : List ℕ → Bool
unfolding is_alnum is_key_code all_codes
valid_codes [] = false
valid_codes (c ∷ cs) = is_alnum c && all_codes is_key_code cs && leb (length cs) 254

unfoldable pub valid_key : String → Bool
unfolding valid_codes
valid_key key = valid_codes (codes key)

pub record Entry (V : Type 0) : Type 0 where
  pub key : String
  pub value : V
  pub revision : ℕ

-- How `encoding/json` stores values of a type: `json.Marshal` and `json.Unmarshal`.
pub record Codec (V A : Type 0) : Type 0 where
  pub marshal : A → Option V
  pub unmarshal : V → Option A

-- What is written can be read back.
pub record IsCodec {V A : Type 0} (c : Codec V A) : Type 0 where
  pub read_back : (a : A) (v : V) → c.marshal a ≡ some v → c.unmarshal v ≡ some a
