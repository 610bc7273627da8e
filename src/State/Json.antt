-- ===== src/State/Json.antt =====
-- pkg/coordinator/state/state.go: `GetJSON`, `CreateJSON` and `UpdateJSON`, over any store.
pub mod Laws
pub mod Reading
use zincsearch.Prelude.{ℕ, String, Option, none, some, Result, ok, err}
use zincsearch.State.Entry.{StateErr, bad_json, Entry, Codec}
use zincsearch.State.Store.{Store}

module _ {V A : Type 0} (σ : Store V) (c : Codec V A) where
  read_entry : Result StateErr (Entry V) → Result StateErr (A × ℕ)
  read_entry (err x) = err x
  read_entry (ok e) = elim (c.unmarshal e.value) [
    | none ↦ err bad_json
    | some a ↦ ok (a, e.revision)
  ]

  unfoldable pub get_json : σ.St → String → Result StateErr (A × ℕ)
  unfolding read_entry
  get_json s key = read_entry (σ.get s key)

  create_raw : Option V → σ.St → String → Result StateErr ℕ × σ.St
  create_raw none s key = (err bad_json, s)
  create_raw (some raw) s key = σ.create s key raw

  unfoldable pub create_json : σ.St → String → A → Result StateErr ℕ × σ.St
  unfolding create_raw
  create_json s key a = create_raw (c.marshal a) s key

  update_raw : Option V → σ.St → String → ℕ → Result StateErr ℕ × σ.St
  update_raw none s key expected = (err bad_json, s)
  update_raw (some raw) s key expected = σ.update s key raw expected

  unfoldable pub update_json : σ.St → String → A → ℕ → Result StateErr ℕ × σ.St
  unfolding update_raw
  update_json s key a expected = update_raw (c.marshal a) s key expected
