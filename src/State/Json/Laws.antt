-- ===== src/State/Json/Laws.antt =====
-- What the helpers on JSON values do to a store that keeps the promises of the interface.
use zincsearch.Prelude.{
  ℕ, String, ◌≡◌, Option, none, some, arith, Result, ok, err, refl, ◌⊎◌, inl, inr,
}
use zincsearch.State.Entry.{StateErr, not_found, Entry, Codec}
use zincsearch.State.Store.{Store, View, Written, Kept, Laws, Expected}
use zincsearch.State.Json.{read_entry, get_json, create_raw, create_json, update_raw, update_json}

module _ {V A : Type 0} (σ : Store V) (c : Codec V A) where
  read_entry-ok :
      (g : Result StateErr (Entry V)) (a : A) (n : ℕ)
      → read_entry σ c g ≡ ok (a, n)
      → (e : Entry V) × (g ≡ ok e) × (c.unmarshal e.value ≡ some a) × (e.revision ≡ n)
  unfolding read_entry
  read_entry-ok (err x) a n p = cc
  read_entry-ok (ok e) a n p = (e, refl, ground arith, ground arith)

  read_entry-missing :
      (g : Result StateErr (Entry V)) → read_entry σ c g ≡ err not_found → g ≡ err not_found
  unfolding read_entry
  read_entry-missing (err x) p = ground arith
  read_entry-missing (ok e) p = ground arith

  pub get_json-ok :
      (s : σ.St) (k : String) (a : A) (n : ℕ)
      → get_json σ c s k ≡ ok (a, n)
      → (e : Entry V) × (σ.get s k ≡ ok e) × (c.unmarshal e.value ≡ some a) × (e.revision ≡ n)
  unfolding get_json
  get_json-ok s k a n p = read_entry-ok (σ.get s k) a n p

  pub get_json-missing :
      (s : σ.St) (k : String) → get_json σ c s k ≡ err not_found → σ.get s k ≡ err not_found
  unfolding get_json
  get_json-missing s k p = read_entry-missing (σ.get s k) p

module _ {V A : Type 0} {σ : Store V} {view : View σ} (laws : Laws view) (c : Codec V A) where
  create_raw-ok :
      (o : Option V) (s : σ.St) (k : String) (n : ℕ)
      → view.IsWell s
      → view.HasRoom s
      → (create_raw σ c o s k).0 ≡ ok n
      → (v : V) × (o ≡ some v)
        × Written view s k v n (create_raw σ c o s k).1
        × (view.entry s k ≡ none)
  unfolding create_raw
  create_raw-ok none s k n w room p = cc
  create_raw-ok (some v) s k n w room p =
      (v, refl, laws.create_ok s k v n w room p, laws.create_was s k v n p)

  pub create_json-ok :
      (s : σ.St) (k : String) (a : A) (n : ℕ)
      → view.IsWell s
      → view.HasRoom s
      → (create_json σ c s k a).0 ≡ ok n
      → (v : V) × (c.marshal a ≡ some v)
        × Written view s k v n (create_json σ c s k a).1
        × (view.entry s k ≡ none)
  unfolding create_json
  create_json-ok s k a n = create_raw-ok (c.marshal a) s k n

  pub self-Kept : (s : σ.St) → view.IsWell s → Kept view s s
  self-Kept s w = record { well = w; grows = λ j. omega arith; entries = λ j. refl }

  -- What a call that fails may have written all the same.
  abbrev pub Created : σ.St → String → A → σ.St → Type 0
  Created s k a s' =
      (v : V) × (n : ℕ) × (c.marshal a ≡ some v) × Written view s k v n s' × (view.entry s k ≡ none)

  abbrev pub Updated : σ.St → String → A → ℕ → σ.St → Type 0
  Updated s k a x s' =
      (v : V) × (n : ℕ) × (c.marshal a ≡ some v) × Written view s k v n s' × Expected view s k x

  create_raw-err :
      (o : Option V) (s : σ.St) (k : String) (x : StateErr)
      → view.IsWell s
      → view.HasRoom s
      → (create_raw σ c o s k).0 ≡ err x
      → Kept view s (create_raw σ c o s k).1
        ⊎ ((v : V) × (n : ℕ) × (o ≡ some v)
            × Written view s k v n (create_raw σ c o s k).1
            × (view.entry s k ≡ none))
  unfolding create_raw
  create_raw-err none s k x w room p = inl (self-Kept s w)
  create_raw-err (some v) s k x w room p = elim (laws.create_err s k v x w room p) [
    | inl kept ↦ inl kept
    | inr (_, was, (n, wr)) ↦ inr (v, n, refl, wr, was)
  ]

  pub create_json-err :
      (s : σ.St) (k : String) (a : A) (x : StateErr)
      → view.IsWell s
      → view.HasRoom s
      → (create_json σ c s k a).0 ≡ err x
      → Kept view s (create_json σ c s k a).1 ⊎ Created s k a (create_json σ c s k a).1
  unfolding create_json
  create_json-err s k a x = create_raw-err (c.marshal a) s k x

  update_raw-ok :
      (o : Option V) (s : σ.St) (k : String) (x n : ℕ)
      → view.IsWell s
      → view.HasRoom s
      → (update_raw σ c o s k x).0 ≡ ok n
      → (v : V) × (o ≡ some v)
        × Written view s k v n (update_raw σ c o s k x).1
        × Expected view s k x
  unfolding update_raw
  update_raw-ok none s k x n w room p = cc
  update_raw-ok (some v) s k x n w room p =
      (v, refl, laws.update_ok s k v x n w room p, laws.update_was s k v x n p)

  pub update_json-ok :
      (s : σ.St) (k : String) (a : A) (x n : ℕ)
      → view.IsWell s
      → view.HasRoom s
      → (update_json σ c s k a x).0 ≡ ok n
      → (v : V) × (c.marshal a ≡ some v)
        × Written view s k v n (update_json σ c s k a x).1
        × Expected view s k x
  unfolding update_json
  update_json-ok s k a x n = update_raw-ok (c.marshal a) s k x n

  update_raw-err :
      (o : Option V) (s : σ.St) (k : String) (x : ℕ) (y : StateErr)
      → view.IsWell s
      → view.HasRoom s
      → (update_raw σ c o s k x).0 ≡ err y
      → Kept view s (update_raw σ c o s k x).1
        ⊎ ((v : V) × (n : ℕ) × (o ≡ some v)
            × Written view s k v n (update_raw σ c o s k x).1
            × Expected view s k x)
  unfolding update_raw
  update_raw-err none s k x y w room p = inl (self-Kept s w)
  update_raw-err (some v) s k x y w room p = elim (laws.update_err s k v x y w room p) [
    | inl kept ↦ inl kept
    | inr (_, was, (n, wr)) ↦ inr (v, n, refl, wr, was)
  ]

  pub update_json-err :
      (s : σ.St) (k : String) (a : A) (x : ℕ) (y : StateErr)
      → view.IsWell s
      → view.HasRoom s
      → (update_json σ c s k a x).0 ≡ err y
      → Kept view s (update_json σ c s k a x).1 ⊎ Updated s k a x (update_json σ c s k a x).1
  unfolding update_json
  update_json-err s k a x y = update_raw-err (c.marshal a) s k x y
