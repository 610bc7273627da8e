-- ===== src/State/Json/Reading.antt =====
-- What a reader knows of a value that it read a while ago: as long as the revision stands, so does
-- the value. It is what a compare-and-set on the revision relies on.
use zincsearch.Prelude.{
  ℕ, String, ◌≡◌, ◌≤◌, ◌∙◌, sym, some, false, str_eq, arith, eq_iff, Result, ok, err,
}
use zincsearch.State.Entry.{StateErr, Entry, Codec}
use zincsearch.State.Store.{Store, View, Written, Kept, Laws}
use zincsearch.State.Json.{get_json}
use zincsearch.State.Json.Laws.{get_json-ok}

module _ {V A : Type 0} {σ : Store V} {view : View σ} (laws : Laws view) (c : Codec V A)
    (k : String) where
  open view use {entry, top, IsWell}

  -- The store holds the value under the key.
  abbrev pub Holds : σ.St → A → Type 0
  Holds s a = (e : Entry V) × (entry s k ≡ some e) × (c.unmarshal e.value ≡ some a)

  abbrev pub IsGood : σ.St → Result StateErr (A × ℕ) → Type 0
  IsGood s (ok (a, rev)) =
      (rev ≤ top s k)
      × ((e : Entry V) → entry s k ≡ some e → e.revision ≡ rev → c.unmarshal e.value ≡ some a)
  IsGood s (err x) = Unit

  pub reading-IsGood :
      (s : σ.St) (r : Result StateErr (A × ℕ)) → IsWell s → r ≡ get_json σ c s k → IsGood s r
  reading-IsGood s (err x) w p = tt
  reading-IsGood s (ok (a, n)) w p =
      let (e, there, value, eq) = get_json-ok σ c s k a n (sym p) in
      let at = laws.get_ok s k e there in
      (ground (arith, laws.revision_le s k e w at, eq), λ e' p' _. cc (at, p', value))

  pub Kept-IsGood :
      (s s' : σ.St) (r : Result StateErr (A × ℕ)) → Kept view s s' → IsGood s r → IsGood s' r
  Kept-IsGood s s' (err x) h g = tt
  Kept-IsGood s s' (ok (a, rev)) h g =
      (ground (arith, h.grows k), λ e p q. ground (arith, h.entries k, g.1 e))

  -- A write under any key.
  pub Written-IsGood :
      (s s' : σ.St) (j : String) (v : V) (n : ℕ) (r : Result StateErr (A × ℕ))
      → Written view s j v n s'
      → IsGood s r
      → IsGood s' r
  Written-IsGood s s' j v n (err x) w g = tt
  Written-IsGood s s' j v n (ok (a, rev)) w g =
      (ground (arith, w.grows k), λ e p q. ground (arith, w.entries k, w.fresh, eq_iff j k, g.1 e))

  pub Kept-Holds : (s s' : σ.St) (a : A) → Kept view s s' → Holds s a → Holds s' a
  Kept-Holds s s' a h (e, there, value) = (e, h.entries k ∙ there, value)

  -- A write under another key leaves the value.
  pub Written-Holds :
      (s s' : σ.St) (j : String) (v : V) (n : ℕ) (a : A)
      → Written view s j v n s'
      → str_eq j k ≡ false
      → Holds s a
      → Holds s' a
  Written-Holds s s' j v n a w other (e, there, value) =
      (e, ground (arith, w.entries k, other, there), value)
