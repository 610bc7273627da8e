-- ===== src/State/Mem/Laws.antt =====
-- `Mem` keeps the promises of the interface.
use zincsearch.Prelude.{
  ℕ, ◌+◌, ◌^◌, ◌≤◌, ◌<◌, String, ◌≡◌, refl, Option, none, some, true, arith, eq_iff, str_eq, ◌==◌,
  ==_iff, Bool-cases, inl, inr, if◌then◌else◌, ok, err, Option-cases, ◌≢◌,
}
use zincsearch.Dict
use zincsearch.Dict.{get-put, get-remove}
use zincsearch.State.Entry.{StateErr, not_found, Entry, valid_key, conflict}
use zincsearch.State.Mem.Listing.{IsDistinct, put-IsDistinct, remove-IsDistinct, list_shape}
use zincsearch.State.Store.{Deleted, View, Written, Kept, Laws}
use zincsearch.State.Mem.{Mem, get, create, update, delete, update_at, mem_store}

module _ {V : Type 0} where
  -- Every entry stands under its own key, which is valid, and has a revision that was given out.
  pub record IsWell (m : Mem V) : Type 0 where
    pub own_key : (k : String) (e : Entry V) → Dict.get m.entries k ≡ some e → e.key ≡ k
    pub key_valid : (k : String) (e : Entry V) → Dict.get m.entries k ≡ some e → valid_key k ≡ true
    pub revision_le :
        (k : String) (e : Entry V) → Dict.get m.entries k ≡ some e → e.revision ≤ m.rev
    pub distinct : IsDistinct m.entries

abbrev pub mem_view : (V : Type 0) → View (mem_store V)
mem_view V = record {
  entry = λ m k. Dict.get m.entries k;
  top = λ m k. m.rev;
  IsWell = IsWell;
  HasRoom = λ m. m.rev + 1 < 2 ^ 64;
}

module _ {V : Type 0} where
  -- The store after a write, from what a write does to the two fields.
  put-IsWell :
      (m : Mem V) (k : String) (v : V) (r : ℕ)
      → IsWell m
      → valid_key k ≡ true
      → m.rev < r
      → IsWell (record {
        entries = Dict.put m.entries k (record { key = k; value = v; revision = r });
        rev = r;
      })
  put-IsWell m k v r h good lt = record {
    own_key = λ j e p. ground (
      arith,
      eq_iff k j,
      get-put m.entries k (record { key = k; value = v; revision = r }) j,
      h.own_key j e,
    );
    key_valid = λ j e p. ground (
      arith,
      eq_iff k j,
      get-put m.entries k (record { key = k; value = v; revision = r }) j,
      h.key_valid j e,
    );
    revision_le = λ j e p. ground (
      arith,
      eq_iff k j,
      get-put m.entries k (record { key = k; value = v; revision = r }) j,
      h.revision_le j e,
    );
    distinct = put-IsDistinct m.entries k (record { key = k; value = v; revision = r }) h.distinct;
  }

  put-Written :
      (m : Mem V) (k : String) (v : V) (r : ℕ)
      → IsWell m
      → valid_key k ≡ true
      → m.rev < r
      → Written (mem_view V) m k v r (record {
        entries = Dict.put m.entries k (record { key = k; value = v; revision = r });
        rev = r;
      })
  put-Written m k v r h good lt = record {
    well = put-IsWell m k v r h good lt;
    fresh = lt;
    grows = λ j. omega arith;
    entries = λ j. get-put m.entries k (record { key = k; value = v; revision = r }) j;
  }

  same-Kept : (m : Mem V) → IsWell m → Kept (mem_view V) m m
  same-Kept m h = record { well = h; grows = λ j. omega arith; entries = λ j. refl }

  create_shape :
      (m : Mem V) (k : String) (v : V) (r : ℕ)
      → (create m k v).0 ≡ ok r
      → m.rev + 1 < 2 ^ 64
      → (valid_key k ≡ true)
        × (Dict.get m.entries k ≡ none)
        × (r ≡ m.rev + 1)
        × ((create m k v).1 ≡ record {
          entries = Dict.put m.entries k (record { key = k; value = v; revision = r });
          rev = r;
        })
  unfolding create
  create_shape m k v r p room = ground arith

  update_shape :
      (m : Mem V) (k : String) (v : V) (x r : ℕ)
      → (update m k v x).0 ≡ ok r
      → m.rev + 1 < 2 ^ 64
      → (valid_key k ≡ true)
        × (r ≡ m.rev + 1)
        × ((update m k v x).1 ≡ record {
          entries = Dict.put m.entries k (record { key = k; value = v; revision = r });
          rev = r;
        })
  unfolding update
  update_shape m k v x r p room = ground arith

  pub delete_entries :
      (m : Mem V) (k j : String)
      → Dict.get (delete m k).1.entries j ≡ (if str_eq k j then none else Dict.get m.entries j)
  unfolding delete
  delete_entries m k j = get-remove m.entries k j

  pub delete-IsWell : (m : Mem V) (k : String) → IsWell m → IsWell (delete m k).1
  unfolding delete
  delete-IsWell m k h = record {
    own_key = λ j e p. ground (arith, get-remove m.entries k j, h.own_key j e);
    key_valid = λ j e p. ground (arith, get-remove m.entries k j, h.key_valid j e);
    revision_le = λ j e p. ground (arith, get-remove m.entries k j, h.revision_le j e);
    distinct = remove-IsDistinct m.entries k h.distinct;
  }

  pub rev-delete : (m : Mem V) (k : String) → (delete m k).1.rev ≡ m.rev
  unfolding delete
  rev-delete m k = refl

  pub create-Written :
      (m : Mem V) (k : String) (v : V) (r : ℕ)
      → IsWell m
      → m.rev + 1 < 2 ^ 64
      → (create m k v).0 ≡ ok r
      → Written (mem_view V) m k v r (create m k v).1
  create-Written m k v r h room p =
      let (good, _, e, shape) = create_shape m k v r p room in
      rw shape (put-Written m k v r h good (omega arith))

  pub update-Written :
      (m : Mem V) (k : String) (v : V) (x r : ℕ)
      → IsWell m
      → m.rev + 1 < 2 ^ 64
      → (update m k v x).0 ≡ ok r
      → Written (mem_view V) m k v r (update m k v x).1
  update-Written m k v x r h room p =
      let (good, e, shape) = update_shape m k v x r p room in
      rw shape (put-Written m k v r h good (omega arith))

  pub create_err-same :
      (m : Mem V) (k : String) (v : V) (e : StateErr)
      → (create m k v).0 ≡ err e
      → (create m k v).1 ≡ m
  unfolding create
  create_err-same m k v e p = ground arith

  pub update_err-same :
      (m : Mem V) (k : String) (v : V) (x : ℕ) (e : StateErr)
      → (update m k v x).0 ≡ err e
      → (update m k v x).1 ≡ m
  unfolding update
  update_err-same m k v x e p = ground arith

  pub get-some :
      (m : Mem V) (k : String) (e : Entry V) → get m k ≡ ok e → Dict.get m.entries k ≡ some e
  unfolding get
  get-some m k e p = ground arith

  get-none : (m : Mem V) (k : String) → get m k ≡ err not_found → Dict.get m.entries k ≡ none
  unfolding get
  get-none m k p = ground arith

  create-was :
      (m : Mem V) (k : String) (v : V) (r : ℕ)
      → (create m k v).0 ≡ ok r
      → Dict.get m.entries k ≡ none
  unfolding create
  create-was m k v r p = ground arith

  update_at-was :
      (o : Option (Entry V)) (m : Mem V) (k : String) (v : V) (x r : ℕ)
      → (update_at o m k v x).0 ≡ ok r
      → (e : Entry V) × (o ≡ some e) × (e.revision ≡ x)
  unfolding update_at
  update_at-was none m k v x r p = cc
  update_at-was (some e) m k v x r p = elim (Bool-cases (e.revision == x)) [
    | inl h ↦ (e, refl, (==_iff _ _).0 h)
    | inr h ↦ cc (rw h at p)
  ]

  pub update-was :
      (m : Mem V) (k : String) (v : V) (x r : ℕ)
      → (update m k v x).0 ≡ ok r
      → (e : Entry V) × (Dict.get m.entries k ≡ some e) × (e.revision ≡ x)
  update-was m k v x r p =
      update_at-was (Dict.get m.entries k) m k v x r (elim (Bool-cases (valid_key k)) [
        | inl h ↦ unfold update in rw (h, update) at p
        | inr h ↦ unfold update in cc (rw (h, update) at p)
      ])

  create-conflict :
      (m : Mem V) (k : String) (v : V)
      → (create m k v).0 ≡ err conflict
      → (e : Entry V) × (Dict.get m.entries k ≡ some e)
  unfolding create
  create-conflict m k v p = elim (Option-cases (Dict.get m.entries k)) [
    | inl missing ↦ absurd (ground (arith, p, missing))
    | inr found ↦ found
  ]

  update_at-conflict :
      (o : Option (Entry V)) (m : Mem V) (k : String) (v : V) (x : ℕ)
      → (update_at o m k v x).0 ≡ err conflict
      → (e : Entry V) × (o ≡ some e) × (e.revision ≢ x)
  unfolding update_at
  update_at-conflict none m k v x p = cc p
  update_at-conflict (some e) m k v x p =
      (e, refl, λ h. ground (arith, p, (==_iff e.revision x).1 h))

  update-conflict :
      (m : Mem V) (k : String) (v : V) (x : ℕ)
      → (update m k v x).0 ≡ err conflict
      → (e : Entry V) × (Dict.get m.entries k ≡ some e) × (e.revision ≢ x)
  update-conflict m k v x p =
      update_at-conflict (Dict.get m.entries k) m k v x (elim (Bool-cases (valid_key k)) [
        | inl h ↦ unfold update in rw (h, update) at p
        | inr h ↦ unfold update in cc (rw (h, update) at p)
      ])

  update-missing :
      (m : Mem V) (k : String) (v : V) (x : ℕ)
      → (update m k v x).0 ≡ err not_found
      → Dict.get m.entries k ≡ none
  unfolding update
  update-missing m k v x p = ground arith

  delete-Deleted : (m : Mem V) (k : String) → IsWell m → Deleted (mem_view V) m k (delete m k).1
  delete-Deleted m k h = record {
    well = delete-IsWell m k h;
    grows = λ j. omega (arith, rev-delete m k);
    entries = λ j. delete_entries m k j;
  }

  delete-ok : (m : Mem V) (k : String) → (delete m k).0 ≡ ok tt
  unfolding delete
  delete-ok m k = refl

  pub mem_laws : Laws (mem_view V)
  mem_laws = record {
    get_ok = get-some;
    get_missing = get-none;
    revision_le = λ m k e h p. h.revision_le k e p;
    create_was = create-was;
    create_ok = create-Written;
    create_conflict = create-conflict;
    create_err = λ m k v e h room p. inl (rw (create_err-same m k v e p) (same-Kept m h));
    update_was = update-was;
    update_ok = update-Written;
    update_conflict = update-conflict;
    update_missing = update-missing;
    update_err = λ m k v x e h room p. inl (rw (update_err-same m k v x e p) (same-Kept m h));
    delete_ok = λ m k h p. delete-Deleted m k h;
    delete_err = λ m k e h p. cc (p, delete-ok m k);
    list_ok = λ m prefix es h p. list_shape m prefix es h.distinct h.own_key p;
  }
