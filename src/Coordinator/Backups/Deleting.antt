-- ===== src/Coordinator/Backups/Deleting.antt =====
-- What deleting the records of backups does to the store.
use zincsearch.Prelude.{
  In, here, there, false, str_eq, eq_refl, subst, if◌then◌else◌, All, Result-cases, String, List,
  [], ◌∷◌, ◌++◌, true, ◌≡◌, refl, ◌∙◌, Option, none, Bool-cases, inl, inr, Bool,
}
use zincsearch.Text.{cat}
use zincsearch.State.Store.{Store, View, Laws}
use zincsearch.Coordinator.Backups.{
  Blobs, delete_record, delete_all, backup_prefix, BackupRecord, Entry,
}

module _ {V : Type 0} {σ : Store V} {view : View σ} (laws : Laws view) (β : Blobs) where
  open view use {entry, IsWell}

  abbrev After : σ.St → String → σ.St → Type 0
  After s k s' = IsWell s' × (entry s' k ≡ entry s k)

  delete-After :
      (s : σ.St) (j k : String) → IsWell s → str_eq j k ≡ false → After s k (σ.delete s j).1
  delete-After s j k w other = elim (Result-cases (σ.delete s j).0) [
    | inl (u, done) ↦ let d = laws.delete_ok s j w done in (d.well, d.entries k ∙ rw other refl)
    | inr (e, failed) ↦ elim (laws.delete_err s j e w failed) [
      | inl kept ↦ (kept.well, kept.entries k)
      | inr (_, d) ↦ (d.well, d.entries k ∙ rw other refl)
    ]
  ]

  delete_record-After :
      (r : BackupRecord) (s : σ.St) (b : β.Db) (k : String)
      → IsWell s
      → str_eq (cat backup_prefix r.name) k ≡ false
      → After s k (delete_record σ β r (s, b)).1.0
  unfolding delete_record
  delete_record-After r s b k w other =
      let deleted = delete-After s (cat backup_prefix r.name) k w other in
      elim (Bool-cases (β.delete b r.name).0) [
        | inr no' ↦ rw (no', delete_record) (w, refl)
        | inl yes' ↦ elim (Result-cases (σ.delete s (cat backup_prefix r.name)).0) [
          | inl (u, done) ↦ rw (yes', done, delete_record) deleted
          | inr (e, failed) ↦ rw (yes', failed, delete_record) deleted
        ]
      ]

  -- No record of the list has the key.
  abbrev pub AreOther : String → List BackupRecord → Type 0
  AreOther k = All (λ r. str_eq (cat backup_prefix r.name) k ≡ false)

  pub delete_all-After :
      (rs : List BackupRecord) (s : σ.St) (b : β.Db) (k : String)
      → IsWell s
      → AreOther k rs
      → After s k (delete_all σ β rs (s, b)).1.0
  unfolding delete_all
  delete_all-After [] s b k w h = (w, refl)
  delete_all-After (r ∷ rs) s b k w h =
      let (s', b') = (delete_record σ β r (s, b)).1 in
      let (w', e) = delete_record-After r s b k w h.0 in
      let (w'', e') = delete_all-After rs s' b' k w' h.1 in (w'', e' ∙ e)

  none_if : (c : Bool) (o : Option (Entry V)) → o ≡ none → (if c then none else o) ≡ none
  none_if true o h = refl
  none_if false o h = h

  -- What is gone stays gone.
  delete_none :
      (s : σ.St) (j k : String) → IsWell s → entry s k ≡ none → entry (σ.delete s j).1 k ≡ none
  delete_none s j k w none_yet = elim (Result-cases (σ.delete s j).0) [
    | inl (u, done) ↦
        (laws.delete_ok s j w done).entries k ∙ none_if (str_eq j k) (entry s k) none_yet
    | inr (e, failed) ↦ elim (laws.delete_err s j e w failed) [
      | inl kept ↦ kept.entries k ∙ none_yet
      | inr (_, d) ↦ d.entries k ∙ none_if (str_eq j k) (entry s k) none_yet
    ]
  ]

  delete-IsWell : (s : σ.St) (j : String) → IsWell s → IsWell (σ.delete s j).1
  delete-IsWell s j w = elim (Result-cases (σ.delete s j).0) [
    | inl (u, done) ↦ (laws.delete_ok s j w done).well
    | inr (e, failed) ↦ elim (laws.delete_err s j e w failed) [
      | inl kept ↦ kept.well
      | inr (_, d) ↦ d.well
    ]
  ]

  delete_record-none :
      (r : BackupRecord) (s : σ.St) (b : β.Db)
      → IsWell s
      → let out = delete_record σ β r (s, b) in
        IsWell out.1.0
        × ((k : String) → entry s k ≡ none → entry out.1.0 k ≡ none)
        × (out.0 ≡ [] → entry out.1.0 (cat backup_prefix r.name) ≡ none)
  unfolding delete_record
  delete_record-none r s b w = elim (Bool-cases (β.delete b r.name).0) [
    | inr no' ↦ rw (no', delete_record) (w, λ k h. h, λ clean. cc)
    | inl yes' ↦ elim (Result-cases (σ.delete s (cat backup_prefix r.name)).0) [
      | inl (u, done) ↦
          rw (yes', done, delete_record)
            (
              delete-IsWell s (cat backup_prefix r.name) w,
              λ k h. delete_none s (cat backup_prefix r.name) k w h,
              λ clean.
                  (laws.delete_ok s (cat backup_prefix r.name) w done).entries
                    (cat backup_prefix r.name)
                  ∙ rw (eq_refl (cat backup_prefix r.name)) refl,
            )
      | inr (e, failed) ↦
          rw (yes', failed, delete_record)
            (
              delete-IsWell s (cat backup_prefix r.name) w,
              λ k h. delete_none s (cat backup_prefix r.name) k w h,
              λ clean. cc,
            )
    ]
  ]

  append-empty : (a b : List String) → a ++ b ≡ [] → (a ≡ []) × (b ≡ [])
  append-empty [] b e = (refl, e)
  append-empty (x ∷ a) b e = cc

  -- An error in none of the deletions is an error in no one of them.
  deleted_one :
      (x : BackupRecord) (rs : List BackupRecord) (s' : σ.St) (b' : β.Db) (errs : List String)
      (r : BackupRecord)
      → In r (x ∷ rs)
      → (errs ≡ [] → entry (delete_all σ β rs (s', b')).1.0 (cat backup_prefix x.name) ≡ none)
      → ((delete_all σ β rs (s', b')).0 ≡ []
          → (y : BackupRecord) → In y rs
          → entry (delete_all σ β rs (s', b')).1.0 (cat backup_prefix y.name) ≡ none)
      → errs ++ (delete_all σ β rs (s', b')).0 ≡ []
      → entry (delete_all σ β rs (s', b')).1.0 (cat backup_prefix r.name) ≡ none
  deleted_one x rs s' b' errs r (here e) this rest clean =
      subst
        (λ (y : BackupRecord).
          entry (delete_all σ β rs (s', b')).1.0 (cat backup_prefix y.name) ≡ none)
        e (this (append-empty errs _ clean).0)
  deleted_one x rs s' b' errs r (there i) this rest clean = rest (append-empty errs _ clean).1 r i

  pub delete_all-none :
      (rs : List BackupRecord) (s : σ.St) (b : β.Db)
      → IsWell s
      → ((k : String) → entry s k ≡ none → entry (delete_all σ β rs (s, b)).1.0 k ≡ none)
        × ((delete_all σ β rs (s, b)).0 ≡ []
            → (r : BackupRecord) → In r rs
            → entry (delete_all σ β rs (s, b)).1.0 (cat backup_prefix r.name) ≡ none)
  unfolding delete_all
  delete_all-none [] s b w = (λ k h. h, λ clean r i. elim i [ ])
  delete_all-none (x ∷ rs) s b w =
      let (errs, (s', b')) = delete_record σ β x (s, b) in
      let (w', keeps, goes') = delete_record-none x s b w in
      let (keeps', goes'') = delete_all-none rs s' b' w' in
      (
        λ k h. keeps' k (keeps k h),
        λ clean r i.
            deleted_one x rs s' b' errs r i
              (λ no_errs. keeps' (cat backup_prefix x.name) (goes' no_errs)) goes'' clean,
      )
