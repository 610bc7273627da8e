-- ===== src/Coordinator/Backups/Latest.antt =====
-- What `Prune` deletes, of the list and of the stores.
use zincsearch.Prelude.{
  In, here, there, false, not, ◌&&◌, str_eq, eq_refl, ap, subst, if◌then◌else◌, ℕ, suc, String,
  List, [], ◌∷◌, true, ◌==◌, eq_iff, arith, ◌≡◌, refl, ◌∙◌, none, Bool-cases, inl, inr,
}
use zincsearch.Prelude.Int.{ℤ, pos}
use zincsearch.Coordinator.Config.{is_one_of}
use text.Mathlib.TextLemmas.{append_cancel_left}
use zincsearch.Text.{cat}
use zincsearch.State.Store.{Store, View, Laws}
use zincsearch.Coordinator.Backups.Remaining.{latest-remaining}
use zincsearch.Coordinator.Backups.Deleting.{AreOther, delete_all-After, delete_all-none}
use zincsearch.Coordinator.Backups.{
  doomed, goes, Blobs, delete_all, backup_prefix, BackupRecord, latest_usable, mark, stays,
  keep_set, remaining,
}

abbrev names : List BackupRecord → List String
names [] = []
names (r ∷ rs) = r.name ∷ names rs

-- the records whose name is none of those that are gone
abbrev pub without : List BackupRecord → List BackupRecord → List BackupRecord
without gone [] = []
without gone (r ∷ rs) =
    if is_one_of r.name (names gone) then without gone rs else r ∷ without gone rs

names-goes :
    (keep : List String) (rs : List BackupRecord) (x : String)
    → is_one_of x (names (goes keep rs)) ≡ (is_one_of x (names rs) && not (is_one_of x keep))
unfolding goes
names-goes keep [] x = refl
names-goes keep (r ∷ rs) x = elim (Bool-cases (is_one_of r.name keep)) [
  | inl kept ↦ elim (Bool-cases (str_eq r.name x)) [
    | inl same ↦
        let kept' : is_one_of x keep ≡ true =
          subst (λ n. is_one_of n keep ≡ true) ((eq_iff r.name x).0 same) kept in
        rw kept (ground (arith, names-goes keep rs x, kept'))
    | inr other ↦ rw kept (ground (arith, names-goes keep rs x, other))
  ]
  | inr gone ↦ elim (Bool-cases (str_eq r.name x)) [
    | inl same ↦
        let gone' : is_one_of x keep ≡ false =
          subst (λ n. is_one_of n keep ≡ false) ((eq_iff r.name x).0 same) gone in
        rw gone (ground (arith, same, gone'))
    | inr other ↦ rw gone (ground (arith, names-goes keep rs x, other))
  ]
]

without-stays :
    (keep : List String) (all rs : List BackupRecord)
    → ((x : String) → is_one_of x (names rs) ≡ true → is_one_of x (names all) ≡ true)
    → without (goes keep all) rs ≡ stays keep rs
unfolding stays
without-stays keep all [] h = refl
without-stays keep all (r ∷ rs) h =
    let there' : is_one_of r.name (names all) ≡ true = h r.name (rw (eq_refl r.name) refl) in
    let rest = without-stays keep all rs (λ x m. h x (ground (arith, m))) in
    let gone = names-goes keep all r.name in
    elim (Bool-cases (is_one_of r.name keep)) [
      | inl kept ↦
          let stays' : is_one_of r.name (names (goes keep all)) ≡ false =
            ground (arith, gone, there', kept) in
          rw (stays', kept) (ap (λ l. r ∷ l) rest)
      | inr lost ↦
          let goes' : is_one_of r.name (names (goes keep all)) ≡ true =
            ground (arith, gone, there', lost) in
          rw (goes', lost) rest
    ]

without-none : (rs : List BackupRecord) → without [] rs ≡ rs
without-none [] = refl
without-none (r ∷ rs) = ap (λ l. r ∷ l) (without-none rs)

without-doomed :
    (retention : ℤ) (rs : List BackupRecord)
    → without (doomed retention rs) rs ≡ remaining retention rs
unfolding doomed remaining
without-doomed retention rs = elim (Bool-cases ((mark retention 0 rs).1 == 0)) [
  | inl unusable ↦ rw unusable (without-none rs)
  | inr usable ↦ rw usable (without-stays (keep_set retention rs) rs rs (λ x m. m))
]

kept_other :
    (gone : List BackupRecord) (x : BackupRecord) (rs : List BackupRecord) (r : BackupRecord)
    → is_one_of x.name (names gone) ≡ false
    → In r (x ∷ without gone rs)
    → (In r (without gone rs) → is_one_of r.name (names gone) ≡ false)
    → is_one_of r.name (names gone) ≡ false
kept_other gone x rs r kept (here e) ih =
    subst (λ (y : BackupRecord). is_one_of y.name (names gone) ≡ false) e kept
kept_other gone x rs r kept (there i) ih = ih i

without-other :
    (gone rs : List BackupRecord) (r : BackupRecord)
    → In r (without gone rs)
    → is_one_of r.name (names gone) ≡ false
without-other gone [] r i = elim i [ ]
without-other gone (x ∷ rs) r i = elim (Bool-cases (is_one_of x.name (names gone))) [
  | inl lost ↦ without-other gone rs r (rw lost at i)
  | inr kept ↦ kept_other gone x rs r kept (rw kept at i) (without-other gone rs r)
]

module _ {V : Type 0} {σ : Store V} {view : View σ} (laws : Laws view) (β : Blobs) where
  open view use {entry, IsWell}

  names-AreOther :
      (x : String) (gone : List BackupRecord)
      → is_one_of x (names gone) ≡ false
      → AreOther laws β (cat backup_prefix x) gone
  names-AreOther x [] h = tt
  names-AreOther x (r ∷ gone) h = (
    elim (Bool-cases (str_eq (cat backup_prefix r.name) (cat backup_prefix x))) [
      | inr other ↦ other
      | inl same ↦
          let e : r.name ≡ x = append_cancel_left backup_prefix r.name x ((eq_iff _ _).0 same) in
          absurd (ground (arith, h, (eq_iff r.name x).1 e))
    ],
    names-AreOther x gone (ground (arith, h)),
  )

  -- If at least one backup is to be kept, then the backup that a node would be recovered from is the
  -- same before and after the records that `Prune` deletes are gone from the list; and whatever
  -- fails while it deletes them, it leaves the stored records of the others, and every entry but
  -- theirs, as they are; and if nothing fails, the store has none of those that it deletes.
  pub prune_keeps_latest :
      (k : ℕ) (rs : List BackupRecord) (s : σ.St) (b : β.Db)
      → IsWell s
      → let gone = doomed (pos (suc k)) rs in
        (latest_usable (without gone rs) ≡ latest_usable rs)
        × ((r : BackupRecord)
            → In r (without gone rs)
            → entry (delete_all σ β gone (s, b)).1.0 (cat backup_prefix r.name)
              ≡ entry s (cat backup_prefix r.name))
        × ((key : String)
            → AreOther laws β key gone
            → entry (delete_all σ β gone (s, b)).1.0 key ≡ entry s key)
        × ((delete_all σ β gone (s, b)).0 ≡ []
            → (r : BackupRecord) → In r gone
            → entry (delete_all σ β gone (s, b)).1.0 (cat backup_prefix r.name) ≡ none)
  prune_keeps_latest k rs s b w = (
    ap latest_usable (without-doomed (pos (suc k)) rs) ∙ latest-remaining k rs,
    λ r i.
        (delete_all-After laws β (doomed (pos (suc k)) rs) s b (cat backup_prefix r.name) w (
          names-AreOther r.name (doomed (pos (suc k)) rs)
            (without-other (doomed (pos (suc k)) rs) rs r i))).1,
    λ key other. (delete_all-After laws β (doomed (pos (suc k)) rs) s b key w other).1,
    (delete_all-none laws β (doomed (pos (suc k)) rs) s b w).1,
  )
