-- ===== src/Coordinator/Backups/Remaining.antt =====
-- What is left of the list of backups when some are pruned.
use zincsearch.Prelude.{
  ℕ, suc, String, List, [], ◌∷◌, ◌++◌, true, ◌||◌, ◌==◌, eq_iff, arith, ◌≡◌, ◌≢◌, refl, sym, ◌∙◌,
  ◌⊎◌, Option, none, some, Bool-cases, inl, inr,
}
use zincsearch.Prelude.Int.{pos, leb_ℤ}
use zincsearch.Coordinator.Config.{is_one_of}
use zincsearch.Coordinator.Backups.{
  BackupStatus, uploaded, verified, bad, BackupRecord, latest_loop, latest_usable, is_verified,
  mark, newest_verified, stays, keep_set, remaining,
}

-- All of these names are kept.
abbrev AreKept : List String → List String → Type 0
AreKept names keep = (x : String) → is_one_of x names ≡ true → is_one_of x keep ≡ true

is_one_of-append :
    (x : String) (a b : List String) → is_one_of x (a ++ b) ≡ (is_one_of x a || is_one_of x b)
is_one_of-append x [] b = refl
is_one_of-append x (y ∷ a) b = ground (arith, is_one_of-append x a b)

first-AreKept : (a b : List String) → AreKept a (a ++ b)
first-AreKept a b x h = ground (arith, is_one_of-append x a b)

second-AreKept : (a b : List String) → AreKept b (a ++ b)
second-AreKept a b x h = ground (arith, is_one_of-append x a b)

status_cases : (s : BackupStatus) → (s ≡ verified) ⊎ ((s ≡ uploaded) ⊎ (s ≡ bad))
status_cases verified = inl refl
status_cases uploaded = inr (inl refl)
status_cases bad = inr (inr refl)

-- With a verified backup, the newest verified one is the latest, whatever else is there.
verified-latest :
    (keep : List String) (f g : Option BackupRecord) (rs : List BackupRecord)
    → AreKept (newest_verified rs) keep
    → newest_verified rs ≢ []
    → latest_loop g (stays keep rs) ≡ latest_loop f rs
unfolding newest_verified latest_loop stays
verified-latest keep f g [] h ne = absurd (ne refl)
verified-latest keep f g (r ∷ rs) h ne = elim (status_cases r.status) [
  | inl e ↦
      let kept : is_one_of r.name keep ≡ true =
        h r.name (simp e (ground (arith, eq_iff r.name r.name))) in
      simp (kept, e) refl
  | inr (inl e) ↦
      let h' : AreKept (newest_verified rs) keep = λ x m. h x (simp e m) in
      let ne' : newest_verified rs ≢ [] = λ none'. ne (simp e none') in
      elim (Bool-cases (is_one_of r.name keep)) [
        | inl kept ↦ simp (kept, e) (verified-latest keep _ _ rs h' ne')
        | inr gone ↦ simp (gone, e) (verified-latest keep _ _ rs h' ne')
      ]
  | inr (inr e) ↦
      let h' : AreKept (newest_verified rs) keep = λ x m. h x (simp e m) in
      let ne' : newest_verified rs ≢ [] = λ none'. ne (simp e none') in
      elim (Bool-cases (is_one_of r.name keep)) [
        | inl kept ↦ simp (kept, e) (verified-latest keep _ _ rs h' ne')
        | inr gone ↦ simp (gone, e) (verified-latest keep _ _ rs h' ne')
      ]
]

fallback-latest :
    (f : BackupRecord) (rs : List BackupRecord)
    → newest_verified rs ≡ []
    → latest_loop (some f) rs ≡ some f
unfolding newest_verified latest_loop
fallback-latest f [] h = refl
fallback-latest f (r ∷ rs) h = elim (status_cases r.status) [
  | inl e ↦ let wrong : r.name ∷ [] ≡ [] = simp e at h in cc
  | inr (inl e) ↦ simp e (fallback-latest f rs (simp e at h))
  | inr (inr e) ↦ simp e (fallback-latest f rs (simp e at h))
]

stays-unverified :
    (keep : List String) (rs : List BackupRecord)
    → newest_verified rs ≡ []
    → newest_verified (stays keep rs) ≡ []
unfolding newest_verified stays
stays-unverified keep [] h = refl
stays-unverified keep (r ∷ rs) h = elim (Bool-cases (is_verified r.status)) [
  | inl yes' ↦ let wrong : r.name ∷ [] ≡ [] = simp yes' at h in cc
  | inr no' ↦ elim (Bool-cases (is_one_of r.name keep)) [
    | inl kept ↦ simp (kept, no') (stays-unverified keep rs (simp no' at h))
    | inr gone ↦ simp gone (stays-unverified keep rs (simp no' at h))
  ]
]

-- With none that is verified, the newest that is usable is the latest, and it is kept.
unverified-latest :
    (k : ℕ) (keep : List String) (rs : List BackupRecord)
    → AreKept (mark (pos (suc k)) 0 rs).0 keep
    → newest_verified rs ≡ []
    → latest_loop none (stays keep rs) ≡ latest_loop none rs
unfolding newest_verified latest_loop stays mark
unverified-latest k keep [] h v = refl
unverified-latest k keep (r ∷ rs) h v = elim (status_cases r.status) [
  | inl e ↦ let wrong : r.name ∷ [] ≡ [] = simp e at v in cc
  | inr (inl e) ↦
      let one : leb_ℤ (pos 1) (pos (suc k)) ≡ true = ground arith in
      let kept : is_one_of r.name keep ≡ true =
        h r.name (simp (e, one) (ground (arith, eq_iff r.name r.name))) in
      let v' : newest_verified rs ≡ [] = simp e at v in
      simp (kept, e)
        (fallback-latest r (stays keep rs) (stays-unverified keep rs v')
          ∙ sym (fallback-latest r rs v'))
  | inr (inr e) ↦
      let h' : AreKept (mark (pos (suc k)) 0 rs).0 keep = λ x m. h x (simp e m) in
      let v' : newest_verified rs ≡ [] = simp e at v in
      elim (Bool-cases (is_one_of r.name keep)) [
        | inl kept ↦ simp (kept, e) (unverified-latest k keep rs h' v')
        | inr gone ↦ simp (gone, e) (unverified-latest k keep rs h' v')
      ]
]

names-cases : (l : List String) → (l ≡ []) ⊎ (l ≢ [])
names-cases [] = inl refl
names-cases (x ∷ l) = inr (λ e. cc)

-- What is left once the records that are kept stay.
pub latest-remaining :
    (k : ℕ) (rs : List BackupRecord) → latest_usable (remaining (pos (suc k)) rs) ≡ latest_usable rs
unfolding latest_usable remaining keep_set
latest-remaining k rs = elim (Bool-cases ((mark (pos (suc k)) 0 rs).1 == 0)) [
  | inl unusable ↦ rw unusable refl
  | inr usable ↦ elim (names-cases (newest_verified rs)) [
    | inl none' ↦ rw usable (
        unverified-latest k (keep_set (pos (suc k)) rs) rs
          (first-AreKept (mark (pos (suc k)) 0 rs).0 (newest_verified rs)) none')
    | inr some' ↦ rw usable (
        verified-latest (keep_set (pos (suc k)) rs) none none rs
          (second-AreKept (mark (pos (suc k)) 0 rs).0 (newest_verified rs)) some')
  ]
]
