-- ===== src/Coordinator/Backups.antt =====
-- pkg/coordinator/backups.go: the schedules, the records of the stored backups, which of them a node
-- is recovered from, and which are pruned. The blob store is an interface.
pub mod Remaining
pub mod Deleting
pub mod Latest
mod Tests
use zincsearch.Prelude.{
  ℕ, zero, suc, ◌+◌, String, List, [], ◌∷◌, ◌++◌, Bool, true, false, not, ◌&&◌, ◌||◌, ltb, ◌==◌,
  str_eq, if◌then◌else◌, Option, none, some, Result, ok, err, ◌>>=◌,
}
use zincsearch.Prelude.Int.{ℤ, pos, negsuc, ltb_ℤ, leb_ℤ}
use zincsearch.Text.{cat, str_lt}
use zincsearch.Time.{Instant, Duration, zero_time, is_zero, after, sub}
use zincsearch.State.Entry.{
  StateErr, not_found, conflict, invalid_key, bad_json, unavailable, Entry, Codec,
}
use zincsearch.State.Store.{Store}
use zincsearch.State.Json.{get_json, create_json, update_json}
use zincsearch.Coordinator.Config.{is_one_of}

pub data BackupStatus : Type 0 where
  uploaded verified bad : BackupStatus

-- `BackupRecord` with its `BackupInfo`, less the size and the indexes
pub record BackupRecord : Type 0 where
  pub name : String
  pub sha256 : String
  pub created_at : Instant
  pub last_applied : ℕ
  pub node : String
  pub uploaded_at : Instant
  pub status : BackupStatus
  pub checked_at : Option Instant
  pub verified_at : Option Instant
  pub note : String
  pub revision : ℕ

abbrev backup_prefix : String
backup_prefix = "backups/"

pub record Schedule : Type 0 where
  pub last_attempt : Instant
  pub last_success : Instant
  pub last_error : String

abbrev no_schedule : Schedule
no_schedule = record { last_attempt = zero_time; last_success = zero_time; last_error = "" }

-- `due`
unfoldable pub due : Duration → Schedule → Duration → Instant → Bool
due backup_retry s interval now =
    if leb_ℤ interval (pos 0)
    then false
    else if after s.last_attempt s.last_success && ltb_ℤ (sub now s.last_attempt) backup_retry
    then false
    else is_zero s.last_success || leb_ℤ interval (sub now s.last_success)

module _ {V : Type 0} (σ : Store V) (cs : Codec V Schedule) where
  schedule_or_none : Result StateErr (Schedule × ℕ) → Result StateErr (Schedule × ℕ)
  schedule_or_none (err not_found) = ok (no_schedule, 0)
  schedule_or_none r = r

  -- `loadSchedule`
  unfoldable pub load_schedule : String → σ.St → Result StateErr (Schedule × ℕ)
  unfolding schedule_or_none
  load_schedule job s = schedule_or_none (get_json σ cs s (cat "schedule/" job))

  -- one turn of the loop of `saveSchedule`, from what `loadSchedule` gave on
  write_schedule :
      String → Schedule → Result StateErr (Schedule × ℕ) → σ.St → Result StateErr ℕ × σ.St
  write_schedule job x (err e) s = (err e, s)
  write_schedule job x (ok (_, rev)) s =
      if rev == 0
      then create_json σ cs s (cat "schedule/" job) x
      else update_json σ cs s (cat "schedule/" job) x rev

  again : (σ.St → σ.St) → Result StateErr ℕ × σ.St → σ.St
  again next (err conflict, s) = next s
  again next (_, s) = s

  -- `saveSchedule`, with so many turns left
  save_loop : ℕ → String → Schedule → σ.St → σ.St
  unfolding write_schedule again
  save_loop zero job x s = s
  save_loop (suc n) job x s =
      again (λ s'. save_loop n job x s') (write_schedule job x (load_schedule job s) s)

  unfoldable pub save_schedule : String → Schedule → σ.St → σ.St
  unfolding save_loop
  save_schedule job x s = save_loop 3 job x s

-- the order of `sort.Slice`: the newest first
newer : BackupRecord → BackupRecord → Bool
newer a b =
    if not (a.created_at == b.created_at)
    then after a.created_at b.created_at
    else str_lt b.name a.name

insert : BackupRecord → List BackupRecord → List BackupRecord
unfolding newer
insert r [] = r ∷ []
insert r (x ∷ xs) = if newer r x then r ∷ x ∷ xs else x ∷ insert r xs

newest_first : List BackupRecord → List BackupRecord
unfolding insert
newest_first [] = []
newest_first (r ∷ rs) = insert r (newest_first rs)

module _ {V : Type 0} (σ : Store V) (cb : Codec V BackupRecord) where
  add_record :
      Result StateErr (BackupRecord × ℕ)
      → Result StateErr (List BackupRecord)
      → Result StateErr (List BackupRecord)
  add_record (ok (r, rev)) rest = rest >>= λ rs. ok (record r { revision = rev } ∷ rs)
  add_record (err not_found) rest = rest
  add_record (err e) rest = err e

  read_records : σ.St → List (Entry V) → Result StateErr (List BackupRecord)
  unfolding add_record
  read_records s [] = ok []
  read_records s (e ∷ es) = add_record (get_json σ cb s e.key) (read_records s es)

  -- `listBackupRecords`
  unfoldable pub list_backup_records : σ.St → Result StateErr (List BackupRecord)
  unfolding read_records newest_first
  list_backup_records s =
      σ.list s backup_prefix >>= λ es. read_records s es >>= λ rs. ok (newest_first rs)

  -- `saveRecord`
  unfoldable pub save_record : BackupRecord → σ.St → Result StateErr BackupRecord × σ.St
  save_record r s =
      let (out, s') = update_json σ cb s (cat backup_prefix r.name) r r.revision in
      (out >>= λ rev. ok (record r { revision = rev }), s')

-- The loop of `LatestUsable`; `fallback` is the newest that is uploaded so far.
latest_loop : Option BackupRecord → List BackupRecord → Option BackupRecord
latest_loop fallback [] = fallback
latest_loop fallback (r ∷ rs) = elim r.status [
  | verified ↦ some r
  | uploaded ↦ latest_loop (elim fallback [ none ↦ some r | some f ↦ some f ]) rs
  | bad ↦ latest_loop fallback rs
]

-- `LatestUsable` on the records; `none` is `ErrNoBackups`
unfoldable pub latest_usable : List BackupRecord → Option BackupRecord
unfolding latest_loop
latest_usable rs = latest_loop none rs

abbrev is_bad : BackupStatus → Bool
is_bad bad = true
is_bad _ = false

abbrev is_verified : BackupStatus → Bool
is_verified verified = true
is_verified _ = false

-- the first loop of `Prune`: the names to keep, and how many are usable
mark : ℤ → ℕ → List BackupRecord → List String × ℕ
mark retention usable [] = ([], usable)
mark retention usable (r ∷ rs) =
    let (keep, n) = mark retention (suc usable) rs in
    let (keep', n') = mark retention usable rs in
    if is_bad r.status
    then (keep', n')
    else if leb_ℤ (pos (suc usable)) retention
    then (r.name ∷ keep, n)
    else (keep, n)

-- the second loop: the newest verified one
newest_verified : List BackupRecord → List String
newest_verified [] = []
newest_verified (r ∷ rs) = if is_verified r.status then r.name ∷ [] else newest_verified rs

-- those that the third loop passes over
stays : List String → List BackupRecord → List BackupRecord
stays keep [] = []
stays keep (r ∷ rs) = let rest = stays keep rs in if is_one_of r.name keep then r ∷ rest else rest

-- those that it deletes
goes : List String → List BackupRecord → List BackupRecord
goes keep [] = []
goes keep (r ∷ rs) = let rest = goes keep rs in if is_one_of r.name keep then rest else r ∷ rest

-- `keep` of `Prune`
unfoldable pub keep_set : ℤ → List BackupRecord → List String
unfolding mark newest_verified
keep_set retention rs = (mark retention 0 rs).0 ++ newest_verified rs

-- What `Prune` deletes, in this order, and what it leaves.
unfoldable pub doomed : ℤ → List BackupRecord → List BackupRecord
unfolding mark goes
doomed retention rs = if (mark retention 0 rs).1 == 0 then [] else goes (keep_set retention rs) rs

unfoldable pub remaining : ℤ → List BackupRecord → List BackupRecord
unfolding mark stays
remaining retention rs =
    if (mark retention 0 rs).1 == 0 then rs else stays (keep_set retention rs) rs

-- the operations of the blob store that `Prune` uses
pub record Blobs : Type 1 where
  pub Db : Type 0
  pub delete : Db → String → Bool × Db

module _ {V : Type 0} (σ : Store V) (β : Blobs) where
  delete_record : BackupRecord → σ.St × β.Db → List String × (σ.St × β.Db)
  delete_record r (s, b) =
      let (deleted, b') = β.delete b r.name in
      let (out, s') = σ.delete s (cat backup_prefix r.name) in
      elim deleted [
        | false ↦ (cat "delete " r.name ∷ [], (s, b'))
        | true ↦ elim out [ ok _ ↦ ([], (s', b')) | err e ↦ (cat "forget " r.name ∷ [], (s', b')) ]
      ]

  -- the third loop of `Prune`, with the errors that it joins
  unfoldable pub delete_all : List BackupRecord → σ.St × β.Db → List String × (σ.St × β.Db)
  unfolding delete_record
  delete_all [] w = ([], w)
  delete_all (r ∷ rs) w =
      let (errs, w') = delete_record r w in
      let (errs', w'') = delete_all rs w' in (errs ++ errs', w'')
