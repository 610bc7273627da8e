-- ===== src/Coordinator/Backups/Tests.antt =====
-- Pruning three stored backups.
use zincsearch.Coordinator.Backups.Deleting.{AreOther}
use zincsearch.Prelude.{ℕ, suc, true, In, String, List, [], ◌∷◌, false, ◌≡◌, refl, none, some}
use zincsearch.Prelude.Int.{pos, negsuc}
use zincsearch.Time.{Instant, minutes}
use zincsearch.Coordinator.Backups.{
  BackupStatus, uploaded, verified, bad, BackupRecord, Blobs, delete_all, backup_prefix,
  latest_usable, doomed, remaining, due,
}
use zincsearch.Coordinator.Backups.Latest.{without, prune_keeps_latest}
use zincsearch.Dict
use zincsearch.Dict.{get-empty}
use zincsearch.Text.{cat}
use zincsearch.State.Mem
use zincsearch.State.Mem.{Mem, mem_store}
use zincsearch.State.Mem.Laws.{IsWell, mem_laws}

abbrev backup : String → Instant → BackupStatus → BackupRecord
backup name at status = record {
  name = name;
  sha256 = "";
  created_at = at;
  last_applied = at;
  node = "n2";
  uploaded_at = at;
  status = status;
  checked_at = none;
  verified_at = none;
  note = "";
  revision = 1;
}

abbrev stored : List BackupRecord
stored =
    backup "c" 3 bad ∷ backup "b" 2 uploaded ∷ backup "a" 1 verified ∷ backup "0" 0 verified ∷ []

-- the backups in no store, where every deletion goes well
abbrev blobs : Blobs
blobs = record { Db = ℕ; delete = λ n name. (true, suc n) }

abbrev gone : List BackupRecord
gone = doomed (pos 1) stored

abbrev entries : Mem BackupRecord
entries = Mem.new {V = BackupRecord}

new-IsWell : IsWell (Mem.new {V = BackupRecord})
new-IsWell = record {
  own_key = λ k e p. cc (get-empty k);
  key_valid = λ k e p. cc (get-empty k);
  revision_le = λ k e p. cc (get-empty k);
  distinct = tt;
}

prune_keeps_latest_example :
    (latest_usable (without gone stored) ≡ latest_usable stored)
    × ((r : BackupRecord)
        → In r (without gone stored)
        → Dict.get
            (delete_all (mem_store BackupRecord) blobs gone (entries, 0)).1.0.entries
            (cat backup_prefix r.name)
          ≡ Dict.get entries.entries (cat backup_prefix r.name))
    × ((key : String)
        → AreOther (mem_laws {V = BackupRecord}) blobs key gone
        → Dict.get (delete_all (mem_store BackupRecord) blobs gone (entries, 0)).1.0.entries key
          ≡ Dict.get entries.entries key)
    × ((delete_all (mem_store BackupRecord) blobs gone (entries, 0)).0 ≡ []
        → (r : BackupRecord) → In r gone
        → Dict.get
            (delete_all (mem_store BackupRecord) blobs gone (entries, 0)).1.0.entries
            (cat backup_prefix r.name)
          ≡ none)
prune_keeps_latest_example =
    prune_keeps_latest (mem_laws {V = BackupRecord}) blobs 0 stored entries 0 new-IsWell

prunes : doomed (pos 1) stored ≡ backup "c" 3 bad ∷ backup "0" 0 verified ∷ []
unfolding doomed zincsearch.Coordinator.Backups.keep_set
prunes = refl

recovers : latest_usable stored ≡ some (backup "a" 1 verified)
unfolding latest_usable
recovers = refl

-- A negative retention leaves nothing of backups that are only uploaded.
leaves_none : remaining (negsuc 0) (backup "b" 2 uploaded ∷ []) ≡ []
unfolding remaining zincsearch.Coordinator.Backups.keep_set
leaves_none = refl

not_due :
    due (minutes 5) (record { last_attempt = 9; last_success = 1; last_error = "" }) (minutes 60) 10
    ≡ false
unfolding due
not_due = refl
