-- ===== src/State/Tests.antt =====
-- Runs of the coordinator's store and of its lease on small inputs.
use zincsearch.Prelude.{
  ℕ, ◌≤◌, String, ◌≡◌, refl, none, some, [], ◌∷◌, List, arith, ok, err, Result, subst, false≢true,
  eq_iff, if◌then◌else◌, str_eq,
}
use zincsearch.Prelude.Int.{pos}
use zincsearch.Dict
use zincsearch.Dict.{get-empty}
use zincsearch.Time.{Duration}
use zincsearch.State.Entry.{Codec, IsCodec, not_found, conflict, invalid_key, StateErr}
use zincsearch.State.Store.{Laws}
use zincsearch.State.Mem
use zincsearch.State.Mem.{Mem, mem_store, create, update, list}
use zincsearch.State.Mem.Laws.{IsWell, mem_view, mem_laws, create-Written}
use zincsearch.State.Mem.Answers.{Answers, mem_store-Laws}
use zincsearch.State.Mem.Revisions.{
  Call, create_call, update_call, delete_call, run, update_of_stale_read,
}
use zincsearch.State.Lease.{LeaseRecord, acquire_write}
use zincsearch.State.Json.{get_json}
use zincsearch.State.Election.{
  System, Reach, stays, goes, acquire_reads, acquire_writes, start, acquiring,
}
use zincsearch.State.Election.Safety.{one_leader}

new-IsWell : {V : Type 0} → IsWell (Mem.new {V = V})
new-IsWell = record {
  own_key = λ k e p. cc (get-empty k);
  key_valid = λ k e p. cc (get-empty k);
  revision_le = λ k e p. cc (get-empty k);
  distinct = tt;
}

-- The second write under a key is refused, a key with a blank too, and the list is in order.
two_keys : (create (create (Mem.new {V = ℕ}) "b" 7).1 "b" 8).0 ≡ err conflict
unfolding create zincsearch.State.Entry.valid_key Dict.get Dict.put
two_keys = refl

bad_key : (create (Mem.new {V = ℕ}) "a b" 7).0 ≡ err invalid_key
unfolding create zincsearch.State.Entry.valid_key
bad_key = refl

in_order :
    list (create (create (Mem.new {V = ℕ}) "b" 7).1 "a" 8).1 ""
    ≡ ok (
        record { key = "a"; value = 8; revision = 2 }
        ∷ record { key = "b"; value = 7; revision = 1 }
        ∷ [])
unfolding create list zincsearch.State.Entry.valid_key Dict.get Dict.put zincsearch.Text.has_prefix
    zincsearch.Text.str_lt
in_order = refl

mem_store-Laws_example : Laws (mem_view ℕ) × ((m : Mem ℕ) → Answers m)
mem_store-Laws_example = mem_store-Laws {V = ℕ}

abbrev one_key : Mem ℕ
one_key = record { entries = ("k", record { key = "k"; value = 7; revision = 1 }) ∷ []; rev = 1 }

one_key-created : (create (Mem.new {V = ℕ}) "k" 7) ≡ (ok 1, one_key)
unfolding create zincsearch.State.Entry.valid_key Dict.get Dict.put
one_key-created = refl

one_key-IsWell : IsWell one_key
one_key-IsWell =
    subst (λ (x : Result StateErr ℕ × Mem ℕ). IsWell x.1) one_key-created
      (create-Written (Mem.new {V = ℕ}) "k" 7 1 new-IsWell (omega arith)
        (rw one_key-created refl)).well

abbrev other_calls : List (Call ℕ)
other_calls = create_call "j" 5 ∷ update_call "k" 9 2 ∷ delete_call "j" ∷ []

reads_key : Mem.get one_key "k" ≡ ok (record { key = "k"; value = 7; revision = 1 })
unfolding Mem.get Dict.get
reads_key = refl

writes_key : (update (run one_key other_calls) "k" 8 1).0 ≡ ok 3
unfolding run update zincsearch.State.Entry.valid_key Dict.get Mem.delete Dict.remove create
    Dict.put
writes_key = refl

update_of_stale_read_example :
    Dict.get (run one_key other_calls).entries "k"
    ≡ some (record { key = "k"; value = 7; revision = 1 })
update_of_stale_read_example =
    update_of_stale_read one_key "k" (record { key = "k"; value = 7; revision = 1 }) other_calls 8 3
      one_key-IsWell (omega arith) reads_key writes_key

-- The lease, with its JSON kept as it is.
abbrev lease_json : Codec LeaseRecord LeaseRecord
lease_json = record { marshal = some; unmarshal = some }

lease_json-IsCodec : IsCodec lease_json
lease_json-IsCodec = record { read_back = λ a v p. cc }

abbrev ten : String → Duration
ten h = pos 10

abbrev first : System (Mem LeaseRecord)
first =
    start (mem_store LeaseRecord) (mem_view LeaseRecord) lease_json ten (Mem.new {V = LeaseRecord})

abbrev taken : Mem LeaseRecord
taken = record {
  entries =
      (
        "leader",
        record { key = "leader"; value = record { holder = "a"; expires = 10 }; revision = 1 },
      )
      ∷ [];
  rev = 1;
}

-- Both instances find no lease; "a" is first to write its own.
abbrev last : System (Mem LeaseRecord)
last = record {
  store = taken;
  clock = 0;
  pending = λ h.
      if str_eq "b" h
      then none
      else if str_eq "a" h
      then none
      else if str_eq "b" h
      then some (acquiring 0 (err not_found))
      else if str_eq "a" h
      then some (acquiring 0 (err not_found))
      else none;
  until = λ h. if str_eq "b" h then 0 else if str_eq "a" h then 10 else 0;
}

both_try : Reach (mem_store LeaseRecord) (mem_view LeaseRecord) lease_json ten first last
unfolding get_json acquire_write Mem.get Dict.get zincsearch.State.Json.create_json create
    zincsearch.State.Entry.valid_key Dict.put
both_try =
    goes
      (goes (goes (goes stays (acquire_reads "a" refl)) (acquire_reads "b" refl))
        (acquire_writes "a" 0 (err not_found) refl (omega arith)))
      (acquire_writes "b" 0 (err not_found) refl (omega arith))

one_leader_example : 0 ≤ 0
one_leader_example =
    one_leader (mem_laws {V = LeaseRecord}) lease_json-IsCodec ten (Mem.new {V = LeaseRecord}) "a"
      "b" new-IsWell both_try (λ e. false≢true ((eq_iff "a" "b").1 e)) (omega arith)
