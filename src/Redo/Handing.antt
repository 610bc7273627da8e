-- ===== src/Redo/Handing.antt =====
-- What `Read` hands out, with `NoCopy` and without.
use zincsearch.Prelude.{ℕ, Bool, true, false, Option, none, some, Result, ok, err, ◌≡◌, refl, List}
use zincsearch.Redo.{RedoErr, Log, Handed, seen_value, hand, hand_out, read, read_at}

abbrev seen_in : Log → Result RedoErr Handed → Result RedoErr (List ℕ)
seen_in l (err e) = err e
seen_in l (ok h) = ok (seen_value l h)

handed : (no_copy : Bool) (l : Log) (at : Option ℕ) → seen_in l (hand no_copy l at) ≡ read_at l at
unfolding hand read_at seen_value hand_out
handed no_copy l none = refl
handed true l (some offset) = refl
handed false l (some offset) = refl

-- The caller finds the same value.
pub hand-read :
    (no_copy : Bool) (l : Log) (key : ℕ) → seen_in l (hand no_copy l (l.index key)) ≡ read l key
unfolding read
hand-read no_copy l key = handed no_copy l (l.index key)
