-- ===== src/Redo/Tests.antt =====
-- The redo log at concrete inputs: the values are the texts of `writeRedoLog`.
use zincsearch.Prelude.{
  ℕ, List, [], ◌∷◌, true, false, ok, err, ◌<◌, ◌≤◌, ◌≡◌, length, arith, refl, ◌⊎◌, some,
}
use zincsearch.Redo.{
  not_found, value_too_large, write, read, open_log, put_index, open_from, Log, hand, seen_value,
  own, part,
}
use zincsearch.Redo.Reading.{empty_log, empty_log-IsLog, write-Reads, Reads}
use zincsearch.Redo.History.{write_all, latest, reopened-latest}

abbrev range : List ℕ
range = 49 ∷ 58 ∷ 52 ∷ []

abbrev writings : List (ℕ × List ℕ)
writings = (1, range) ∷ (2, range) ∷ (1, 53 ∷ 58 ∷ 57 ∷ []) ∷ []

latest_of_one : latest 1 writings (err not_found) ≡ ok (53 ∷ 58 ∷ 57 ∷ [])
unfolding latest
latest_of_one = refl

read_of_three : read (write_all writings empty_log) 3 ≡ err not_found
unfolding write_all write read put_index open_log open_from
read_of_three = refl

reopened-latest_example :
    read (open_log false (write_all writings empty_log).bytes) 1 ≡ latest 1 writings (err not_found)
reopened-latest_example =
    reopened-latest false writings 1 (omega arith, (omega arith, (omega arith, tt)))

write-Reads_example :
    ((length range ≤ 64) × Reads empty_log (write true false empty_log 2 range).1 2 range)
    ⊎ ((64 < length range)
        × (write true false empty_log 2 range ≡ (err value_too_large, empty_log)))
write-Reads_example = write-Reads true false empty_log 2 range empty_log-IsLog (omega arith)

-- A part that was handed out shows the value that is written later, a copy does not.
overwritten : Log
overwritten = (write true true (write_all ((1, range) ∷ []) empty_log) 1 (53 ∷ 58 ∷ 57 ∷ [])).1

part_changes : seen_value overwritten (part 16 3) ≡ 53 ∷ 58 ∷ 57 ∷ []
unfolding overwritten write_all write seen_value put_index open_log open_from zincsearch.Redo.slice
    zincsearch.Redo.byte_at zincsearch.Redo.put_value zincsearch.Redo.copy
    zincsearch.Redo.put_uint64 zincsearch.Redo.bytes_of
part_changes = refl

hands_part : hand true (write_all ((1, range) ∷ []) empty_log) (some 8) ≡ ok (part 16 3)
unfolding hand write_all write put_index open_log open_from zincsearch.Redo.uint64
    zincsearch.Redo.slice zincsearch.Redo.byte_at zincsearch.Redo.put_value zincsearch.Redo.copy
    zincsearch.Redo.put_uint64 zincsearch.Redo.bytes_of
hands_part = refl

copy_stays : seen_value overwritten (own range) ≡ range
unfolding seen_value
copy_stays = refl
