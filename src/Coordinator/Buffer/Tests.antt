-- ===== src/Coordinator/Buffer/Tests.antt =====
-- The buffer over a database in memory.
use zincsearch.Prelude.{
  List, [], ◌∷◌, map, arith, ◌≡◌, refl, none, some, ok, err, if◌then◌else◌, take, true, false,
}
use zincsearch.Coordinator.Buffer.BigEndian.{be64, un64}
use zincsearch.Coordinator.Buffer.{
  has_nul, uint_or_zero, Bolt, Entry, Item, BufferErr, full, append, peek, remove, stats, count_key,
  bytes_key, get_uint, encode_value, decode_value, cut, of_bolt,
}
use zincsearch.Coordinator.Buffer.Memory.{same_bytes, File, memory, memory_laws}
use zincsearch.Coordinator.Buffer.Queue.{encode_item, Holds, peek_and_stats}
use zincsearch.Coordinator.Buffer.Queue.Append.{Appends, append_all_or_none}
use zincsearch.Coordinator.Buffer.Queue.Remove.{Removes, remove_takes_front}

abbrev first : Entry
first = record { id = 7 ∷ []; payload = 1 ∷ 0 ∷ 2 ∷ [] }

abbrev second : Entry
second = record { id = 8 ∷ []; payload = [] }

abbrev waiting : List Item
waiting = record { seq = 4; entry = first } ∷ record { seq = 5; entry = second } ∷ []

abbrev file : File
file = record {
  sequence = 5;
  entries = map encode_item waiting;
  counters = λ k.
      if same_bytes k count_key
      then some (be64 2)
      else if same_bytes k bytes_key
      then some (be64 5)
      else none;
}

file-Holds : Holds memory memory_laws 10 file waiting
unfolding be64 encode_value same_bytes has_nul uint_or_zero un64
file-Holds = record {
  keeps = record {
    items = refl;
    below = (omega arith, (omega arith, tt));
    ascending = ((omega arith, tt), (tt, tt));
    no_nul = (refl, (refl, tt));
    room = omega arith;
  };
  bytes = refl;
  count = refl;
  fits = omega arith;
}

append_all_or_none_example :
    Appends memory memory_laws 10 (second ∷ []) file waiting (append memory 10 (second ∷ []) file)
append_all_or_none_example =
    append_all_or_none memory memory_laws 10 (second ∷ []) file waiting file-Holds (omega arith)
      (omega arith) (omega arith)

appended : (append memory 10 (second ∷ []) file).0 ≡ ok tt
unfolding append zincsearch.Coordinator.Buffer.check_entries zincsearch.Coordinator.Buffer.update
    zincsearch.Coordinator.Buffer.uint_or_zero same_bytes be64 un64
appended = refl

refused : (append memory 10 (first ∷ second ∷ second ∷ []) file).0 ≡ err full
unfolding append zincsearch.Coordinator.Buffer.check_entries zincsearch.Coordinator.Buffer.update
    zincsearch.Coordinator.Buffer.uint_or_zero same_bytes be64 un64
refused = refl

remove_takes_front_example : Removes memory memory_laws 10 4 file waiting (remove memory 4 file)
remove_takes_front_example =
    remove_takes_front memory memory_laws 10 4 file waiting file-Holds (omega arith) (omega arith)

removed :
    (peek memory true 64 (remove memory 4 file).1) ≡ ok (record { seq = 5; entry = second } ∷ [])
unfolding peek remove zincsearch.Coordinator.Buffer.update un64 be64
    zincsearch.Coordinator.Buffer.decode_value encode_value
removed = refl

peek_and_stats_example :
    (peek memory true 1 file ≡ ok (take 1 waiting))
    × (peek memory false 1 file ≡ err of_bolt)
    × (stats memory 10 file ≡ record { count = 2; bytes = 5; max_bytes = 10 })
peek_and_stats_example = peek_and_stats memory memory_laws 10 1 file waiting file-Holds
