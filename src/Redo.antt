-- ===== src/Redo.antt =====
-- pkg/wal/redo/redo.go: the file of a redo log, one block of 80 bytes for each key: the key, the
-- length of the value, and 64 bytes for the value. The bytes in memory are `bytes`, which the source calls `data`; whether the file
-- takes them is an argument of `Write`. A byte out of range, which no log that `Write` made has,
-- counts as 0.
pub mod Bytes
pub mod WellFormed
pub mod NewBlock
pub mod Reading
pub mod Handing
pub mod Reopening
pub mod History
mod Tests
use zincsearch.Prelude.{
  ℕ, zero, suc, ◌+◌, ◌*◌, ◌/◌, ◌%◌, List, [], ◌∷◌, ◌++◌, Bool, true, false, Option, none, some, ltb,
  ◌==◌, if◌then◌else◌, length, get_elem?, set, replicate, Result, err, ok,
}

pub data RedoErr : Type 0 where
  not_found value_too_large write_failed sync_failed : RedoErr

abbrev pub value_fixed_length : ℕ
value_fixed_length = 64

pub record Log : Type 0 where
  pub index : ℕ → Option ℕ
  pub bytes : List ℕ
  pub no_sync : Bool

byte_or_zero : Option ℕ → ℕ
byte_or_zero none = 0
byte_or_zero (some b) = b

unfoldable pub byte_at : List ℕ → ℕ → ℕ
unfolding byte_or_zero
byte_at d n = byte_or_zero (get_elem? d n)

-- `d[n : n + count]`
unfoldable pub slice : List ℕ → ℕ → ℕ → List ℕ
slice d n zero = []
slice d n (suc count) = byte_at d n ∷ slice d (n + 1) count

-- `copy(d[n:], bytes)`
unfoldable pub copy : List ℕ → ℕ → List ℕ → List ℕ
copy d n [] = d
copy d n (b ∷ bytes) = copy (set d n b) (n + 1) bytes

-- the bytes of a number, the lowest first
unfoldable pub bytes_of : ℕ → ℕ → List ℕ
bytes_of zero n = []
bytes_of (suc count) n = n % 256 ∷ bytes_of count (n / 256)

-- `binary.LittleEndian.Uint64`
unfoldable pub uint64 : List ℕ → ℕ
uint64 [] = 0
uint64 (b ∷ bytes) = b + 256 * uint64 bytes

-- `binary.LittleEndian.PutUint64`
unfoldable pub put_uint64 : List ℕ → ℕ → ℕ → List ℕ
put_uint64 d n x = copy d n (bytes_of 8 x)

-- The length and the bytes of a value, at the place of the value's key.
unfoldable pub put_value : List ℕ → ℕ → List ℕ → List ℕ
put_value d offset value = copy (put_uint64 d offset (length value)) (offset + 8) value

-- `index[key] = offset`
unfoldable pub put_index : (ℕ → Option ℕ) → ℕ → ℕ → ℕ → Option ℕ
put_index index key offset k = if k == key then some offset else index k

unfoldable pub write_at : Log → ℕ → List ℕ → Option ℕ → Log
write_at l key value (some offset) = record l { bytes = put_value l.bytes offset value }
write_at l key value none =
    let offset = length l.bytes in
    let d = put_uint64 (l.bytes ++ replicate 80 0) offset key in
    record l { index = put_index l.index key (offset + 8); bytes = put_value d (offset + 8) value }

-- What writing and syncing the file give.
unfoldable pub sync : Bool → Bool → Bool → Result RedoErr (Unit {0})
sync no_sync false synced = err write_failed
sync true true synced = ok tt
sync false true true = ok tt
sync false true false = err sync_failed

-- `Write`
unfoldable pub write : Bool → Bool → Log → ℕ → List ℕ → Result RedoErr (Unit {0}) × Log
unfolding write_at sync
write written synced l key value =
    if ltb value_fixed_length (length value)
    then (err value_too_large, l)
    else (sync l.no_sync written synced, write_at l key value (l.index key))

unfoldable pub read_at : Log → Option ℕ → Result RedoErr (List ℕ)
read_at l none = err not_found
read_at l (some offset) = ok (slice l.bytes (offset + 8) (uint64 (slice l.bytes offset 8)))

-- What `Read` hands out: a copy of its own, or with `NoCopy` a part of the log's bytes, from an offset
-- on and so long, which the next `Write` may change.
pub data Handed : Type 0 where
  own : List ℕ → Handed
  part : ℕ → ℕ → Handed

-- the bytes that the caller finds there
unfoldable pub seen_value : Log → Handed → List ℕ
seen_value l (own value) = value
seen_value l (part offset n) = slice l.bytes offset n

hand_out : Log → Bool → ℕ → ℕ → Handed
hand_out l no_copy offset n = if no_copy then part offset n else own (slice l.bytes offset n)

-- `Read`, with `NoCopy` or without; without it, it is `ReadCopy`
unfoldable pub hand : Bool → Log → Option ℕ → Result RedoErr Handed
unfolding hand_out
hand no_copy l none = err not_found
hand no_copy l (some offset) =
    ok (hand_out l no_copy (offset + 8) (uint64 (slice l.bytes offset 8)))

-- the value that the caller of `Read` or of `ReadCopy` finds until the next `Write`
unfoldable pub read : Log → ℕ → Result RedoErr (List ℕ)
unfolding read_at
read l key = read_at l (l.index key)

-- The loop of `Open`, over the blocks from the n-th byte on.
unfoldable pub open_from : ℕ → ℕ → List ℕ → (ℕ → Option ℕ) → ℕ → Option ℕ
open_from zero n d index = index
open_from (suc blocks) n d index =
    open_from blocks (n + 80) d (put_index index (uint64 (slice d n 8)) (n + 8))

-- `Open` of a file of whole blocks
unfoldable pub open_log : Bool → List ℕ → Log
unfolding open_from
open_log no_sync d = record {
  index = open_from (length d / 80) 0 d (λ k. none);
  bytes = d;
  no_sync = no_sync;
}
