-- ===== src/Coordinator/Buffer.antt =====
-- pkg/coordinator/buffer/buffer.go: the durable queue in a file of the database bbolt, which is an
-- interface. A transaction gives the database after it, or leaves it as it was.
pub mod BigEndian
pub mod Laws
pub mod Queue
pub mod Memory
mod Tests
use zincsearch.Prelude.{
  ℕ, zero, suc, ◌+◌, ◌-◌, ◌*◌, ◌%◌, ◌^◌, List, [], ◌∷◌, map, ◌++◌, Bool, true, false, ltb, leb,
  ◌==◌, ◌||◌, if◌then◌else◌, length, take, Option, none, some, Result, ok, err,
}
use zincsearch.Coordinator.Buffer.BigEndian.{Bytes, be64, un64}

-- A buffer's file: the bucket of the items with its sequence, and the bucket of the counters.
-- `items` is what a cursor goes through from `First` by `Next`, `delete_first` is `First` followed by
-- `Delete`. `none` is an error, and `commits` tells whether the commit of a transaction succeeds.
pub record Bolt : Type 1 where
  pub Db : Type 0
  pub next_sequence : Db → Option (ℕ × Db)
  pub put_item : Db → Bytes → Bytes → Option Db
  pub items : Db → List (Bytes × Bytes)
  pub delete_first : Db → Option Db
  pub get_meta : Db → Bytes → Option Bytes
  pub put_meta : Db → Bytes → Bytes → Option Db
  pub commits : Db → Bool

pub record Entry : Type 0 where
  pub id : Bytes
  pub payload : Bytes  -- `Data`

pub record Item : Type 0 where
  pub seq : ℕ
  pub entry : Entry

pub record Stats : Type 0 where
  pub count : ℕ
  pub bytes : ℕ
  pub max_bytes : ℕ

pub data BufferErr : Type 0 where
  full too_large nul_in_id of_bolt out_of_fuel : BufferErr

-- "count" and "bytes"
abbrev pub count_key : Bytes
count_key = 99 ∷ 111 ∷ 117 ∷ 110 ∷ 116 ∷ []

abbrev pub bytes_key : Bytes
bytes_key = 98 ∷ 121 ∷ 116 ∷ 101 ∷ 115 ∷ []

-- `encodeValue`
unfoldable pub encode_value : Entry → Bytes
encode_value e = e.id ++ 0 ∷ e.payload

-- `strings.Cut` at the first NUL byte
cut : Bytes → Bytes × Bytes
cut [] = ([], [])
cut (b ∷ bs) = let (id, rest) = cut bs in if b == 0 then ([], bs) else (b ∷ id, rest)

-- `decodeValue`
unfoldable pub decode_value : Bytes → Entry
unfolding cut
decode_value v = let (id, rest) = cut v in record { id = id; payload = rest }

abbrev pub u64 : ℕ → ℕ
u64 n = n % 2 ^ 64

-- `size`
abbrev pub size : Entry → ℕ
size e = length e.id + length e.payload

unfoldable pub has_nul : Bytes → Bool
has_nul [] = false
has_nul (b ∷ bs) = b == 0 || has_nul bs

-- `getUint` on what `Get` gave
unfoldable pub uint_or_zero : Option Bytes → ℕ
uint_or_zero none = 0
uint_or_zero (some v) = if length v == 8 then un64 v else 0

-- the first loop of `Append`
unfoldable pub check_entries : ℕ → ℕ → List Entry → Result BufferErr ℕ
unfolding has_nul
check_entries max' total [] = ok total
check_entries max' total (e ∷ es) =
    let rest = check_entries max' (u64 (total + size e)) es in
    if has_nul e.id then err nul_in_id else if ltb max' (size e) then err too_large else rest

module _ (β : Bolt) where
  abbrev pub get_uint : β.Db → Bytes → ℕ
  get_uint db key = uint_or_zero (β.get_meta db key)

  abbrev pub put_uint : β.Db → Bytes → ℕ → Option β.Db
  put_uint db key n = β.put_meta db key (be64 n)

  unfoldable pub put_entry : Entry → Option (ℕ × β.Db) → Option β.Db
  unfolding encode_value
  put_entry e none = none
  put_entry e (some (seq, db)) = β.put_item db (be64 seq) (encode_value e)

  -- the second loop of `Append`
  unfoldable pub put_entries : List Entry → β.Db → Option β.Db
  unfolding put_entry
  put_entries [] db = some db
  put_entries (e ∷ es) db = elim (put_entry e (β.next_sequence db)) [
    | none ↦ none
    | some db' ↦ put_entries es db'
  ]

  -- `db.Update`: the database after the transaction, which is the one before it on an error
  unfoldable pub update : β.Db → Result BufferErr β.Db → Result BufferErr (Unit {0}) × β.Db
  update db (err e) = (err e, db)
  update db (ok db') = if β.commits db' then (ok tt, db') else (err of_bolt, db)

  abbrev or_bolt : Option β.Db → Result BufferErr β.Db
  or_bolt none = err of_bolt
  or_bolt (some db) = ok db

  -- the two counters, at the end of `Append`
  unfoldable pub count_up : ℕ → ℕ → Option β.Db → Option β.Db
  count_up bytes n none = none
  count_up bytes n (some db) = elim (put_uint db bytes_key bytes) [
    | none ↦ none
    | some db' ↦ put_uint db' count_key (u64 (get_uint db' count_key + n))
  ]

  append_tx : ℕ → ℕ → List Entry → β.Db → Result BufferErr β.Db
  unfolding count_up put_entries
  append_tx max' total es db =
      let used = get_uint db bytes_key in
      if ltb max' (u64 (used + total))
      then err full
      else or_bolt (count_up (u64 (used + total)) (length es) (put_entries es db))

  -- `Append`
  unfoldable pub append : ℕ → List Entry → β.Db → Result BufferErr (Unit {0}) × β.Db
  unfolding append_tx
  append max' es db = elim (check_entries max' 0 es) [
    | err e ↦ (err e, db)
    | ok total ↦ update db (append_tx max' total es db)
  ]

  abbrev pub item_of : Bytes × Bytes → Item
  item_of (k, v) = record { seq = un64 k; entry = decode_value v }

  -- `Peek`, where `View` may fail; a negative n gives nothing, as 0 does
  unfoldable pub peek : Bool → ℕ → β.Db → Result BufferErr (List Item)
  peek true n db = ok (take n (map item_of (β.items db)))
  peek false n db = err of_bolt

  -- the loop of `Remove`: the database after it, how many items it deleted and their bytes
  remove_loop : ℕ → ℕ → ℕ → ℕ → β.Db → Result BufferErr (β.Db × ℕ × ℕ)
  remove_loop zero up_to count bytes db = err out_of_fuel
  remove_loop (suc fuel) up_to count bytes db = elim (β.items db) [
    | [] ↦ ok (db, count, bytes)
    | (k, v) ∷ rest ↦ elim (leb (un64 k) up_to) [
      | false ↦ ok (db, count, bytes)
      | true ↦ elim (β.delete_first db) [
        | none ↦ err of_bolt
        | some db' ↦
            remove_loop fuel up_to (u64 (count + 1)) (u64 (bytes + size (decode_value v))) db'
      ]
    ]
  ]

  -- a uint64 that counts down wraps
  abbrev down : ℕ → ℕ → ℕ
  down n k = u64 (n + 2 ^ 64 - u64 k)

  count_down : ℕ → ℕ → β.Db → Option β.Db
  count_down count bytes db = elim (put_uint db bytes_key (down (get_uint db bytes_key) bytes)) [
    | none ↦ none
    | some db' ↦ put_uint db' count_key (down (get_uint db' count_key) count)
  ]

  remove_end : Result BufferErr (β.Db × ℕ × ℕ) → Result BufferErr β.Db
  unfolding count_down
  remove_end (err e) = err e
  remove_end (ok (db, count, bytes)) =
      if count == 0 then ok db else or_bolt (count_down count bytes db)

  -- `Remove`; the loop deletes an item at each turn, so one turn more than there are items is enough
  unfoldable pub remove : ℕ → β.Db → Result BufferErr (Unit {0}) × β.Db
  unfolding remove_loop remove_end
  remove up_to db = update db (remove_end (remove_loop (suc (length (β.items db))) up_to 0 0 db))

  -- `Stats` of a database that can be read; its zeros after a `View` that fails are left out
  unfoldable pub stats : ℕ → β.Db → Stats
  stats max' db = record {
    count = get_uint db count_key;
    bytes = get_uint db bytes_key;
    max_bytes = max';
  }
