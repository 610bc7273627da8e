-- ===== src/Coordinator/Buffer/Queue.antt =====
-- The buffer as a queue: what its file holds, and how a stored entry is read back.
pub mod Numbers
pub mod Counters
pub mod Append
pub mod Kept
pub mod Remove
use zincsearch.Prelude.{
  ℕ, suc, ◌+◌, ◌≤◌, ◌<◌, ◌^◌, List, [], ◌∷◌, ◌++◌, map, true, false, leb, ◌==◌, arith, ◌≡◌, refl,
  ap, ◌∙◌, length, take, All, ==_iff, if◌then◌else◌, ok, err,
}
use zincsearch.Coordinator.Buffer.BigEndian.{Bytes, be64, un64, un64-be64}
use zincsearch.Coordinator.Buffer.{
  Bolt, Entry, Item, Stats, encode_value, decode_value, cut, has_nul, size, get_uint, count_key,
  bytes_key, item_of, peek, stats, of_bolt,
}
use zincsearch.Coordinator.Buffer.Laws.{Laws}

-- `encodeKey` and `encodeValue`
abbrev pub encode_item : Item → Bytes × Bytes
encode_item i = (be64 i.seq, encode_value i.entry)

abbrev pub total : List Item → ℕ
total [] = 0
total (i ∷ q) = size i.entry + total q

abbrev pub IsAscending : List Item → Type 0
IsAscending [] = Unit
IsAscending (i ∷ q) = All (λ j. i.seq < j.seq) q × IsAscending q

abbrev pub HasNoNul : Item → Type 0
HasNoNul i = has_nul i.entry.id ≡ false

cut-encode : (id payload : Bytes) → has_nul id ≡ false → cut (id ++ 0 ∷ payload) ≡ (id, payload)
unfolding cut has_nul
cut-encode [] payload h = refl
cut-encode (b ∷ id) payload h = ground (arith, cut-encode id payload (ground arith))

-- A stored entry is read back as it was.
pub decode-encode : (e : Entry) → has_nul e.id ≡ false → decode_value (encode_value e) ≡ e
unfolding decode_value encode_value
decode-encode e h = rw (cut-encode e.id e.payload h) refl

module _ (β : Bolt) (laws : Laws β) where
  open laws use {sequence}

  -- The items of the file are those of the queue, in order.
  pub record Keeps (db : β.Db) (q : List Item) : Type 0 where
    pub items : β.items db ≡ map encode_item q
    pub below : All (λ i. i.seq ≤ sequence db) q
    pub ascending : IsAscending q
    pub no_nul : All HasNoNul q
    pub room : sequence db < 2 ^ 64

  -- The counters say how many they are and how large, which is no more than allowed.
  pub record Holds (max' : ℕ) (db : β.Db) (q : List Item) : Type 0 where
    pub keeps : Keeps db q
    pub bytes : get_uint β db bytes_key ≡ total q
    pub count : get_uint β db count_key ≡ length q
    pub fits : total q ≤ max'

  pub read_back :
      (n : ℕ) (q : List Item)
      → n < 2 ^ 64
      → All (λ i. i.seq ≤ n) q
      → All HasNoNul q
      → map (item_of β) (map encode_item q) ≡ q
  read_back n [] room below no_nul = refl
  read_back n (i ∷ q) room below no_nul =
      let le = below.0 in
      rw
        (
          read_back n q room below.1 no_nul.1,
          un64-be64 i.seq (omega (arith, le, room)),
          decode-encode i.entry no_nul.0,
        )
        refl

  -- `Peek` gives the oldest items of the queue, as they were appended, or the error of a database that
  -- cannot be read, and `Stats` how many items there are and how large.
  pub peek_and_stats :
      (max' n : ℕ) (db : β.Db) (q : List Item)
      → Holds max' db q
      → (peek β true n db ≡ ok (take n q))
        × (peek β false n db ≡ err of_bolt)
        × (stats β max' db ≡ record { count = length q; bytes = total q; max_bytes = max' })
  unfolding peek stats
  peek_and_stats max' n db q h =
      let k = h.keeps in
      (
        rw (k.items, read_back (sequence db) q k.room k.below k.no_nul) refl,
        refl,
        rw (h.bytes, h.count) refl,
      )
