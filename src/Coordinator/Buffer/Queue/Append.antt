-- ===== src/Coordinator/Buffer/Queue/Append.antt =====
-- `Append` adds its entries at the end of the queue, all or none.
use zincsearch.Prelude.{
  ℕ, ◌+◌, ◌<◌, ◌^◌, List, ◌++◌, false, ltb, arith, ◌≡◌, ◌≢◌, refl, sym, ap, ◌∙◌, length, All,
  Option, none, some, Result, ok, err, Bool-cases, Option-cases, Result-cases, inl, inr, ◌⊎◌,
  length-append,
}
use zincsearch.Coordinator.Buffer.{
  Bolt, Entry, Item, BufferErr, full, of_bolt, has_nul, u64, check_entries, get_uint, uint_or_zero,
  count_key, bytes_key, put_entries, count_up, or_bolt, update, append_tx, append,
}
use zincsearch.Coordinator.Buffer.Laws.{Laws}
use zincsearch.Coordinator.Buffer.Queue.{total, Holds}
use zincsearch.Coordinator.Buffer.Queue.Numbers.{
  number, size_all, total-number, length-number, total-append, check_entries-ok, check_entries-fits,
}
use zincsearch.Coordinator.Buffer.Queue.Counters.{put_entries-Keeps, or_bolt-ok, counted}

module _ (β : Bolt) (laws : Laws β) where
  open laws use {sequence}

  -- What a transaction of `Append` leaves when it goes through.
  append_tx-Holds :
      (max' sum : ℕ) (es : List Entry) (db db' : β.Db) (q : List Item)
      → Holds β laws max' db q
      → sum ≡ size_all es
      → All (λ e. has_nul e.id ≡ false) es
      → total q + size_all es < 2 ^ 64
      → sequence db + length es < 2 ^ 64
      → length q + length es < 2 ^ 64
      → append_tx β max' sum es db ≡ ok db'
      → Holds β laws max' db' (q ++ number (sequence db) es)
  unfolding append_tx count_up
  append_tx-Holds max' sum es db db' q h same clean room room' room'' p =
      let used : u64 (get_uint β db bytes_key + sum) ≡ total q + size_all es =
        omega (arith, h.bytes, same, room) in
      elim (Bool-cases (ltb max' (total q + size_all es))) [
        | inl over ↦ cc (rw (used, over, append_tx) at p)
        | inr fits ↦ elim (Option-cases (put_entries β es db)) [
          | inl failed ↦ cc (rw (used, fits, failed, append_tx, count_up) at p)
          | inr (mid, put) ↦
              let (k, meta) = put_entries-Keeps β laws db mid q es h.keeps clean room' put in
              let up = or_bolt-ok β laws _ db' (rw (used, fits, put, append_tx) at p) in
              let (k', bytes, count) =
                counted β laws mid db' _ _ (length es) (length q) k
                  (ap uint_or_zero (meta count_key) ∙ h.count) room room'' up in
              record {
                keeps = k';
                bytes =
                    bytes
                    ∙ sym
                        (total-append q _ ∙ ap (λ t. total q + t) (total-number (sequence db) es));
                count =
                    count
                    ∙ sym (
                        length-append q _
                        ∙ ap (λ t. length q + t) (length-number (sequence db) es));
                fits = ground (
                  arith,
                  fits,
                  total-append q (number (sequence db) es),
                  total-number (sequence db) es,
                );
              }
        ]
      ]

  or_bolt-fits : (o : Option β.Db) → or_bolt β o ≢ err full
  or_bolt-fits none p = cc
  or_bolt-fits (some db) p = cc

  append_tx-full :
      (max' sum : ℕ) (es : List Entry) (db : β.Db)
      → append_tx β max' sum es db ≡ err full
      → max' < get_uint β db bytes_key + sum
  unfolding append_tx
  append_tx-full max' sum es db p =
      elim (Bool-cases (ltb max' (u64 (get_uint β db bytes_key + sum)))) [
        | inl over ↦ ground (arith, over)
        | inr fits ↦ absurd (or_bolt-fits _ (rw (fits, append_tx) at p))
      ]

  -- What a call of `Append` does to a queue.
  abbrev pub Appends :
      ℕ → List Entry → β.Db → List Item → Result BufferErr (Unit {0}) × β.Db → Type 0
  Appends max' es db q out =
      ((out.0 ≡ ok tt) × Holds β laws max' out.1 (q ++ number (sequence db) es))
      ⊎ ((e : BufferErr) × (out.0 ≡ err e)
          × (out.1 ≡ db)
          × (e ≡ full → max' < total q + size_all es))

  update-Appends :
      (max' : ℕ) (es : List Entry) (db : β.Db) (q : List Item) (r : Result BufferErr β.Db)
      → ((db' : β.Db) → r ≡ ok db' → Holds β laws max' db' (q ++ number (sequence db) es))
      → (r ≡ err full → max' < total q + size_all es)
      → Appends max' es db q (update β db r)
  unfolding update
  update-Appends max' es db q (err e) done over = inr (e, refl, refl, λ same. over (ap err same))
  update-Appends max' es db q (ok db') done over = elim (Bool-cases (β.commits db')) [
    | inl committed ↦ rw committed (inl (refl, done db' refl))
    | inr lost ↦ rw lost (inr (of_bolt, refl, refl, λ same. cc))
  ]

  -- Over a database that keeps its promises, `Append` on a file that holds a queue either succeeds, and
  -- the file holds the queue with the entries at its end, in their order, with sequence numbers that
  -- were never given out, and with counters that are right and within the limit; or it fails and
  -- the file is as it was; and it fails for want of space only if the entries do not fit. The
  -- sizes and the numbers stay below the limit of the uint64.
  pub append_all_or_none :
      (max' : ℕ) (es : List Entry) (db : β.Db) (q : List Item)
      → Holds β laws max' db q
      → total q + size_all es < 2 ^ 64
      → sequence db + length es < 2 ^ 64
      → length q + length es < 2 ^ 64
      → Appends max' es db q (append β max' es db)
  unfolding append
  append_all_or_none max' es db q h room room' room'' =
      elim (Result-cases (check_entries max' 0 es)) [
        | inr (e, refused) ↦
            rw (refused, append)
              (inr (
                e,
                refl,
                refl,
                λ same. absurd (check_entries-fits max' 0 es (refused ∙ ap err same)),
              ))
        | inl (sum, passed) ↦
            let (same, clean) = check_entries-ok max' 0 es sum (omega arith) passed in
            let same' : sum ≡ size_all es = omega (arith, same) in
            rw (passed, append)
              (update-Appends max' es db q (append_tx β max' sum es db)
                (λ db' p. append_tx-Holds max' sum es db db' q h same' clean room room' room'' p)
                (λ p. omega (arith, append_tx-full max' sum es db p, h.bytes, same')))
      ]
