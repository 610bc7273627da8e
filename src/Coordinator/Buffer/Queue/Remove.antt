-- ===== src/Coordinator/Buffer/Queue/Remove.antt =====
-- `Remove` takes the items up to a sequence number off the queue.
use zincsearch.Prelude.{
  ℕ, zero, suc, ◌+◌, ◌≤◌, ◌<◌, ◌^◌, List, [], ◌∷◌, map, leb, ◌==◌, arith, ◌≡◌, refl, sym, ap, subst,
  ◌∙◌, length, some, Result, ok, err, Bool-cases, Option-cases, inl, inr, ◌⊎◌,
}
use zincsearch.Coordinator.Buffer.BigEndian.{be64, un64, un64-be64}
use zincsearch.Coordinator.Buffer.{
  Bolt, Item, BufferErr, of_bolt, encode_value, decode_value, size, u64, get_uint, put_uint,
  uint_or_zero, count_key, bytes_key, remove_loop, down, count_down, remove_end, update, remove,
}
use zincsearch.Coordinator.Buffer.Laws.{Laws, SameMeta}
use zincsearch.Coordinator.Buffer.Queue.{encode_item, total, Keeps, Holds, decode-encode}
use zincsearch.Coordinator.Buffer.Queue.Kept.{
  kept, kept_later, above, kept-same, kept-early, total-kept, length-map,
}
use zincsearch.Coordinator.Buffer.Queue.Numbers.{keys_differ}
use zincsearch.Coordinator.Buffer.Queue.Counters.{put_counters}

module _ (β : Bolt) (laws : Laws β) where
  open laws use {sequence}

  -- What the loop gives: the database with the items after `up_to`, and how many it took off, and
  -- how large; or an error of the database.
  abbrev Takes : ℕ → ℕ → ℕ → β.Db → List Item → Result BufferErr (β.Db × ℕ × ℕ) → Type 0
  Takes up_to c b db q r =
      ((db' : β.Db) × (c' : ℕ) × (b' : ℕ) × (r ≡ ok (db', c', b'))
        × Keeps β laws db' (kept up_to q)
        × SameMeta β db db'
        × (c' + length (kept up_to q) ≡ c + length q)
        × (b' + total (kept up_to q) ≡ b + total q))
      ⊎ (r ≡ err of_bolt)

  rest-Keeps :
      (db db' : β.Db) (i : Item) (q : List Item)
      → Keeps β laws db (i ∷ q)
      → β.items db' ≡ map encode_item q
      → sequence db' ≡ sequence db
      → Keeps β laws db' q
  rest-Keeps db db' i q k e s = record {
    items = e;
    below = rw s k.below.1;
    ascending = k.ascending.1;
    no_nul = k.no_nul.1;
    room = rw s k.room;
  }

  remove_loop-Takes :
      (fuel up_to c b : ℕ) (db : β.Db) (q : List Item)
      → Keeps β laws db q
      → length q < fuel
      → c + length q < 2 ^ 64
      → b + total q < 2 ^ 64
      → Takes up_to c b db q (remove_loop β fuel up_to c b db)
  unfolding remove_loop
  remove_loop-Takes zero up_to c b db q k enough room room' = absurd (omega (arith, enough))
  remove_loop-Takes (suc fuel) up_to c b db [] k enough room room' =
      rw (k.items, remove_loop)
        (inl (
          db,
          c,
          b,
          refl,
          subst (Keeps β laws db) (sym (kept_later up_to [] tt)) k,
          (λ j. refl),
          rw (kept_later up_to [] tt) refl,
          rw (kept_later up_to [] tt) refl,
        ))
  remove_loop-Takes (suc fuel) up_to c b db (i ∷ q) k enough room room' =
      let le' = k.below.0 in
      let number : un64 (be64 i.seq) ≡ i.seq = un64-be64 i.seq (omega (arith, le', k.room)) in
      let entry : decode_value (encode_value i.entry) ≡ i.entry =
        decode-encode i.entry k.no_nul.0 in
      elim (Bool-cases (leb i.seq up_to)) [
        | inr later ↦
            let all =
              kept_later up_to (i ∷ q) (
                ground (arith, later),
                above up_to i.seq q (ground (arith, later)) k.ascending.0,
              ) in
            let stop : remove_loop β (suc fuel) up_to c b db ≡ ok (db, c, b) =
              rw (k.items, number, later, remove_loop) refl in
            inl (
              db,
              c,
              b,
              stop,
              subst (Keeps β laws db) (sym all) k,
              (λ j. refl),
              rw all refl,
              rw all refl,
            )
        | inl early ↦ elim (Option-cases (β.delete_first db)) [
          | inl failed ↦ rw (k.items, number, early, failed, remove_loop) (inr refl)
          | inr (mid, gone) ↦
              let (items, same, meta) = laws.delete_first_ok db mid _ _ k.items gone in
              let k' = rest-Keeps db mid i q k items same in
              let one : u64 (c + 1) ≡ c + 1 = omega (arith, room) in
              let more : u64 (b + size i.entry) ≡ b + size i.entry = omega (arith, room') in
              let go : remove_loop β (suc fuel) up_to c b db
                  ≡ remove_loop β fuel up_to (c + 1) (b + size i.entry) mid =
                rw (k.items, number, early, gone, entry, one, more, remove_loop) refl in
              let taken = kept-early up_to i q early in
              elim (remove_loop-Takes fuel up_to (c + 1) (b + size i.entry) mid q k'
                (omega (arith, enough)) (omega (arith, room)) (omega (arith, room'))) [
                  | inr failed ↦ inr (go ∙ failed)
                  | inl (db', c', b', done, k'', meta', counts, sizes) ↦ inl (
                    db',
                    c',
                    b',
                    go ∙ done,
                    subst (Keeps β laws db') (sym taken) k'',
                    (λ j. meta' j ∙ meta j),
                    rw taken (omega (arith, counts)),
                    rw taken (omega (arith, sizes)),
                  )
                ]
        ]
      ]

  count_down-ok :
      (count bytes : ℕ) (mid db' : β.Db)
      → count_down β count bytes mid ≡ some db'
      → (m : β.Db) × (put_uint β mid bytes_key (down β (get_uint β mid bytes_key) bytes) ≡ some m)
        × (put_uint β m count_key (down β (get_uint β m count_key) count) ≡ some db')
  unfolding count_down
  count_down-ok count bytes mid db' p =
      elim (Option-cases (put_uint β mid bytes_key (down β (get_uint β mid bytes_key) bytes))) [
        | inl failed ↦ cc (rw (failed, count_down) at p)
        | inr (m, done) ↦ (m, done, rw (done, count_down) at p)
      ]

  -- The counters once the items are off.
  counted_down :
      (max' : ℕ) (mid db' : β.Db) (q : List Item) (count bytes count' bytes' : ℕ)
      → Keeps β laws mid q
      → get_uint β mid count_key ≡ count'
      → get_uint β mid bytes_key ≡ bytes'
      → count + length q ≡ count'
      → bytes + total q ≡ bytes'
      → count' < 2 ^ 64
      → bytes' < 2 ^ 64
      → bytes' ≤ max'
      → count_down β count bytes mid ≡ some db'
      → Holds β laws max' db' q
  counted_down max' mid db' q count bytes count' bytes' k is is' sum sum' small small' le p =
      let (m, p', p'') = count_down-ok count bytes mid db' p in
      let size' : down β (get_uint β mid bytes_key) bytes ≡ total q =
        omega (arith, is', sum', small') in
      let (items, same, wrote, rest) = laws.put_meta_ok mid m bytes_key _ p' in
      let there : get_uint β m count_key ≡ count' =
        ap uint_or_zero (rest count_key (λ e'. keys_differ (sym e'))) ∙ is in
      let number : down β (get_uint β m count_key) count ≡ length q =
        omega (arith, there, sum, small) in
      let (k', b, c) =
        put_counters β laws mid m db' q (total q) (length q) k (omega (arith, sum', small'))
          (omega (arith, sum, small)) (rw size' at p') (rw number at p'') in
      record { keeps = k'; bytes = b; count = c; fits = omega (arith, sum', le) }

  -- What a call of `Remove` does to a queue.
  abbrev pub Removes : ℕ → ℕ → β.Db → List Item → Result BufferErr (Unit {0}) × β.Db → Type 0
  Removes max' up_to db q out =
      ((out.0 ≡ ok tt) × Holds β laws max' out.1 (kept up_to q))
      ⊎ ((out.0 ≡ err of_bolt) × (out.1 ≡ db))

  update-Removes :
      (max' up_to : ℕ) (db : β.Db) (q : List Item) (r : Result BufferErr β.Db)
      → ((db' : β.Db) × (r ≡ ok db') × Holds β laws max' db' (kept up_to q)) ⊎ (r ≡ err of_bolt)
      → Removes max' up_to db q (update β db r)
  unfolding update
  update-Removes max' up_to db q (err e) (inl (db', wrong, h)) = cc
  update-Removes max' up_to db q (err e) (inr same) = inr (cc (same), refl)
  update-Removes max' up_to db q (ok db'') (inr wrong) = cc
  update-Removes max' up_to db q (ok db'') (inl (db', same, h)) =
      elim (Bool-cases (β.commits db'')) [
        | inl committed ↦
            let eq : db' ≡ db'' = cc (same) in
            rw committed (inl (refl, subst (λ d. Holds β laws max' d (kept up_to q)) eq h))
        | inr lost ↦ rw lost (inr (refl, refl))
      ]

  remove_end-Holds :
      (max' up_to : ℕ) (db : β.Db) (q : List Item) (r : Result BufferErr (β.Db × ℕ × ℕ))
      → Holds β laws max' db q
      → length q < 2 ^ 64
      → total q < 2 ^ 64
      → Takes up_to 0 0 db q r
      → ((db' : β.Db) × (remove_end β r ≡ ok db') × Holds β laws max' db' (kept up_to q))
        ⊎ (remove_end β r ≡ err of_bolt)
  unfolding remove_end
  remove_end-Holds max' up_to db q r h small small' (inr failed) = inr (rw failed refl)
  remove_end-Holds max' up_to db q r h small small'
        (inl (mid, c, b, done, k, meta, counts, sizes)) =
      let is = ap uint_or_zero (meta count_key) ∙ h.count in
      let is' = ap uint_or_zero (meta bytes_key) ∙ h.bytes in
      elim (Bool-cases (c == 0)) [
        | inl nothing ↦
            let same : kept up_to q ≡ q = kept-same up_to q (ground (arith, nothing, counts)) in
            inl (
              mid,
              rw (done, nothing) refl,
              record {
                keeps = k;
                bytes = is' ∙ ap total (sym same);
                count = is ∙ ap length (sym same);
                fits = omega (arith, h.fits, total-kept up_to q);
              },
            )
        | inr something ↦ elim (Option-cases (count_down β c b mid)) [
          | inl failed ↦ inr (rw (done, something, failed) refl)
          | inr (db', down') ↦ inl (
            db',
            rw (done, something, down') refl,
            counted_down max' mid db' (kept up_to q) c b (length q) (total q) k is is'
                (omega (arith, counts)) (omega (arith, sizes)) small small' h.fits down',
          )
        ]
      ]

  -- Over a database that keeps its promises, `Remove` on a file that holds a queue either succeeds, and
  -- the file holds exactly the items with a greater sequence number, with counters that are right; or
  -- the database fails and the file is as it was. The sizes and the numbers stay below the limit of
  -- the uint64.
  pub remove_takes_front :
      (max' up_to : ℕ) (db : β.Db) (q : List Item)
      → Holds β laws max' db q
      → length q + 1 < 2 ^ 64
      → total q < 2 ^ 64
      → Removes max' up_to db q (remove β up_to db)
  unfolding remove
  remove_takes_front max' up_to db q h small small' =
      let n = length (β.items db) in
      let many : n ≡ length q = ap length h.keeps.items ∙ length-map encode_item q in
      update-Removes max' up_to db q _ (
        remove_end-Holds max' up_to db q _ h (omega (arith, small)) small' (
          remove_loop-Takes (suc n) up_to 0 0 db q h.keeps (omega (arith, many))
            (omega (arith, small)) (omega (arith, small'))))
