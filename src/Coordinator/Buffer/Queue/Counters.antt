-- ===== src/Coordinator/Buffer/Queue/Counters.antt =====
-- What writing the entries and the counters does to the file of a queue.
use zincsearch.Prelude.{
  ℕ, ◌+◌, ◌<◌, ◌^◌, List, [], ◌∷◌, ◌++◌, false, arith, ◌≡◌, refl, sym, ap, subst, ◌∙◌, length, All,
  Option, none, some, ok, Option-cases, inl, inr, All-append, append-nil,
}
use zincsearch.Coordinator.Buffer.BigEndian.{be64}
use zincsearch.Coordinator.Buffer.{
  Bolt, Entry, Item, encode_value, has_nul, u64, get_uint, put_uint, uint_or_zero, count_key,
  bytes_key, put_entry, put_entries, count_up, or_bolt,
}
use zincsearch.Coordinator.Buffer.Laws.{Laws, SameMeta}
use zincsearch.Coordinator.Buffer.Queue.{encode_item, HasNoNul, Keeps}
use zincsearch.Coordinator.Buffer.Queue.Numbers.{
  number, keys_before, below_mono, IsAscending-append, map-append, rejoin, keys_differ, uint-be64,
}

module _ (β : Bolt) (laws : Laws β) where
  open laws use {sequence}

  pub put_entry-Keeps :
      (db db' : β.Db) (q : List Item) (e : Entry) (o : Option (ℕ × β.Db))
      → Keeps β laws db q
      → has_nul e.id ≡ false
      → sequence db + 1 < 2 ^ 64
      → β.next_sequence db ≡ o
      → put_entry β e o ≡ some db'
      → Keeps β laws db' (q ++ record { seq = sequence db + 1; entry = e } ∷ [])
        × (sequence db' ≡ sequence db + 1)
        × SameMeta β db db'
  unfolding put_entry
  put_entry-Keeps db db' q e none k h room p put = cc
  put_entry-Keeps db db' q e (some (n, mid)) k h room p put =
      let (next, now, same, meta) = laws.next_ok db mid n room p in
      let keys = keys_before (sequence db) q room k.below in
      let (items, kept, meta') =
        laws.put_item_ok mid db' (be64 n) (encode_value e) (rw (same, k.items, next) keys) put in
      (
        record {
          items = items ∙ rw (same, k.items, next) (sym (map-append encode_item q _));
          below =
              All-append _ q _
                (below_mono (sequence db) _ q (omega (arith, kept, now, next)) k.below)
                (omega (arith, kept, now, next), tt);
          ascending = IsAscending-append (sequence db) q _ (omega arith) k.below k.ascending;
          no_nul = All-append HasNoNul q _ k.no_nul (h, tt);
          room = omega (arith, kept, now, next);
        },
        kept ∙ now ∙ next,
        λ j. meta' j ∙ meta j,
      )

  pub put_entries-Keeps :
      (db db' : β.Db) (q : List Item) (es : List Entry)
      → Keeps β laws db q
      → All (λ e. has_nul e.id ≡ false) es
      → sequence db + length es < 2 ^ 64
      → put_entries β es db ≡ some db'
      → Keeps β laws db' (q ++ number (sequence db) es) × SameMeta β db db'
  unfolding put_entries
  put_entries-Keeps db db' q [] k h room put =
      let same : db ≡ db' = cc (put) in
      subst (λ d. Keeps β laws d (q ++ []) × SameMeta β db d) same (rw (append-nil q) k, λ j. refl)
  put_entries-Keeps db db' q (e ∷ es) k h room put =
      elim (Option-cases (put_entry β e (β.next_sequence db))) [
        | inl failed ↦ cc (rw (failed, put_entries) at put)
        | inr (mid, done) ↦
            let (k', next, meta) =
              put_entry-Keeps db mid q e (β.next_sequence db) k h.0 (omega arith) refl done in
            let (k'', meta') =
              put_entries-Keeps mid db' _ es k' h.1 (omega (arith, next))
                (rw (done, put_entries) at put) in
            (
              subst (Keeps β laws db') (rejoin q (sequence db) e es _ next) k'',
              λ j. meta' j ∙ meta j,
            )
      ]

  pub Keeps-same :
      (db db' : β.Db) (q : List Item)
      → Keeps β laws db q
      → β.items db' ≡ β.items db
      → sequence db' ≡ sequence db
      → Keeps β laws db' q
  Keeps-same db db' q k e s = record {
    items = e ∙ k.items;
    below = rw s k.below;
    ascending = k.ascending;
    no_nul = k.no_nul;
    room = rw s k.room;
  }

  -- Both counters are written.
  pub put_counters :
      (db mid db' : β.Db) (q : List Item) (bytes count : ℕ)
      → Keeps β laws db q
      → bytes < 2 ^ 64
      → count < 2 ^ 64
      → put_uint β db bytes_key bytes ≡ some mid
      → put_uint β mid count_key count ≡ some db'
      → Keeps β laws db' q × (get_uint β db' bytes_key ≡ bytes) × (get_uint β db' count_key ≡ count)
  put_counters db mid db' q bytes count k small small' p p' =
      let (items, kept, wrote, rest) = laws.put_meta_ok db mid bytes_key (be64 bytes) p in
      let (items', kept', wrote', rest') = laws.put_meta_ok mid db' count_key (be64 count) p' in
      (
        Keeps-same db db' q k (items' ∙ items) (kept' ∙ kept),
        ap uint_or_zero (rest' bytes_key keys_differ ∙ wrote) ∙ uint-be64 bytes small,
        ap uint_or_zero wrote' ∙ uint-be64 count small',
      )

  pub or_bolt-ok : (o : Option β.Db) (db' : β.Db) → or_bolt β o ≡ ok db' → o ≡ some db'
  or_bolt-ok none db' p = cc
  or_bolt-ok (some db) db' p = cc (p)

  pub count_up-ok :
      (mid db' : β.Db) (bytes n : ℕ)
      → count_up β bytes n (some mid) ≡ some db'
      → (m : β.Db) × (put_uint β mid bytes_key bytes ≡ some m)
        × (put_uint β m count_key (u64 (get_uint β m count_key + n)) ≡ some db')
  unfolding count_up
  count_up-ok mid db' bytes n p = elim (Option-cases (put_uint β mid bytes_key bytes)) [
    | inl failed ↦ cc (rw (failed, count_up) at p)
    | inr (m, done) ↦ (m, done, rw (done, count_up) at p)
  ]

  pub counted :
      (mid db' : β.Db) (q : List Item) (bytes n c : ℕ)
      → Keeps β laws mid q
      → get_uint β mid count_key ≡ c
      → bytes < 2 ^ 64
      → c + n < 2 ^ 64
      → count_up β bytes n (some mid) ≡ some db'
      → Keeps β laws db' q × (get_uint β db' bytes_key ≡ bytes) × (get_uint β db' count_key ≡ c + n)
  counted mid db' q bytes n c k e small small' p =
      let (m, p', p'') = count_up-ok mid db' bytes n p in
      let (items, kept, wrote, rest) = laws.put_meta_ok mid m bytes_key (be64 bytes) p' in
      let there : get_uint β m count_key ≡ c =
        ap uint_or_zero (rest count_key (λ e'. keys_differ (sym e'))) ∙ e in
      let sum : u64 (get_uint β m count_key + n) ≡ c + n = omega (arith, there, small') in
      put_counters mid m db' q bytes (c + n) k small small' p' (rw sum at p'')
