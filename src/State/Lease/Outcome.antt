-- ===== src/State/Lease/Outcome.antt =====
-- What `Acquire` and `Release` do to the store, by their results.
use zincsearch.Prelude.{
  ℕ, ◌≡◌, ◌⊎◌, none, some, Bool, true, false, not, ◌&&◌, str_eq, arith, Result, ok, err,
  Result-cases, Bool-cases, inl, inr, refl, eq_iff,
}
use zincsearch.Time.{Instant, before, zero_time}
use zincsearch.State.Entry.{
  StateErr, Entry, Codec, not_found, conflict, invalid_key, bad_json, unavailable,
}
use zincsearch.State.Store.{Store, View, Written, Kept, Laws}
use zincsearch.State.Json.{create_json, update_json}
use zincsearch.State.Json.Laws.{
  create_json-ok, create_json-err, update_json-ok, update_json-err, self-Kept,
}
use zincsearch.State.Lease.{
  LeaseRecord, Lease, Reading, leads, mine, after_create, after_update, after_release,
  acquire_write, release_write,
}

module _ {V : Type 0} {σ : Store V} {view : View σ} (laws : Laws view)
    (c : Codec V LeaseRecord) where
  -- The lease is free to take for `l`: there is none, or the one that was read still stands and is
  -- its own or has run out.
  abbrev pub IsFree : Lease → Instant → Reading → σ.St → Type 0
  IsFree l now r s =
      (view.entry s l.key ≡ none)
      ⊎ ((cur : LeaseRecord) × (e : Entry V) × (r ≡ ok (cur, e.revision))
          × (view.entry s l.key ≡ some e)
          × ((not (str_eq cur.holder l.holder) && before now cur.expires) ≡ false))

  -- A new lease record was written.
  abbrev pub Took : Lease → LeaseRecord → σ.St → σ.St → Type 0
  Took l a s s' = (v : V) × (n : ℕ) × (c.marshal a ≡ some v) × Written view s l.key v n s'

  -- Of the code after the reading: either the caller leads, by a lease that was free and is now
  -- its own, or it does not, and the store holds what it held, or such a lease after all.
  abbrev pub Outcome :
      Lease → Instant → Instant → Reading → σ.St → Result StateErr Bool × σ.St → Type 0
  Outcome l start now r s out =
      ((leads out.0 ≡ true) × Took l (mine σ c l start) s out.1 × IsFree l now r s)
      ⊎ ((leads out.0 ≡ false)
          × (Kept view s out.1 ⊎ (Took l (mine σ c l start) s out.1 × IsFree l now r s)))

  after_create-result :
      (r : Result StateErr ℕ × σ.St) (x : StateErr)
      → r.0 ≡ err x
      → (leads (after_create σ c r).0 ≡ false) × ((after_create σ c r).1 ≡ r.1)
  unfolding after_create
  after_create-result (r, s) x p = ground arith

  after_update-result :
      (r : Result StateErr ℕ × σ.St) (x : StateErr)
      → r.0 ≡ err x
      → (leads (after_update σ c r).0 ≡ false) × ((after_update σ c r).1 ≡ r.1)
  unfolding after_update
  after_update-result (r, s) x p = ground arith

  after_create-ok :
      (r : Result StateErr ℕ × σ.St) (n : ℕ)
      → r.0 ≡ ok n
      → (leads (after_create σ c r).0 ≡ true) × ((after_create σ c r).1 ≡ r.1)
  unfolding after_create
  after_create-ok (r, s) n p = ground arith

  after_update-ok :
      (r : Result StateErr ℕ × σ.St) (n : ℕ)
      → r.0 ≡ ok n
      → (leads (after_update σ c r).0 ≡ true) × ((after_update σ c r).1 ≡ r.1)
  unfolding after_update
  after_update-ok (r, s) n p = ground arith

  created :
      (l : Lease) (start now : Instant) (r : Reading) (s : σ.St)
      → view.IsWell s
      → view.HasRoom s
      → Outcome l start now r s (after_create σ c (create_json σ c s l.key (mine σ c l start)))
  created l start now r s w room =
      let out = create_json σ c s l.key (mine σ c l start) in
      elim (Result-cases out.0) [
        | inl (n, p) ↦
            let (v, m, wr, was) = create_json-ok laws c s l.key (mine σ c l start) n w room p in
            let (y, z) = after_create-ok out n p in inl (y, (v, n, m, rw z wr), inl was)
        | inr (x, p) ↦
            let (y, z) = after_create-result out x p in
            inr (
              y,
              rw z (elim (create_json-err laws c s l.key (mine σ c l start) x w room p) [
                | inl kept ↦ inl kept
                | inr (v, n, m, wr, was) ↦ inr ((v, n, m, wr), inl was)
              ]),
            )
      ]

  updated :
      (l : Lease) (start now : Instant) (cur : LeaseRecord) (rev : ℕ) (s : σ.St)
      → view.IsWell s
      → view.HasRoom s
      → (not (str_eq cur.holder l.holder) && before now cur.expires) ≡ false
      → Outcome l start now
          (ok (cur, rev))
          s
          (after_update σ c (update_json σ c s l.key (mine σ c l start) rev))
  updated l start now cur rev s w room free =
      let out = update_json σ c s l.key (mine σ c l start) rev in
      elim (Result-cases out.0) [
        | inl (n, p) ↦
            let (v, m, wr, (e, there, eq)) =
              update_json-ok laws c s l.key (mine σ c l start) rev n w room p in
            let (y, z) = after_update-ok out n p in
            inl (y, (v, n, m, rw z wr), inr (cur, e, cc, there, free))
        | inr (x, p) ↦
            let (y, z) = after_update-result out x p in
            inr (
              y,
              rw z (elim (update_json-err laws c s l.key (mine σ c l start) rev x w room p) [
                | inl kept ↦ inl kept
                | inr (v, n, m, wr, (e, there, eq)) ↦
                    inr ((v, n, m, wr), inr (cur, e, cc, there, free))
              ]),
            )
      ]

  pub acquire_write-Outcome :
      (l : Lease) (start now : Instant) (r : Reading) (s : σ.St)
      → view.IsWell s
      → view.HasRoom s
      → Outcome l start now r s (acquire_write σ c l start now r s)
  unfolding acquire_write
  acquire_write-Outcome l start now (err not_found) s w room =
      created l start now (err not_found) s w room
  acquire_write-Outcome l start now (err conflict) s w room = inr (refl, inl (self-Kept laws c s w))
  acquire_write-Outcome l start now (err invalid_key) s w room =
      inr (refl, inl (self-Kept laws c s w))
  acquire_write-Outcome l start now (err bad_json) s w room = inr (refl, inl (self-Kept laws c s w))
  acquire_write-Outcome l start now (err unavailable) s w room =
      inr (refl, inl (self-Kept laws c s w))
  acquire_write-Outcome l start now (ok (cur, rev)) s w room =
      elim (Bool-cases (not (str_eq cur.holder l.holder) && before now cur.expires)) [
        | inl taken ↦ rw taken (inr (refl, inl (self-Kept laws c s w)))
        | inr free ↦ rw free (updated l start now cur rev s w room free)
      ]

  -- Of `Release` after the reading: either the store holds what it held, or the record that was
  -- read still stood, was the caller's own, and now has run out.
  abbrev pub Released : Lease → Reading → σ.St → σ.St → Type 0
  Released l r s s' =
      Kept view s s'
      ⊎ ((cur : LeaseRecord) × (e : Entry V) × (r ≡ ok (cur, e.revision))
          × (view.entry s l.key ≡ some e)
          × (cur.holder ≡ l.holder)
          × Took l (record cur { expires = zero_time }) s s')

  after_release-store : (r : Result StateErr ℕ × σ.St) → (after_release σ c r).1 ≡ r.1
  unfolding after_release
  after_release-store (r, s) = ground arith

  given_up :
      (l : Lease) (cur : LeaseRecord) (rev : ℕ) (s : σ.St)
      → view.IsWell s
      → view.HasRoom s
      → cur.holder ≡ l.holder
      → Released l
          (ok (cur, rev))
          s
          (after_release σ c (update_json σ c s l.key (record cur { expires = zero_time }) rev)).1
  given_up l cur rev s w room own =
      let last = record cur { expires = zero_time } in
      let out = update_json σ c s l.key last rev in
      rw (after_release-store out) (elim (Result-cases out.0) [
        | inl (n, p) ↦
            let (v, m, wr, (e, there, eq)) = update_json-ok laws c s l.key last rev n w room p in
            inr (cur, e, cc, there, own, (v, n, m, wr))
        | inr (x, p) ↦ elim (update_json-err laws c s l.key last rev x w room p) [
          | inl kept ↦ inl kept
          | inr (v, n, m, wr, (e, there, eq)) ↦ inr (cur, e, cc, there, own, (v, n, m, wr))
        ]
      ])

  pub release_write-Released :
      (l : Lease) (r : Reading) (s : σ.St)
      → view.IsWell s
      → view.HasRoom s
      → Released l r s (release_write σ c l r s).1
  unfolding release_write
  release_write-Released l (err not_found) s w room = inl (self-Kept laws c s w)
  release_write-Released l (err conflict) s w room = inl (self-Kept laws c s w)
  release_write-Released l (err invalid_key) s w room = inl (self-Kept laws c s w)
  release_write-Released l (err bad_json) s w room = inl (self-Kept laws c s w)
  release_write-Released l (err unavailable) s w room = inl (self-Kept laws c s w)
  release_write-Released l (ok (cur, rev)) s w room =
      elim (Bool-cases (str_eq cur.holder l.holder)) [
        | inl own ↦ rw own (given_up l cur rev s w room ((eq_iff _ _).0 own))
        | inr other ↦ rw other (inl (self-Kept laws c s w))
      ]
