-- ===== src/Streaming/Consumer/Position.antt =====
-- Where the consumer continues: the cursor that `prepare` creates against the saved offset.
use zincsearch.Prelude.{
  ◌⊎◌, ℕ, ◌+◌, ◌≤◌, ◌<◌, ◌^◌, Bool, true, false, leb, arith, ◌≡◌, ◌↔◌, none, some, Result, ok, err,
  inl, inr, refl, String, Bool-cases, ◌&&◌, str_eq, eq_iff, ◌||◌,
}
use zincsearch.Streaming.Consumer.{
  Config, ConsumerErr, StreamState, Consumer, Cursor, first_of, check_gap, cursor_at, place,
  prepare,
}

-- Of the stream, JetStream delivers through a cursor what is not before the place that it starts at
-- and, if the cursor has a subject, what the subject takes in. Which messages that are, `takes`, is an
-- argument; sequences begin at 1.
abbrev pub delivers : (String → ℕ → Bool) → Cursor → ℕ → Bool
delivers takes cur q =
    (elim cur.from [ none ↦ true | some start ↦ leb start q ])
    && (str_eq cur.filter_subject "" || takes cur.filter_subject q)

-- The message is on the subject of the consumer, or it is not restricted to one.
abbrev pub IsConsumed : (String → ℕ → Bool) → Config → ℕ → Type 0
IsConsumed takes cfg q = (cfg.subject ≡ "") ⊎ (takes cfg.subject q ≡ true)

delivers-cursor_at :
    (takes : String → ℕ → Bool) (cfg : Config) (need q : ℕ)
    → 1 ≤ q
    → (delivers takes (cursor_at cfg need) q ≡ true) ↔ ((need ≤ q) × IsConsumed takes cfg q)
delivers-cursor_at takes cfg need q h = (
  λ e. (
    ground arith,
    elim (Bool-cases (str_eq cfg.subject "")) [
      | inl all ↦ inl ((eq_iff _ _).0 all)
      | inr one ↦ inr (ground (arith, e, one))
    ],
  ),
  λ p. elim p.1 [
    | inl all ↦ ground (arith, p.0, (eq_iff cfg.subject "").1 all)
    | inr one ↦ ground (arith, p.0, one)
  ],
)

-- The position that `checkGap` gives.
check_gap-ok :
    (cfg : Config) (applied need : ℕ) (st : StreamState)
    → applied + 1 < 2 ^ 64
    → check_gap cfg applied st ≡ ok need
    → ((need ≡ applied + 1) × (first_of st ≤ need))
      ⊎ ((need ≡ first_of st) × (applied + 1 < need) × (cfg.allow_gap ≡ true))
unfolding check_gap
check_gap-ok cfg applied need st room h = ground arith

place-ok :
    (cfg : Config) (st : StreamState) (deleted created : Bool) (r : Result ConsumerErr ℕ)
    (cur : Cursor)
    → st.last_seq + 1 < 2 ^ 64
    → place cfg st deleted created r ≡ ok cur
    → (need : ℕ) × (r ≡ ok need) × (need ≤ st.last_seq + 1) × (cur ≡ cursor_at cfg need)
unfolding place
place-ok cfg st deleted created (err e) cur room h = cc
place-ok cfg st deleted created (ok need) cur room h = (need, refl, ground arith, ground arith)

prepare-place :
    {W : Type 0} (cfg : Config) (found deleted created : Bool) (st : StreamState) (c : Consumer W)
    (cur : Cursor)
    → (prepare cfg found (some st) deleted created c).0 ≡ ok cur
    → place cfg st deleted created (check_gap cfg c.applied st) ≡ ok cur
unfolding prepare
prepare-place cfg true deleted created st c cur h = h
prepare-place cfg false deleted created st c cur h = cc

-- If `prepare` creates a cursor, then JetStream delivers through it, of the messages that the stream
-- still holds and that are on the subject of the consumer, if it has one, exactly those after the
-- saved offset; the offset is not ahead of the stream; and where
-- gaps are not allowed, the stream still holds every message after the offset. The sequences stay
-- below the limit of the uint64.
pub prepare_continues :
    {W : Type 0} (takes : String → ℕ → Bool) (cfg : Config) (found deleted created : Bool)
    (st : StreamState) (c : Consumer W) (cur : Cursor)
    → c.applied + 1 < 2 ^ 64
    → st.last_seq + 1 < 2 ^ 64
    → (prepare cfg found (some st) deleted created c).0 ≡ ok cur
    → ((q : ℕ)
        → 1 ≤ q
        → first_of st ≤ q
        → (delivers takes cur q ≡ true) ↔ ((c.applied < q) × IsConsumed takes cfg q))
      × (c.applied ≤ st.last_seq)
      × (cfg.allow_gap ≡ false → first_of st ≤ c.applied + 1)
prepare_continues takes cfg found deleted created st c cur room room' h =
    let (need, e, le, same) =
      place-ok cfg st deleted created (check_gap cfg c.applied st) cur room'
        (prepare-place cfg found deleted created st c cur h) in
    elim (check_gap-ok cfg c.applied need st room e) [
      | inl (next, first) ↦ (
        λ q one held.
            let d = delivers-cursor_at takes cfg need q one in
            rw same (
              (λ e. (let le' = (d.0 e).0 in omega (arith, le', next, held), (d.0 e).1)),
              λ p. d.1 (let lt = p.0 in omega (arith, lt, next, held), p.1),
            ),
        omega (arith, next),
        λ no_gaps. omega (arith, next, first),
      )
      | inr (from_first, behind, gaps) ↦ (
        λ q one held.
            let d = delivers-cursor_at takes cfg need q one in
            rw same (
              (λ e.
                  (let le' = (d.0 e).0 in omega (arith, le', from_first, behind, held), (d.0 e).1)),
              λ p. d.1 (let lt = p.0 in omega (arith, lt, from_first, behind, held), p.1),
            ),
        omega (arith, behind),
        λ no_gaps. cc,
      )
    ]
