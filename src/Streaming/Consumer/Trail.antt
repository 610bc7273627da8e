-- ===== src/Streaming/Consumer/Trail.antt =====
-- What the loop over the messages of a batch leaves behind: the messages that it handled, in order.
use zincsearch.Prelude.{
  ℕ, zero, suc, ◌≤◌, ◌<◌, List, [], ◌∷◌, leb, arith, ◌≡◌, refl, sym, ap, ◌∙◌, subst, Option, some,
  ◌⊎◌, inl, inr, Result, ok, err, Any, All, In, here, there, Bool-cases, Option-cases,
}
use zincsearch.Streaming.Wire.{Message, Refusal, decode}
use zincsearch.Streaming.Consumer.{
  Outcome, applied_it, permanent, transient, Outside, Msg, Event, did, skipped, saved, acked,
  flushed, Consumer, ConsumerErr, Run, judge, attempt, apply_decoded, apply_one, apply_all,
}

-- the messages that were applied or skipped, the latest first
abbrev pub handled : List Event → List ℕ
handled [] = []
handled (did q ∷ t) = q ∷ handled t
handled (skipped q ∷ t) = q ∷ handled t
handled (saved q ∷ t) = handled t
handled (acked q ∷ t) = handled t
handled (flushed ∷ t) = handled t

-- the offset that was saved last
abbrev pub saved_at : ℕ → List Event → ℕ
saved_at s0 [] = s0
saved_at s0 (saved q ∷ t) = q
saved_at s0 (did q ∷ t) = saved_at s0 t
saved_at s0 (skipped q ∷ t) = saved_at s0 t
saved_at s0 (acked q ∷ t) = saved_at s0 t
saved_at s0 (flushed ∷ t) = saved_at s0 t

abbrev pub top : ℕ → List ℕ → ℕ
top s0 [] = s0
top s0 (q ∷ qs) = q

-- Each is after the one before it, and all are after `s0`.
abbrev pub IsDescending : ℕ → List ℕ → Type 0
IsDescending s0 [] = Unit
IsDescending s0 (q ∷ qs) = (top s0 qs < q) × IsDescending s0 qs

-- Messages were handled, and nothing else was done.
abbrev pub IsQuiet : List Event → Type 0
IsQuiet [] = Unit
IsQuiet (did q ∷ t) = IsQuiet t
IsQuiet (skipped q ∷ t) = IsQuiet t
IsQuiet (saved q ∷ t) = ⊥
IsQuiet (acked q ∷ t) = ⊥
IsQuiet (flushed ∷ t) = ⊥

module _ {B : Type 0} where
  abbrev pub IsDelivered : ℕ → List (Msg B) → Type 0
  IsDelivered q = Any (λ m. m.sequence ≡ some q)

  abbrev pub IsAfter : ℕ → List (Msg B) → Type 0
  IsAfter s = All (λ m. (q : ℕ) → m.sequence ≡ some q → s < q)

  -- JetStream delivers in the order of the stream.
  abbrev pub IsAscending : List (Msg B) → Type 0
  IsAscending [] = Unit
  IsAscending (m ∷ ms) = ((s : ℕ) → m.sequence ≡ some s → IsAfter s ms) × IsAscending ms

after-delivered :
    {B : Type 0} {s q : ℕ} {ms : List (Msg B)} → IsAfter s ms → IsDelivered q ms → s < q
after-delivered h (here e) = h.0 _ e
after-delivered h (there d) = after-delivered h.1 d

-- Where the loop is: `last` is the last message that it handled.
pub record Trail {W : Type 0} (s0 last : ℕ) (c : Consumer W) : Type 0 where
  pub position : c.applied ≡ s0
  pub quiet : IsQuiet c.events
  pub order : IsDescending s0 (handled c.events)
  pub newest : top s0 (handled c.events) ≤ last
  pub above : s0 ≤ last

-- One message more.
pub data Handles {W : Type 0} (seq : ℕ) (c : Consumer W)
    : Result ConsumerErr (Unit {0}) → Consumer W → Type 0 where
  handles :
      {c' : Consumer W} (u : Unit {0})
      → c'.applied ≡ c.applied
      → (c'.events ≡ did seq ∷ c.events) ⊎ (c'.events ≡ skipped seq ∷ c.events)
      → Handles seq c (ok u) c'
  stops :
      {c' : Consumer W} (e : ConsumerErr)
      → c'.applied ≡ c.applied
      → c'.events ≡ c.events
      → Handles seq c (err e) c'

module _ {J : Type 0} (out : Outside J) where
  judge-Handles :
      (seq : ℕ) (o : Outcome) (again : Consumer out.World → Run out) (c0 c : Consumer out.World)
      → c.applied ≡ c0.applied
      → c.events ≡ c0.events
      → ((c' : Consumer out.World)
          → c'.applied ≡ c0.applied
          → c'.events ≡ c0.events
          → Handles seq c0 (again c').0 (again c').1)
      → Handles seq c0 (judge out seq o again c).0 (judge out seq o again c).1
  unfolding judge
  judge-Handles seq applied_it again c0 c p q h = handles _ p (inl (ap (λ t. did seq ∷ t) q))
  judge-Handles seq permanent again c0 c p q h = handles _ p (inr (ap (λ t. skipped seq ∷ t) q))
  judge-Handles seq transient again c0 c p q h = h _ p q

  attempt-Handles :
      (n seq : ℕ) (m : Message J) (c0 c : Consumer out.World)
      → c.applied ≡ c0.applied
      → c.events ≡ c0.events
      → Handles seq c0 (attempt out n seq m c).0 (attempt out n seq m c).1
  unfolding attempt
  attempt-Handles zero seq m c0 c p q =
      judge-Handles seq (out.apply c.world seq m).0 _ c0 _ p q (λ c' p' q'. stops _ p' q')
  attempt-Handles (suc n) seq m c0 c p q =
      judge-Handles seq (out.apply c.world seq m).0 _ c0 _ p q
        (λ c' p' q'. attempt-Handles n seq m c0 _ p' q')

  apply_decoded-Handles :
      (seq : ℕ) (r : Result Refusal (Message J)) (c : Consumer out.World)
      → Handles seq c (apply_decoded out seq r c).0 (apply_decoded out seq r c).1
  unfolding apply_decoded
  apply_decoded-Handles seq (ok m) c = attempt-Handles c.patience seq m c c refl refl
  apply_decoded-Handles seq (err e) c = handles _ refl (inr refl)

-- Handling the next message takes the trail one message further.
extend :
    {W : Type 0} {s0 last : ℕ} (seq : ℕ) {c c' : Consumer W}
    → Trail s0 last c
    → last < seq
    → c'.applied ≡ c.applied
    → IsQuiet c'.events
    → handled c'.events ≡ seq ∷ handled c.events
    → Trail s0 seq c'
extend seq t lt p quiet e = record {
  position = p ∙ t.position;
  quiet = quiet;
  order = rw e (omega (arith, t.newest), t.order);
  newest = rw e (omega arith);
  above = omega (arith, t.above);
}

handle-Trail :
    {W : Type 0} {s0 last : ℕ} (seq : ℕ) {c c' : Consumer W}
    → Trail s0 last c
    → last < seq
    → c'.applied ≡ c.applied
    → (c'.events ≡ did seq ∷ c.events) ⊎ (c'.events ≡ skipped seq ∷ c.events)
    → Trail s0 seq c' × (handled c'.events ≡ seq ∷ handled c.events)
handle-Trail seq t lt p (inl e) =
    (extend seq t lt p (subst IsQuiet (sym e) t.quiet) (ap handled e), ap handled e)
handle-Trail seq t lt p (inr e) =
    (extend seq t lt p (subst IsQuiet (sym e) t.quiet) (ap handled e), ap handled e)

-- What the loop makes of a batch.
pub record Progress {W B : Type 0} (s0 last : ℕ) (ms : List (Msg B)) (c : Consumer W) (last' : ℕ)
    (c' : Consumer W) : Type 0 where
  pub trail : Trail s0 last' c'
  pub keeps : (q : ℕ) → In q (handled c.events) → In q (handled c'.events)
  pub covers :
      IsAscending ms → (q : ℕ) → IsDelivered q ms → last < q → q ≤ last' → In q (handled c'.events)

module _ {J B : Type 0} (out : Outside J) (unmarshal : B → Option (Message J)) where
  apply_one-Handles :
      (seq : ℕ) (body : B) (c : Consumer out.World)
      → Handles seq c (apply_one out unmarshal seq body c).0 (apply_one out unmarshal seq body c).1
  unfolding apply_one
  apply_one-Handles seq body c = apply_decoded-Handles out seq (decode unmarshal body) c

  -- The loop, at a message that it has not handled yet.
  next-Progress :
      (s0 last seq : ℕ) (m : Msg B) (ms : List (Msg B)) (c : Consumer out.World)
      → ((c' : Consumer out.World)
          → Trail s0 seq c'
          → Progress s0 seq ms c'
              (apply_all out unmarshal seq ms c').0
              (apply_all out unmarshal seq ms c').1.1)
      → m.sequence ≡ some seq
      → last < seq
      → Trail s0 last c
      → (r : Result ConsumerErr (Unit {0})) (c' : Consumer out.World) → Handles seq c r c'
      → let after : ℕ × Run out = elim r [
        | ok _ ↦ apply_all out unmarshal seq ms c'
        | err e ↦ (last, (err e, c'))
      ] in
        Progress s0 last (m ∷ ms) c after.0 after.1.1
  next-Progress s0 last seq m ms c more e lt t r c' (handles u p h) =
      let (t', same) = handle-Trail seq t lt p h in
      let g = more c' t' in
      record {
        trail = g.trail;
        keeps = λ q i. g.keeps q (subst (In q) (sym same) (there i));
        covers = λ a q d lt' le. elim d [
          | here e' ↦ g.keeps q (subst (In q) (sym same) (here (cc (e, e'))))
          | there d' ↦ g.covers a.1 q d' (after-delivered (a.0 seq e) d') le
        ];
      }
  next-Progress s0 last seq m ms c more e lt t r c' (stops x p h) = record {
    trail = record {
      position = p ∙ t.position;
      quiet = subst IsQuiet (sym h) t.quiet;
      order = subst (λ t'. IsDescending s0 (handled t')) (sym h) t.order;
      newest = subst (λ t'. top s0 (handled t') ≤ last) (sym h) t.newest;
      above = t.above;
    };
    keeps = λ q i. subst (λ t'. In q (handled t')) (sym h) i;
    covers = λ a q d lt' le. absurd (omega arith);
  }

  pub apply_all-Progress :
      (s0 last : ℕ) (ms : List (Msg B)) (c : Consumer out.World)
      → Trail s0 last c
      → Progress s0 last ms c
          (apply_all out unmarshal last ms c).0
          (apply_all out unmarshal last ms c).1.1
  unfolding apply_all
  apply_all-Progress s0 last [] c t = record {
    trail = t;
    keeps = λ q i. i;
    covers = λ a q d lt le. elim d [ ];
  }
  apply_all-Progress s0 last (m ∷ ms) c t = elim (Option-cases m.sequence) [
    | inl e ↦
        rw e (record { trail = t; keeps = λ q i. i; covers = λ a q d lt le. absurd (omega arith) })
    | inr (seq, e) ↦ elim (Bool-cases (leb seq last)) [
      | inl old ↦
          let g = apply_all-Progress s0 last ms c t in
          rw (e, old)
            (record {
              trail = g.trail;
              keeps = g.keeps;
              covers = λ a q d lt le. elim d [
                | here e' ↦ let same : seq ≡ q = cc (e') in absurd (ground (arith, old))
                | there d' ↦ g.covers a.1 q d' lt le
              ];
            })
      | inr new ↦
          simp (e, new)
            (next-Progress s0 last seq m ms c (λ c' t'. apply_all-Progress s0 seq ms c' t') e
              (ground (arith, new)) t (apply_one out unmarshal seq m.body c).0
              (apply_one out unmarshal seq m.body c).1 (apply_one-Handles seq m.body c))
    ]
  ]
