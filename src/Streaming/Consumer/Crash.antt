-- ===== src/Streaming/Consumer/Crash.antt =====
-- What is true of a batch at every moment, should the node die there.
use zincsearch.Prelude.{
  ℕ, ◌≤◌, ◌<◌, List, [], ◌∷◌, Bool, true, false, leb, ltb, arith, ◌≡◌, refl, sym, subst, Option,
  none, some, Result, ok, err, In, here, there, Bool-cases, inl, inr,
}
use zincsearch.Streaming.Wire.{Message}
use zincsearch.Streaming.Consumer.{
  Outside, Config, Msg, StreamState, Event, did, skipped, saved, acked, flushed, Consumer,
  ConsumerErr, note, apply_all, ack_one, ack_all, save_last, flush_and_save, finish, work, step,
}
use zincsearch.Streaming.Consumer.Justified.{AllJustified, step-AllJustified}
use zincsearch.Streaming.Consumer.Trail.{
  handled, saved_at, top, IsDescending, IsQuiet, IsDelivered, IsAscending, Trail,
  apply_all-Progress,
}

-- the messages that were handled before a flush
abbrev pub durable : List Event → List ℕ
durable [] = []
durable (flushed ∷ t) = handled t
durable (did q ∷ t) = durable t
durable (skipped q ∷ t) = durable t
durable (saved q ∷ t) = durable t
durable (acked q ∷ t) = durable t

abbrev pub acknowledged : List Event → List ℕ
acknowledged [] = []
acknowledged (acked q ∷ t) = q ∷ acknowledged t
acknowledged (did q ∷ t) = acknowledged t
acknowledged (skipped q ∷ t) = acknowledged t
acknowledged (saved q ∷ t) = acknowledged t
acknowledged (flushed ∷ t) = acknowledged t

quiet-saved_at :
    (s0 : ℕ) (t : List Event) → IsQuiet t → (saved_at s0 t ≡ s0) × (acknowledged t ≡ [])
quiet-saved_at s0 [] h = (refl, refl)
quiet-saved_at s0 (did q ∷ t) h = quiet-saved_at s0 t h
quiet-saved_at s0 (skipped q ∷ t) h = quiet-saved_at s0 t h
quiet-saved_at s0 (saved q ∷ t) h = absurd h
quiet-saved_at s0 (acked q ∷ t) h = absurd h
quiet-saved_at s0 (flushed ∷ t) h = absurd h

module _ {B : Type 0} where
  -- Every message of the batch up to the saved offset is durable, and nothing after it is
  -- acknowledged.
  abbrev pub IsSafe : List (Msg B) → ℕ → List Event → Type 0
  IsSafe ms s0 t =
      ((q : ℕ) → IsDelivered q ms → s0 < q → q ≤ saved_at s0 t → In q (durable t))
      × ((q : ℕ) → In q (acknowledged t) → q ≤ saved_at s0 t)

  -- It was so after each event.
  abbrev pub AlwaysSafe : List (Msg B) → ℕ → List Event → Type 0
  AlwaysSafe ms s0 [] = IsSafe ms s0 []
  AlwaysSafe ms s0 (e ∷ t) = IsSafe ms s0 (e ∷ t) × AlwaysSafe ms s0 t

  -- Before the offset moves there is nothing to lose.
  unmoved-IsSafe :
      (ms : List (Msg B)) (s0 : ℕ) (t : List Event)
      → saved_at s0 t ≡ s0
      → acknowledged t ≡ []
      → IsSafe ms s0 t
  unmoved-IsSafe ms s0 t e a =
      (λ q d lt le. absurd (omega (arith, e)), λ q i. elim (subst (In q) a i) [ ])

  quiet-AlwaysSafe : (ms : List (Msg B)) (s0 : ℕ) (t : List Event) → IsQuiet t → AlwaysSafe ms s0 t
  quiet-AlwaysSafe ms s0 [] h = unmoved-IsSafe ms s0 [] refl refl
  quiet-AlwaysSafe ms s0 (did q ∷ t) h =
      let (e, a) = quiet-saved_at s0 t h in (unmoved-IsSafe ms s0 t e a, quiet-AlwaysSafe ms s0 t h)
  quiet-AlwaysSafe ms s0 (skipped q ∷ t) h =
      let (e, a) = quiet-saved_at s0 t h in (unmoved-IsSafe ms s0 t e a, quiet-AlwaysSafe ms s0 t h)
  quiet-AlwaysSafe ms s0 (saved q ∷ t) h = absurd h
  quiet-AlwaysSafe ms s0 (acked q ∷ t) h = absurd h
  quiet-AlwaysSafe ms s0 (flushed ∷ t) h = absurd h

  AlwaysSafe-IsSafe :
      (ms : List (Msg B)) (s0 : ℕ) (t : List Event) → AlwaysSafe ms s0 t → IsSafe ms s0 t
  AlwaysSafe-IsSafe ms s0 [] h = h
  AlwaysSafe-IsSafe ms s0 (e ∷ t) h = h.0

  -- What holds when a step is over.
  abbrev pub Ends : {W : Type 0} → List (Msg B) → ℕ → Consumer W → Type 0
  Ends ms s0 c =
      AlwaysSafe ms s0 c.events
      × IsDescending s0 (handled c.events)
      × (c.applied ≡ saved_at s0 c.events)
      × (s0 ≤ c.applied)

  Trail-Ends :
      {W : Type 0} (ms : List (Msg B)) (s0 last : ℕ) (c : Consumer W)
      → Trail s0 last c
      → Ends ms s0 c
  Trail-Ends ms s0 last c t =
      let (e, a) = quiet-saved_at s0 c.events t.quiet in
      (
        quiet-AlwaysSafe ms s0 c.events t.quiet,
        t.order,
        omega (arith, e, t.position),
        omega (arith, t.position),
      )

fresh : {W : Type 0} (c : Consumer W) → c.events ≡ [] → Trail c.applied c.applied c
fresh c e = record {
  position = refl;
  quiet = subst IsQuiet (sym e) tt;
  order = subst (λ t. IsDescending c.applied (handled t)) (sym e) tt;
  newest = subst (λ t. top c.applied (handled t) ≤ c.applied) (sym e) (omega arith);
  above = omega arith;
}

module _ {J B : Type 0} (out : Outside J) (unmarshal : B → Option (Message J)) where
  -- Acknowledging what is saved keeps it so.
  ack_one-Ends :
      (ms : List (Msg B)) (s0 last : ℕ) (o : Option ℕ) (c : Consumer out.World)
      → Ends ms s0 c
      → c.applied ≡ last
      → let c' = ack_one out unmarshal last o c in Ends ms s0 c' × (c'.applied ≡ last)
  unfolding ack_one
  ack_one-Ends ms s0 last none c h e = (h, e)
  ack_one-Ends ms s0 last (some q) c h e = elim (Bool-cases (leb q last)) [
    | inr above ↦ rw above (h, e)
    | inl below ↦
        let (covered, acks) = AlwaysSafe-IsSafe ms s0 c.events h.0 in
        rw below (
          (
            (
              (
                covered,
                λ p i. elim i [
                  | here same ↦ ground (arith, same, below, h.2, e)
                  | there i' ↦ acks p i'
                ],
              ),
              h.0,
            ),
            h.1,
            h.2,
            h.3,
          ),
          e,
        )
  ]

  ack_all-Ends :
      (ms : List (Msg B)) (s0 last : ℕ) (ms' : List (Msg B)) (c : Consumer out.World)
      → Ends ms s0 c
      → c.applied ≡ last
      → Ends ms s0 (ack_all out unmarshal last ms' c)
  unfolding ack_all
  ack_all-Ends ms s0 last [] c h e = h
  ack_all-Ends ms s0 last (m ∷ ms') c h e =
      let (h', e') = ack_one-Ends ms s0 last m.sequence c h e in
      ack_all-Ends ms s0 last ms' (ack_one out unmarshal last m.sequence c) h' e'

  -- Once the batch is flushed, its offset may be saved.
  save_last-Ends :
      (ms : List (Msg B)) (s0 last : ℕ) (r : Result ConsumerErr (Unit {0})) (b : Bool)
      (w : out.World) (c : Consumer out.World)
      → Trail s0 last c
      → ((q : ℕ) → IsDelivered q ms → s0 < q → q ≤ last → In q (handled c.events))
      → Ends ms s0 (save_last out unmarshal last ms r b (record (note flushed c) { world = w })).1
  unfolding save_last
  save_last-Ends ms s0 last r false w c t covers =
      let (safe, order, position, above) = Trail-Ends ms s0 last c t in
      let (e, a) = quiet-saved_at s0 c.events t.quiet in
      ((unmoved-IsSafe ms s0 (flushed ∷ c.events) e a, safe), order, position, above)
  save_last-Ends ms s0 last r true w c t covers =
      let (safe, order, position, above) = Trail-Ends ms s0 last c t in
      let (e, a) = quiet-saved_at s0 c.events t.quiet in
      ack_all-Ends ms s0 last ms _
        (
          (
            (covers, λ q i. elim (subst (In q) a i) [ ]),
            (unmoved-IsSafe ms s0 (flushed ∷ c.events) e a, safe),
          ),
          order,
          refl,
          t.above,
        )
        refl

  flush_and_save-Ends :
      (ms : List (Msg B)) (s0 last : ℕ) (r : Result ConsumerErr (Unit {0})) (b : Bool)
      (w : out.World) (c : Consumer out.World)
      → Trail s0 last c
      → ((q : ℕ) → IsDelivered q ms → s0 < q → q ≤ last → In q (handled c.events))
      → Ends ms s0 (flush_and_save out unmarshal last ms r b (record c { world = w })).1
  unfolding flush_and_save
  flush_and_save-Ends ms s0 last r false w c t covers = Trail-Ends ms s0 last c t
  flush_and_save-Ends ms s0 last r true w c t covers =
      save_last-Ends ms s0 last r (out.save w last).0 (out.save w last).1 c t covers

  work-Ends :
      (ms : List (Msg B)) (r : Result ConsumerErr (Unit {0})) (c : Consumer out.World)
      → IsAscending ms
      → c.events ≡ []
      → Ends ms c.applied (work out unmarshal ms r c).1
  unfolding work finish
  work-Ends ms (err e) c order none_yet = Trail-Ends ms c.applied c.applied c (fresh c none_yet)
  work-Ends ms (ok u) c order none_yet =
      let p = apply_all-Progress out unmarshal c.applied c.applied ms c (fresh c none_yet) in
      let (last, (r, c')) = apply_all out unmarshal c.applied ms c in
      elim (Bool-cases (ltb c.applied last)) [
        | inr still ↦ rw still (Trail-Ends ms c.applied last c' p.trail)
        | inl moved ↦ rw moved (
            flush_and_save-Ends ms c.applied last r (out.flush c'.world).0 (out.flush c'.world).1 c'
              p.trail (p.covers order))
      ]

  -- JetStream delivers in the order of the stream, and the events are those of this step. Whatever
  -- happens in a step of the consumer, at every moment of it each message of the batch up to the
  -- offset that is saved was applied, and then flushed to disk, or was passed over, and no message
  -- after that offset is acknowledged; only messages that `Decode` refuses, or to which `Apply`
  -- returned a permanent error, are passed over, so a crash loses nothing that can be applied; the
  -- messages are handled in strictly ascending order, and all are after the offset that the step began
  -- with; and at the end the offset in memory is the saved one, and has not moved back.
  pub step_survives_crash :
      (cfg : Config) (ms : List (Msg B)) (broken : Bool) (info : Option StreamState)
      (c : Consumer out.World)
      → IsAscending ms
      → c.events ≡ []
      → Ends ms c.applied (step out unmarshal cfg (some ms) broken info c).1
        × AllJustified out unmarshal ms (step out unmarshal cfg (some ms) broken info c).1
  unfolding step
  step_survives_crash cfg ms true info c order none_yet = (
    Trail-Ends ms c.applied c.applied c (fresh c none_yet),
    step-AllJustified out unmarshal ms cfg true info c none_yet,
  )
  step_survives_crash cfg ms false info c order none_yet = (
    work-Ends ms _ c order none_yet,
    step-AllJustified out unmarshal ms cfg false info c none_yet,
  )
