-- ===== src/Streaming/Consumer/Justified.antt =====
-- Why a message counts as handled: `Apply` took it, or it can never be applied.
use zincsearch.Prelude.{
  ℕ, zero, suc, List, [], ◌∷◌, ◌≡◌, refl, sym, subst, Option, none, some, true, false, leb, ltb,
  Bool, Result, ok, err, Bool-cases, Option-cases, inl, inr, ◌⊎◌, All, In, here, there,
}
use zincsearch.Streaming.Wire.{Message, Refusal, decode}
use zincsearch.Streaming.Consumer.{
  Outcome, applied_it, permanent, transient, Outside, Config, Msg, StreamState, Event, did, skipped,
  saved, acked, flushed, Consumer, ConsumerErr, Run, judge, attempt, apply_decoded, apply_one,
  apply_all, ack_one, ack_all, save_last, flush_and_save, finish, work, step,
}

module _ {J B : Type 0} (out : Outside J) (unmarshal : B → Option (Message J))
    (ms : List (Msg B)) where
  -- The message of the batch was decoded, and `Apply` answered this to it.
  abbrev pub Answered : ℕ → Msg B → Outcome → Type 0
  Answered q m o =
      (x : Message J) × (w : out.World) × (decode unmarshal m.body ≡ ok x)
      × ((out.apply w q x).0 ≡ o)

  -- An applied message is one of the batch to which `Apply` returned nil, and a skipped one is one of
  -- the batch that `Decode` refuses or to which `Apply` returned a permanent error.
  abbrev pub IsJustified : Event → Type 0
  IsJustified (did q) = (m : Msg B) × In m ms × (m.sequence ≡ some q) × Answered q m applied_it
  IsJustified (skipped q) =
      (m : Msg B) × In m ms
      × (m.sequence ≡ some q)
      × (((e : Refusal) × (decode unmarshal m.body ≡ err e)) ⊎ Answered q m permanent)
  IsJustified (saved q) = Unit
  IsJustified (acked q) = Unit
  IsJustified flushed = Unit

  abbrev pub AllJustified : Consumer out.World → Type 0
  AllJustified c = All IsJustified c.events

  judge-AllJustified :
      (seq : ℕ) (o : Outcome) (again : Consumer out.World → Run out) (c : Consumer out.World)
      → (o ≡ applied_it → IsJustified (did seq))
      → (o ≡ permanent → IsJustified (skipped seq))
      → ((c' : Consumer out.World) → AllJustified c' → AllJustified (again c').1)
      → AllJustified c
      → AllJustified (judge out seq o again c).1
  unfolding judge
  judge-AllJustified seq applied_it again c yes' no' more h = (yes' refl, h)
  judge-AllJustified seq permanent again c yes' no' more h = (no' refl, h)
  judge-AllJustified seq transient again c yes' no' more h = more _ h

  module _ (m : Msg B) (seq : ℕ) (here' : In m ms) (place : m.sequence ≡ some seq) where
    attempt-AllJustified :
        (n : ℕ) (x : Message J) (c : Consumer out.World)
        → decode unmarshal m.body ≡ ok x
        → AllJustified c
        → AllJustified (attempt out n seq x c).1
    unfolding attempt
    attempt-AllJustified zero x c d h =
        judge-AllJustified seq (out.apply c.world seq x).0 _ _
          (λ e. (m, here', place, (x, c.world, d, e)))
          (λ e. (m, here', place, inr (x, c.world, d, e))) (λ c' h'. h') h
    attempt-AllJustified (suc n) x c d h =
        judge-AllJustified seq (out.apply c.world seq x).0 _ _
          (λ e. (m, here', place, (x, c.world, d, e)))
          (λ e. (m, here', place, inr (x, c.world, d, e)))
          (λ c' h'. attempt-AllJustified n x _ d h') h

    apply_decoded-AllJustified :
        (r : Result Refusal (Message J)) (c : Consumer out.World)
        → decode unmarshal m.body ≡ r
        → AllJustified c
        → AllJustified (apply_decoded out seq r c).1
    unfolding apply_decoded
    apply_decoded-AllJustified (err e) c d h = ((m, here', place, inl (e, d)), h)
    apply_decoded-AllJustified (ok x) c d h = attempt-AllJustified c.patience x c d h

    apply_one-AllJustified :
        (c : Consumer out.World)
        → AllJustified c
        → AllJustified (apply_one out unmarshal seq m.body c).1
    unfolding apply_one
    apply_one-AllJustified c h = apply_decoded-AllJustified (decode unmarshal m.body) c refl h

  next-AllJustified :
      (last seq : ℕ) (rest : List (Msg B)) (r : Result ConsumerErr (Unit {0}))
      (c : Consumer out.World)
      → ((c' : Consumer out.World)
          → AllJustified c'
          → AllJustified (apply_all out unmarshal seq rest c').1.1)
      → AllJustified c
      → let after : ℕ × Run out = elim r [
        | ok _ ↦ apply_all out unmarshal seq rest c
        | err e ↦ (last, (err e, c))
      ] in
        AllJustified after.1.1
  next-AllJustified last seq rest (ok u) c more h = more c h
  next-AllJustified last seq rest (err e) c more h = h

  apply_all-AllJustified :
      (last : ℕ) (rest : List (Msg B)) (c : Consumer out.World)
      → ((m : Msg B) → In m rest → In m ms)
      → AllJustified c
      → AllJustified (apply_all out unmarshal last rest c).1.1
  unfolding apply_all
  apply_all-AllJustified last [] c sub h = h
  apply_all-AllJustified last (m ∷ rest) c sub h = elim (Option-cases m.sequence) [
    | inl e ↦ rw e h
    | inr (seq, e) ↦ elim (Bool-cases (leb seq last)) [
      | inl old ↦ rw (e, old) (apply_all-AllJustified last rest c (λ x i. sub x (there i)) h)
      | inr new ↦
          simp (e, new)
            (next-AllJustified last seq rest (apply_one out unmarshal seq m.body c).0
              (apply_one out unmarshal seq m.body c).1
              (λ c' h'. apply_all-AllJustified seq rest c' (λ x i. sub x (there i)) h')
              (apply_one-AllJustified m seq (sub m (here refl)) e c h))
    ]
  ]

  ack_one-AllJustified :
      (last : ℕ) (o : Option ℕ) (c : Consumer out.World)
      → AllJustified c
      → AllJustified (ack_one out unmarshal last o c)
  unfolding ack_one
  ack_one-AllJustified last none c h = h
  ack_one-AllJustified last (some q) c h = elim (Bool-cases (leb q last)) [
    | inl below ↦ rw below (tt, h)
    | inr above ↦ rw above h
  ]

  ack_all-AllJustified :
      (last : ℕ) (ms' : List (Msg B)) (c : Consumer out.World)
      → AllJustified c
      → AllJustified (ack_all out unmarshal last ms' c)
  unfolding ack_all
  ack_all-AllJustified last [] c h = h
  ack_all-AllJustified last (m ∷ ms') c h =
      ack_all-AllJustified last ms' _ (ack_one-AllJustified last m.sequence c h)

  save_last-AllJustified :
      (last : ℕ) (r : Result ConsumerErr (Unit {0})) (b : Bool) (c : Consumer out.World)
      → AllJustified c
      → AllJustified (save_last out unmarshal last ms r b c).1
  unfolding save_last
  save_last-AllJustified last r false c h = h
  save_last-AllJustified last r true c h = ack_all-AllJustified last ms _ (tt, h)

  flush_and_save-AllJustified :
      (last : ℕ) (r : Result ConsumerErr (Unit {0})) (b : Bool) (c : Consumer out.World)
      → AllJustified c
      → AllJustified (flush_and_save out unmarshal last ms r b c).1
  unfolding flush_and_save
  flush_and_save-AllJustified last r false c h = h
  flush_and_save-AllJustified last r true c h =
      save_last-AllJustified last r (out.save c.world last).0 _ (tt, h)

  work-AllJustified :
      (r : Result ConsumerErr (Unit {0})) (c : Consumer out.World)
      → AllJustified c
      → AllJustified (work out unmarshal ms r c).1
  unfolding work finish
  work-AllJustified (err e) c h = h
  work-AllJustified (ok u) c h =
      let p = apply_all-AllJustified c.applied ms c (λ m i. i) h in
      let (last, (r, c')) = apply_all out unmarshal c.applied ms c in
      elim (Bool-cases (ltb c.applied last)) [
        | inr still ↦ rw still p
        | inl moved ↦ rw moved (flush_and_save-AllJustified last r (out.flush c'.world).0 _ p)
      ]

  pub step-AllJustified :
      (cfg : Config) (broken : Bool) (info : Option StreamState) (c : Consumer out.World)
      → c.events ≡ []
      → AllJustified (step out unmarshal cfg (some ms) broken info c).1
  unfolding step
  step-AllJustified cfg true info c e = subst (All IsJustified) (sym e) tt
  step-AllJustified cfg false info c e = work-AllJustified _ c (subst (All IsJustified) (sym e) tt)
