-- ===== src/Streaming/Consumer.antt =====
-- pkg/streaming/consumer.go: the consumer that applies the stream to a node. JetStream, the engine
-- and the saved offset are behind the interface `Outside`; a context that ends is a count of the
-- sleeps that it still lets through, after which every sleep is cut short.
pub mod Trail
pub mod Justified
pub mod Crash
pub mod Position
use zincsearch.Prelude.{
  ℕ, zero, suc, ◌+◌, ◌*◌, ◌-◌, ◌%◌, ◌^◌, String, List, [], ◌∷◌, Bool, true, false, not, ◌&&◌, ltb,
  leb, ◌==◌, if◌then◌else◌, Option, none, some, Result, ok, err,
}
use zincsearch.Prelude.Int.{ℤ, pos, negsuc, pos_part}
use zincsearch.Streaming.Wire.{Message, Refusal, decode}

-- What `Apply` reports: nil, a permanent error or another one.
pub data Outcome : Type 0 where
  applied_it permanent transient : Outcome

-- `Applier` and `OffsetStore`: each call gives the world after it.
pub record Outside (J : Type 0) : Type 1 where
  pub World : Type 0
  pub apply : World → ℕ → Message J → Outcome × World
  pub flush : World → Bool × World
  pub save : World → ℕ → Bool × World

-- the fields of `Config` that `prepare`, `checkGap` and `step` read
pub record Config : Type 0 where
  pub subject : String  -- "" where the subject is not restricted
  pub batch : ℤ
  pub allow_gap : Bool

pub data ConsumerErr : Type 0 where
  stream_failed info_failed delete_failed create_failed : ConsumerErr
  gap ahead : ℕ → ℕ → ConsumerErr  -- `ErrGap` and `ErrAhead`, with the message that is needed
  fetch_failed no_metadata stopped flush_failed save_failed : ConsumerErr
  skipping apply_failed : ℕ → ConsumerErr

-- A message as JetStream delivers it; its metadata may be unreadable.
pub record Msg (B : Type 0) : Type 0 where
  pub sequence : Option ℕ
  pub body : B

-- `StreamInfo.State`
pub record StreamState : Type 0 where
  pub msgs : ℕ
  pub first_seq : ℕ
  pub last_seq : ℕ

-- What the consumer does to the world, for the record: `Apply` returned nil, a message was skipped,
-- `Flush` and `Save` returned nil, a message was acknowledged.
pub data Event : Type 0 where
  did skipped saved acked : ℕ → Event
  flushed : Event

pub record Consumer (W : Type 0) : Type 0 where
  pub world : W
  pub applied : ℕ  -- the counters are uint64
  pub stream_last : ℕ
  pub total : ℕ
  pub skips : ℕ
  pub last_err : Option ConsumerErr
  pub patience : ℕ  -- the sleeps that the context still lets through
  pub events : List Event  -- the latest first

abbrev pub u64 : ℕ → ℕ
u64 n = n % 2 ^ 64

-- `Config.prepare`, as far as `Batch` goes
unfoldable pub batch_or_default : ℤ → ℤ
batch_or_default (pos zero) = pos 256
batch_or_default (pos (suc n)) = pos (suc n)
batch_or_default (negsuc n) = pos 256

-- `first` of `checkGap`
abbrev pub first_of : StreamState → ℕ
first_of st = if st.msgs == 0 then u64 (st.last_seq + 1) else st.first_seq

unfoldable pub check_gap : Config → ℕ → StreamState → Result ConsumerErr ℕ
check_gap cfg applied st =
    let need = u64 (applied + 1) in
    let first = first_of st in
    if leb first need then ok need else if not cfg.allow_gap then err (gap need first) else ok first

-- The cursor that `prepare` creates: `none` delivers all messages.
pub record Cursor : Type 0 where
  pub max_ack_pending : ℕ
  pub filter_subject : String
  pub from : Option ℕ

abbrev pub cursor_at : Config → ℕ → Cursor
cursor_at cfg need = record {
  max_ack_pending = 2 * pos_part cfg.batch;
  filter_subject = cfg.subject;
  from = if ltb 1 need then some need else none;
}

-- `prepare` from its position on: the old cursor is deleted and a new one created, each of which may fail.
place : Config → StreamState → Bool → Bool → Result ConsumerErr ℕ → Result ConsumerErr Cursor
place cfg st deleted created (err e) = err e
place cfg st deleted created (ok need) =
    if ltb (u64 (st.last_seq + 1)) need
    then err (ahead need st.last_seq)
    else if not deleted
    then err delete_failed
    else if not created
    then err create_failed
    else ok (cursor_at cfg need)

module _ {W : Type 0} where
  -- `prepare`: the answers of JetStream are arguments, `none` where the stream or its info was not to be had
  unfoldable pub prepare :
      Config
      → Bool
      → Option StreamState
      → Bool
      → Bool
      → Consumer W
      → Result ConsumerErr Cursor × Consumer W
  unfolding place check_gap
  prepare cfg found none deleted created c = (err (if found then info_failed else stream_failed), c)
  prepare cfg found (some st) deleted created c = if not found then (err stream_failed, c) else (
    place cfg st deleted created (check_gap cfg c.applied st),
    record c { stream_last = st.last_seq },
  )

  abbrev pub note : Event → Consumer W → Consumer W
  note e c = record c { events = e ∷ c.events }

  -- `fail`
  abbrev pub fail : ConsumerErr → Consumer W → Consumer W
  fail e c = record c { last_err = some e }

  skip : ℕ → Consumer W → Result ConsumerErr (Unit {0}) × Consumer W
  skip seq c =
      (ok tt, note (skipped seq) (fail (skipping seq) (record c { skips = u64 (c.skips + 1) })))

module _ {J : Type 0} (out : Outside J) where
  abbrev pub Run : Type 0
  Run = Result ConsumerErr (Unit {0}) × Consumer out.World

  -- One turn of the loop of `applyOne` once `Apply` has answered; `again` is the next one, after the sleep.
  judge : ℕ → Outcome → (Consumer out.World → Run) → Consumer out.World → Run
  unfolding skip
  judge seq applied_it again c = (ok tt, note (did seq) (record c { total = u64 (c.total + 1) }))
  judge seq permanent again c = skip seq c
  judge seq transient again c = again (fail (apply_failed seq) c)

  attempt : ℕ → ℕ → Message J → Consumer out.World → Run
  unfolding judge
  attempt zero seq m c =
      let (o, w) = out.apply c.world seq m in
      judge seq o (λ c'. (err stopped, record c' { patience = 0 })) (record c { world = w })
  attempt (suc n) seq m c =
      let (o, w) = out.apply c.world seq m in
      judge seq o (λ c'. attempt n seq m (record c' { patience = n })) (record c { world = w })

  apply_decoded : ℕ → Result Refusal (Message J) → Consumer out.World → Run
  unfolding attempt skip
  apply_decoded seq (err _) c = skip seq c
  apply_decoded seq (ok m) c = attempt c.patience seq m c

module _ {J B : Type 0} (out : Outside J) (unmarshal : B → Option (Message J)) where
  -- `applyOne`
  unfoldable pub apply_one : ℕ → B → Consumer out.World → Run out
  unfolding apply_decoded
  apply_one seq body c = apply_decoded out seq (decode unmarshal body) c

  -- the loop over `msgs`: the last message applied, and what ended the loop early
  unfoldable pub apply_all : ℕ → List (Msg B) → Consumer out.World → ℕ × Run out
  unfolding apply_one
  apply_all last [] c = (last, (ok tt, c))
  apply_all last (m ∷ ms) c = elim m.sequence [
    | none ↦ (last, (err no_metadata, c))
    | some seq ↦
        if leb seq last
        then apply_all last ms c
        else let (r, c') = apply_one seq m.body c in
          elim r [ ok _ ↦ apply_all seq ms c' | err e ↦ (last, (err e, c')) ]
  ]

  ack_one : ℕ → Option ℕ → Consumer out.World → Consumer out.World
  ack_one last none c = c
  ack_one last (some seq) c = if leb seq last then note (acked seq) c else c

  -- the last loop of `step`
  ack_all : ℕ → List (Msg B) → Consumer out.World → Consumer out.World
  unfolding ack_one
  ack_all last [] c = c
  ack_all last (m ∷ ms) c = ack_all last ms (ack_one last m.sequence c)

  save_last : ℕ → List (Msg B) → Result ConsumerErr (Unit {0}) → Bool → Consumer out.World → Run out
  unfolding ack_all
  save_last last ms r false c = (err save_failed, c)
  save_last last ms r true c =
      (r, ack_all last ms (record (note (saved last) c) { applied = last }))

  flush_and_save :
      ℕ → List (Msg B) → Result ConsumerErr (Unit {0}) → Bool → Consumer out.World → Run out
  unfolding save_last
  flush_and_save last ms r false c = (err flush_failed, c)
  flush_and_save last ms r true c =
      let (saved', w) = out.save c.world last in
      save_last last ms r saved' (record (note flushed c) { world = w })

  -- `step` once the loop over the messages is over
  unfoldable pub finish : ℕ → List (Msg B) → ℕ × Run out → Run out
  unfolding flush_and_save
  finish applied ms (last, (r, c)) =
      let (flushed', w) = out.flush c.world in
      if ltb applied last
      then flush_and_save last ms r flushed' (record c { world = w })
      else (r, c)

  -- Whether the first message leaves a gap behind the saved position, which `step` looks into.
  abbrev pub leaves_gap : ℕ → List (Msg B) → Bool
  leaves_gap applied [] = false
  leaves_gap applied (m ∷ ms) = elim m.sequence [
    | none ↦ false
    | some seq ↦ ltb (u64 (applied + 1)) seq
  ]

  look_into : Config → ℕ → Option StreamState → Result ConsumerErr (Unit {0})
  unfolding check_gap
  look_into cfg applied none = err info_failed
  look_into cfg applied (some st) = elim (check_gap cfg applied st) [ ok _ ↦ ok tt | err e ↦ err e ]

  work : List (Msg B) → Result ConsumerErr (Unit {0}) → Consumer out.World → Run out
  unfolding apply_all finish
  work ms (err e) c = (err e, c)
  work ms (ok _) c = finish c.applied ms (apply_all c.applied ms c)

  -- `step`: the batch is `none` when it could not be fetched, and it may end in an error that is no
  -- timeout. The count that it returns is the length of the batch.
  unfoldable pub step :
      Config → Option (List (Msg B)) → Bool → Option StreamState → Consumer out.World → Run out
  unfolding work look_into
  step cfg none broken info c = (err fetch_failed, c)
  step cfg (some ms) broken info c =
      if broken
      then (err fetch_failed, c)
      else work ms (if leaves_gap c.applied ms then look_into cfg c.applied info else ok tt) c
