-- ===== src/Coordinator/Publisher.antt =====
-- pkg/coordinator/publisher.go: the publisher that puts messages on the stream, or parks them in the
-- buffer. What becomes of a message that is sent to JetStream is an argument, and so is whether the
-- connection is up.
pub mod Within
pub mod Order
mod Tests
use zincsearch.Prelude.{
  ℕ, zero, suc, ◌+◌, ◌*◌, ◌%◌, ◌^◌, List, [], ◌∷◌, ◌++◌, Bool, true, false, not, ◌&&◌, ◌||◌, ltb,
  leb, ◌==◌, if◌then◌else◌, length, Option, none, some, Result, ok, err, String, str_eq,
}
use zincsearch.Prelude.Int.{ℤ, pos, negsuc}
use zincsearch.Time.{Duration, seconds}
use zincsearch.Coordinator.Buffer
use zincsearch.Coordinator.Buffer.{
  Bolt, Entry, Item, BufferErr, full, append, peek, remove, stats, u64,
}

-- The stream has the message and acknowledged it; it has it, but the acknowledgement was lost; or it
-- does not have it.
pub data Sent : Type 0 where
  acknowledged unanswered lost : Sent

pub data PublisherErr : Type 0 where
  no_subject not_connected send_failed backpressure message_too_large : PublisherErr
  of_buffer : BufferErr → PublisherErr

pub record PublisherConfig : Type 0 where
  pub subject : String
  pub timeout : Duration
  pub retry : Duration
  pub congested_at : ℕ

abbrev or_positive : Duration → Duration → Duration
or_positive (pos zero) v = v
or_positive (pos (suc n)) v = pos (suc n)
or_positive (negsuc n) v = v

-- the settings of `NewPublisher`
unfoldable pub with_defaults : PublisherConfig → Result PublisherErr PublisherConfig
with_defaults cfg =
    if str_eq cfg.subject ""
    then err no_subject
    else ok (record {
      subject = cfg.subject;
      timeout = or_positive cfg.timeout (seconds 5);
      retry = or_positive cfg.retry (seconds 1);
      congested_at =
          if cfg.congested_at == 0 || ltb 100 cfg.congested_at then 50 else cfg.congested_at;
    })

-- `checkSize`; a limit of 0 is not known yet
unfoldable pub check_size : ℤ → ℕ → Result PublisherErr (Unit {0})
check_size (pos zero) n = ok tt
check_size (pos (suc limit)) n = if ltb (suc limit) n then err message_too_large else ok tt
check_size (negsuc limit) n = ok tt

-- The stream is the messages that it has, the oldest first.
pub record Publisher (Db : Type 0) : Type 0 where
  pub db : Db
  pub stream : List Entry
  pub failing : Bool
  pub published : ℕ  -- uint64
  pub last_err : Option PublisherErr

-- What `drain` is at: nothing, or a batch that it sends, with the last item of it that is sent.
pub data Drain : Type 0 where
  idle : Drain
  sending : List Item → ℕ → Drain

-- Where the call of `publish` is that holds the mutex: it has just begun, it sends its message past the
-- empty buffer, it appends it to the buffer, or it has returned.
pub data Publication : Type 0 where
  called sending_one parking : Entry → Publication
  returned : Result PublisherErr (Unit {0}) → Publication

module _ {Db : Type 0} where
  -- `noteFailure`
  abbrev pub note_failure : PublisherErr → Publisher Db → Publisher Db
  note_failure e p = record p { failing = true; last_err = some e }

  -- `send`: whether it returned nil
  unfoldable pub send : Sent → Entry → Publisher Db → Bool × Publisher Db
  send acknowledged e p = (true, record p { stream = p.stream ++ e ∷ []; failing = false })
  send unanswered e p = (false, record p { stream = p.stream ++ e ∷ [] })
  send lost e p = (false, p)

  abbrev count_published : Publisher Db → Publisher Db
  count_published p = record p { published = u64 (p.published + 1) }

module _ (β : Bolt) (max' : ℕ) where
  refuse : BufferErr → PublisherErr
  refuse full = backpressure
  refuse e = of_buffer e

  -- how `publish` reads the result of `Append`
  parked : Publisher β.Db → Result BufferErr (Unit {0}) × β.Db → Publication × Publisher β.Db
  unfolding refuse
  parked p (ok _, db) = (returned (ok tt), record p { db = db })
  parked p (err e, db) = (returned (err (refuse e)), record p { db = db })

  -- how it goes on after `send`
  after_direct : Entry → Bool × Publisher β.Db → Publication × Publisher β.Db
  after_direct e (true, p) = (returned (ok tt), count_published p)
  after_direct e (false, p) = (parking e, note_failure send_failed p)

  -- how it goes on after `Stats`
  after_stats : Bool → Entry → ℕ → Publisher β.Db → Publication × Publisher β.Db
  after_stats connected e count p =
      if count == 0
      then (if not connected then (parking e, note_failure not_connected p) else (sending_one e, p))
      else (parking e, p)

  -- `publish`, from one call of the buffer or of the stream to the next: `drain` does not take the mutex
  unfoldable pub publish_turn :
      Bool → Sent → Publication → Publisher β.Db → Publication × Publisher β.Db
  unfolding after_stats after_direct parked
  publish_turn connected sent (called e) p = after_stats connected e (stats β max' p.db).count p
  publish_turn connected sent (sending_one e) p = after_direct e (send sent e p)
  publish_turn connected sent (parking e) p = parked p (append β max' (e ∷ []) p.db)
  publish_turn connected sent (returned r) p = (returned r, p)

  -- `drain`, from one call of the buffer or of the stream to the next
  taken : Publisher β.Db → Result BufferErr (List Item) → Drain × Publisher β.Db
  taken p (err e) = (idle, note_failure (of_buffer e) p)
  taken p (ok []) = (idle, p)
  taken p (ok (it ∷ rest)) = (sending (it ∷ rest) 0, p)

  -- `viewed` tells whether the buffer could be read
  begin : Bool → Publisher β.Db → Drain × Publisher β.Db
  unfolding taken
  begin viewed p = taken p (peek β viewed 64 p.db)

  after_send : Item → List Item → ℕ → Bool × Publisher β.Db → Drain × Publisher β.Db
  after_send it rest last (true, p) = (sending rest it.seq, count_published p)
  after_send it rest last (false, p) =
      let p' = note_failure send_failed p in
      (idle, if ltb 0 last then record p' { db = (remove β last p'.db).1 } else p')

  after_remove : Bool → Publisher β.Db → Result BufferErr (Unit {0}) × β.Db → Drain × Publisher β.Db
  unfolding begin
  after_remove viewed p (ok _, db) = begin viewed (record p { db = db })
  after_remove viewed p (err e, db) = (idle, note_failure (of_buffer e) (record p { db = db }))

  unfoldable pub drain_turn : Bool → Sent → Drain → Publisher β.Db → Drain × Publisher β.Db
  unfolding begin after_send after_remove
  drain_turn viewed sent idle p = begin viewed p
  drain_turn viewed sent (sending [] last) p = after_remove viewed p (remove β last p.db)
  drain_turn viewed sent (sending (it ∷ rest) last) p =
      after_send it rest last (send sent it.entry p)

  -- the part of `Health` that is no plain field
  unfoldable pub congested : PublisherConfig → Publisher β.Db → Bool
  congested cfg p =
      let st = stats β max' p.db in
      leb (u64 (st.max_bytes * cfg.congested_at)) (u64 (st.bytes * 100))
