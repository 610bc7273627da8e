-- ===== src/Coordinator/Publisher/Order/Draining.antt =====
-- Draining keeps the accepted messages in order.
use zincsearch.Prelude.{
  Bool, true, ℕ, List, [], ◌∷◌, ◌++◌, false, ltb, ◌≡◌, refl, arith, inl, inr, Result, ok, err,
  Bool-cases, take,
}
use zincsearch.Coordinator.Buffer.{Bolt, Entry, Item, BufferErr, peek, remove}
use zincsearch.Coordinator.Buffer.Laws.{Laws}
use zincsearch.Coordinator.Buffer.Queue.{Holds, peek_and_stats}
use zincsearch.Coordinator.Buffer.Queue.Kept.{kept}
use zincsearch.Coordinator.Buffer.Queue.Remove.{Removes, remove_takes_front}
use zincsearch.Coordinator.Publisher.{
  Sent, acknowledged, unanswered, lost, Publisher, Drain, idle, sending, send, begin, after_send,
  after_remove, drain_turn, taken, Publication, called, sending_one, parking, returned,
}
use zincsearch.Coordinator.Publisher.Within.{IsWithin, entries}
use zincsearch.Coordinator.Publisher.Order.{HasRoom}
use zincsearch.Coordinator.Publisher.Order.Batch.{
  Progress-grow, Progress-idle, Progress-send, Progress-begin, Progress-remove, Progress-busy,
  empty-queue,
}
use zincsearch.Coordinator.Publisher.Order.Publishing.{InOrder, IsClear}

module _ (β : Bolt) (laws : Laws β) (max' : ℕ) where
  -- A new batch is taken from the front of the queue, or none where the buffer cannot be read.
  taken-InOrder :
      (p : Publisher β.Db) (acc gone : List Entry) (q items : List Item)
      → Holds β laws max' p.db q
      → acc ≡ gone ++ entries q
      → IsWithin gone p.stream
      → take 64 q ≡ items
      → let r = taken β max' p (ok items) in InOrder β laws max' r.1.db r.1.stream r.0 acc
  unfolding taken
  taken-InOrder p acc gone q [] h split w front = (q, gone, h, split, w)
  taken-InOrder p acc gone q (it ∷ rest) h split w front =
      (q, gone, h, split, Progress-begin 64 q it rest gone p.stream front w)

  begin-InOrder :
      (viewed : Bool) (p : Publisher β.Db) (acc gone : List Entry) (q : List Item)
      → Holds β laws max' p.db q
      → acc ≡ gone ++ entries q
      → IsWithin gone p.stream
      → let r = begin β max' viewed p in InOrder β laws max' r.1.db r.1.stream r.0 acc
  unfolding begin taken
  begin-InOrder false p acc gone q h split w =
      rw (peek_and_stats β laws max' 64 p.db q h).1 (q, gone, h, split, w)
  begin-InOrder true p acc gone q h split w =
      rw (peek_and_stats β laws max' 64 p.db q h).0
        (taken-InOrder p acc gone q (take 64 q) h split w refl)

  -- What the batch has sent is off the queue, or the database has failed.
  abbrev Clears : Publisher β.Db → List Entry → β.Db → Type 0
  Clears p acc db =
      (q : List Item) × (gone : List Entry) × Holds β laws max' db q
      × (acc ≡ gone ++ entries q)
      × IsWithin gone p.stream

  removed-Clears :
      (p : Publisher β.Db) (acc gone : List Entry) (q todo : List Item) (last : ℕ)
      (out : Result BufferErr (Unit {0}) × β.Db)
      → Holds β laws max' p.db q
      → acc ≡ gone ++ entries q
      → (sent more s : List Item) (i : Item) → q ≡ sent ++ (todo ++ more)
      → IsWithin (gone ++ entries sent) p.stream
      → sent ≡ s ++ i ∷ []
      → i.seq ≡ last
      → Removes β laws max' last p.db q out
      → Clears p acc out.1
  removed-Clears p acc gone q todo last out h split sent more s i e w e' l (inl (_, h')) =
      let (gone', split', w') =
        Progress-remove q todo last acc gone p.stream split h.keeps.ascending sent more s i e w e'
          l in
      (kept last q, gone', h', split', w')
  removed-Clears p acc gone q todo last out h split sent more s i e w e' l (inr (_, same)) = (
    q,
    gone,
    rw same h,
    split,
    Progress-idle q gone p.stream (sending todo last) (sent, more, e, w, inr (s, i, e', l)),
  )

  remove-Clears :
      (p : Publisher β.Db) (acc gone : List Entry) (q todo : List Item) (last : ℕ)
      → Holds β laws max' p.db q
      → acc ≡ gone ++ entries q
      → (sent more s : List Item) (i : Item) → q ≡ sent ++ (todo ++ more)
      → IsWithin (gone ++ entries sent) p.stream
      → sent ≡ s ++ i ∷ []
      → i.seq ≡ last
      → HasRoom β laws max' p.db 0
      → Clears p acc (remove β last p.db).1
  remove-Clears p acc gone q todo last h split sent more s i e w e' l (bytes, count, seq) =
      removed-Clears p acc gone q todo last (remove β last p.db) h split sent more s i e w e' l (
        remove_takes_front β laws max' last p.db q h (omega (arith, count, h.count))
          (omega (arith, bytes, h.bytes)))

  after_remove-InOrder :
      (viewed : Bool) (p : Publisher β.Db) (acc : List Entry)
      (out : Result BufferErr (Unit {0}) × β.Db)
      → Clears p acc out.1
      → let r = after_remove β max' viewed p out in InOrder β laws max' r.1.db r.1.stream r.0 acc
  unfolding after_remove
  after_remove-InOrder viewed p acc (ok _, db) (q, gone, h, split, w) =
      begin-InOrder viewed (record p { db = db }) acc gone q h split w
  after_remove-InOrder viewed p acc (err x, db) (q, gone, h, split, w) = (q, gone, h, split, w)

  failed-InOrder :
      (p : Publisher β.Db) (acc : List Entry) (it : Item) (rest : List Item) (last : ℕ)
      → InOrder β laws max' p.db p.stream (sending (it ∷ rest) last) acc
      → HasRoom β laws max' p.db 0
      → let r = after_send β max' it rest last (false, p) in
        InOrder β laws max' r.1.db r.1.stream r.0 acc
  unfolding after_send
  failed-InOrder p acc it rest last (q, gone, h, split, prog) room =
      elim (Bool-cases (ltb 0 last)) [
        | inr first ↦
            rw first
              (q, gone, h, split, Progress-idle q gone p.stream (sending (it ∷ rest) last) prog)
        | inl later ↦ rw later (elim prog.4 [
          | inl (nothing, some_left, zero') ↦ absurd (ground (arith, later, zero'))
          | inr (s, i, e', l) ↦
              remove-Clears p acc gone q (it ∷ rest) last h split prog.0 prog.1 s i prog.2 prog.3 e'
                l room
        ])
      ]

  pub drain_turn-InOrder :
      (p : Publisher β.Db) (d : Drain) (acc : List Entry) (viewed : Bool) (sent : Sent)
      → InOrder β laws max' p.db p.stream d acc
      → HasRoom β laws max' p.db 0
      → let r = drain_turn β max' viewed sent d p in InOrder β laws max' r.1.db r.1.stream r.0 acc
  unfolding drain_turn send
  drain_turn-InOrder p idle acc viewed sent (q, gone, h, split, w) room =
      begin-InOrder viewed p acc gone q h split w
  drain_turn-InOrder p (sending [] last) acc viewed sent
        (q, gone, h, split, (s, more, e, w, inl (none_sent, some_left, zero'))) room =
      absurd (some_left refl)
  drain_turn-InOrder p (sending [] last) acc viewed sent
        (q, gone, h, split, (s, more, e, w, inr (s', i, e', l))) room =
      after_remove-InOrder viewed p acc (remove β last p.db)
        (remove-Clears p acc gone q [] last h split s more s' i e w e' l room)
  drain_turn-InOrder p (sending (it ∷ rest) last) acc viewed acknowledged (q, gone, h, split, prog)
        room =
      (q, gone, h, split, Progress-send q rest it last gone p.stream prog)
  drain_turn-InOrder p (sending (it ∷ rest) last) acc viewed unanswered (q, gone, h, split, prog)
        room =
      failed-InOrder (record p { stream = p.stream ++ it.entry ∷ [] }) acc it rest last
        (q, gone, h, split, Progress-grow q gone p.stream _ (sending (it ∷ rest) last) prog) room
  drain_turn-InOrder p (sending (it ∷ rest) last) acc viewed lost inv room =
      failed-InOrder p acc it rest last inv room

  taken-db :
      (p : Publisher β.Db) (r : Result BufferErr (List Item)) → (taken β max' p r).1.db ≡ p.db
  unfolding taken
  taken-db p (err e) = refl
  taken-db p (ok []) = refl
  taken-db p (ok (it ∷ rest)) = refl

  -- The drain has nothing to do while the buffer is empty.
  pub drain_turn-IsClear :
      (p : Publisher β.Db) (d : Drain) (acc : List Entry) (viewed : Bool) (sent : Sent)
      (w : Publication)
      → InOrder β laws max' p.db p.stream d acc
      → IsClear β laws max' w p.db
      → IsClear β laws max' w (drain_turn β max' viewed sent d p).1.db
  unfolding drain_turn begin
  drain_turn-IsClear p d acc viewed sent (called e) inv clear = tt
  drain_turn-IsClear p d acc viewed sent (parking e) inv clear = tt
  drain_turn-IsClear p d acc viewed sent (returned r) inv clear = tt
  drain_turn-IsClear p idle acc viewed sent (sending_one e) inv clear =
      rw (taken-db p (peek β viewed 64 p.db)) clear
  drain_turn-IsClear p (sending todo last) acc viewed sent (sending_one e) (q, gone, h, split, prog)
        clear =
      absurd (
        Progress-busy q gone p.stream todo last prog
          (empty-queue q (omega (arith, clear, h.count))))
