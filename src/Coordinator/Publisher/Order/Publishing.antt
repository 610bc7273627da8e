-- ===== src/Coordinator/Publisher/Order/Publishing.antt =====
-- Publishing keeps the accepted messages in order.
use zincsearch.Prelude.{
  ℕ, List, [], ◌∷◌, ◌++◌, Bool, ◌==◌, ◌≡◌, ap, ◌∙◌, sym, subst, arith, inl, inr, Result, ok, err,
  Bool-cases, append_assoc, append-nil, true, false,
}
use zincsearch.Coordinator.Buffer.{
  Bolt, Entry, Item, BufferErr, size, get_uint, count_key, append, stats,
}
use zincsearch.Coordinator.Buffer.Laws.{Laws}
use zincsearch.Coordinator.Buffer.Queue.{Holds}
use zincsearch.Coordinator.Buffer.Queue.Numbers.{number}
use zincsearch.Coordinator.Buffer.Queue.Append.{Appends, append_all_or_none}
use zincsearch.Coordinator.Publisher.{
  Sent, acknowledged, unanswered, lost, Publisher, Drain, send, parked, after_direct, after_stats,
  publish_turn, Publication, called, sending_one, parking, returned,
}
use zincsearch.Coordinator.Publisher.Within.{entries, entries-append}
use zincsearch.Coordinator.Publisher.Order.{accept, accept_if, HasRoom, HasRoomFor}
use zincsearch.Coordinator.Publisher.Order.Batch.{
  Progress, Progress-grow, Progress-append, Progress-direct, empty-queue,
}

module _ (β : Bolt) (laws : Laws β) (max' : ℕ) where
  -- The accepted messages are those that left the buffer, which are in the stream in order, and
  -- behind them those that wait in it.
  abbrev pub InOrder : β.Db → List Entry → Drain → List Entry → Type 0
  InOrder db stream d acc =
      (q : List Item) × (gone : List Entry) × Holds β laws max' db q
      × (acc ≡ gone ++ entries q)
      × Progress q gone stream d

  parked-InOrder :
      (p : Publisher β.Db) (d : Drain) (acc gone : List Entry) (e : Entry) (q : List Item)
      (out : Result BufferErr (Unit {0}) × β.Db)
      → Holds β laws max' p.db q
      → acc ≡ gone ++ entries q
      → Progress q gone p.stream d
      → Appends β laws max' (e ∷ []) p.db q out
      → let r = parked β max' p out in InOrder r.1.db r.1.stream d (accept_if r.0 e acc)
  unfolding parked
  parked-InOrder p d acc gone e q (ok _, db) h split prog (inl (_, h')) = (
    q ++ number (laws.sequence p.db) (e ∷ []),
    gone,
    h',
    ap (λ t. t ++ e ∷ []) split
        ∙ append_assoc gone (entries q) (e ∷ [])
        ∙ ap (λ t. gone ++ t) (sym (entries-append q _)),
    Progress-append q _ gone p.stream d prog,
  )
  parked-InOrder p d acc gone e q (ok _, db) h split prog (inr (x, wrong, same, over)) = cc
  parked-InOrder p d acc gone e q (err x, db) h split prog (inl (wrong, h')) = cc
  parked-InOrder p d acc gone e q (err x, db) h split prog (inr (x', _, same, over)) =
      (q, gone, rw same h, split, prog)

  park-InOrder :
      (p : Publisher β.Db) (d : Drain) (acc : List Entry) (e : Entry)
      → InOrder p.db p.stream d acc
      → HasRoom β laws max' p.db (size e)
      → let r = parked β max' p (append β max' (e ∷ []) p.db) in
        InOrder r.1.db r.1.stream d (accept_if r.0 e acc)
  park-InOrder p d acc e (q, gone, h, split, prog) (bytes, count, seq) =
      parked-InOrder p d acc gone e q (append β max' (e ∷ []) p.db) h split prog (
        append_all_or_none β laws max' (e ∷ []) p.db q h (omega (arith, bytes, h.bytes))
          (omega (arith, seq)) (omega (arith, count, h.count)))

  -- A message that was sent without success is parked: whether or not the stream has it.
  grown-InOrder :
      (db : β.Db) (stream zs : List Entry) (d : Drain) (acc : List Entry)
      → InOrder db stream d acc
      → InOrder db (stream ++ zs) d acc
  grown-InOrder db stream zs d acc (q, gone, h, split, prog) =
      (q, gone, h, split, Progress-grow q gone stream zs d prog)

  direct-InOrder :
      (p : Publisher β.Db) (d : Drain) (acc : List Entry) (sent : Sent) (e : Entry)
      → InOrder p.db p.stream d acc
      → get_uint β p.db count_key ≡ 0
      → let r = after_direct β max' e (send sent e p) in
        InOrder r.1.db r.1.stream d (accept_if r.0 e acc)
  unfolding after_direct send
  direct-InOrder p d acc acknowledged e (q, gone, h, split, prog) nothing =
      let none_waits : q ≡ [] = empty-queue q (omega (arith, nothing, h.count)) in
      (
        [],
        gone ++ e ∷ [],
        subst (Holds β laws max' p.db) none_waits h,
        ap (λ t. t ++ e ∷ []) (split ∙ ap (λ t. gone ++ entries t) none_waits ∙ append-nil gone)
            ∙ sym (append-nil (gone ++ e ∷ [])),
        Progress-direct gone p.stream e d (subst (λ t. Progress t gone p.stream d) none_waits prog),
      )
  direct-InOrder p d acc unanswered e inv nothing = grown-InOrder p.db p.stream (e ∷ []) d acc inv
  direct-InOrder p d acc lost e inv nothing = inv

  -- While a message goes past the buffer, nothing waits in it.
  abbrev pub IsClear : Publication → β.Db → Type 0
  IsClear (sending_one e) db = get_uint β db count_key ≡ 0
  IsClear _ db = Unit

  after_stats-InOrder :
      (p : Publisher β.Db) (d : Drain) (acc : List Entry) (connected : Bool) (e : Entry)
      → InOrder p.db p.stream d acc
      → let r = after_stats β max' connected e (get_uint β p.db count_key) p in
        InOrder r.1.db r.1.stream d (accept_if r.0 e acc) × IsClear r.0 r.1.db
  unfolding after_stats
  after_stats-InOrder p d acc connected e inv = elim (Bool-cases (get_uint β p.db count_key == 0)) [
    | inr some_wait ↦ rw some_wait (inv, tt)
    | inl none_waits ↦ elim (Bool-cases connected) [
      | inr offline ↦ rw (none_waits, offline) (inv, tt)
      | inl online ↦ rw (none_waits, online) (inv, ground (arith, none_waits))
    ]
  ]

  parked-IsClear :
      (p : Publisher β.Db) (out : Result BufferErr (Unit {0}) × β.Db)
      → let r = parked β max' p out in IsClear r.0 r.1.db
  unfolding parked
  parked-IsClear p (ok _, db) = tt
  parked-IsClear p (err e, db) = tt

  direct-IsClear :
      (e : Entry) (sent : Bool × Publisher β.Db)
      → let r = after_direct β max' e sent in IsClear r.0 r.1.db
  unfolding after_direct
  direct-IsClear e (true, p) = tt
  direct-IsClear e (false, p) = tt

  pub publish_turn-InOrder :
      (p : Publisher β.Db) (d : Drain) (acc : List Entry) (connected : Bool) (sent : Sent)
      (w : Publication)
      → InOrder p.db p.stream d acc
      → IsClear w p.db
      → HasRoomFor β laws max' w p.db
      → let r = publish_turn β max' connected sent w p in
        InOrder r.1.db r.1.stream d (accept w r.0 acc) × IsClear r.0 r.1.db
  unfolding publish_turn stats
  publish_turn-InOrder p d acc connected sent (called e) inv clear room =
      after_stats-InOrder p d acc connected e inv
  publish_turn-InOrder p d acc connected sent (sending_one e) inv clear room =
      (direct-InOrder p d acc sent e inv clear, direct-IsClear e (send sent e p))
  publish_turn-InOrder p d acc connected sent (parking e) inv clear room =
      (park-InOrder p d acc e inv room, parked-IsClear p (append β max' (e ∷ []) p.db))
  publish_turn-InOrder p d acc connected sent (returned r) inv clear room = (inv, tt)
