-- ===== src/Coordinator/Publisher/Tests.antt =====
-- A run of the publisher over a database in memory.
use zincsearch.Prelude.{List, [], ◌∷◌, ◌++◌, ◌≡◌, refl, arith, true, false, none, ok}
use zincsearch.Coordinator.Buffer.{Entry, Item}
use zincsearch.Coordinator.Buffer.Memory.{File, memory, memory_laws}
use zincsearch.Coordinator.Buffer.Queue.{Holds}
use zincsearch.Coordinator.Publisher.{acknowledged, unanswered, lost, Publisher}
use zincsearch.Coordinator.Publisher.Within.{IsWithin, entries}
use zincsearch.Coordinator.Publisher.Order.{
  Line, calls, publishes, drains, Reach, stays, goes, start,
}
use zincsearch.Coordinator.Publisher.Order.Safety.{accepted_in_order}

abbrev idle_publisher : Publisher File
idle_publisher = record {
  db = record { sequence = 0; entries = []; counters = λ k. none };
  stream = [];
  failing = false;
  published = 0;
  last_err = none;
}

nothing_waits : Holds memory memory_laws 100 idle_publisher.db []
unfolding zincsearch.Coordinator.Buffer.uint_or_zero
nothing_waits = record {
  keeps = record { items = refl; below = tt; ascending = tt; no_nul = tt; room = omega arith };
  bytes = refl;
  count = refl;
  fits = omega arith;
}

abbrev first : Entry
first = record { id = 7 ∷ []; payload = 1 ∷ [] }

abbrev second : Entry
second = record { id = 8 ∷ []; payload = 2 ∷ [] }

abbrev RunsTo : Line File → Type 0
RunsTo y = Reach memory memory_laws 100 (start memory memory_laws 100 idle_publisher) y

-- The first message is parked and then drained, while the second arrives; the buffer cannot be read
-- once, and the acknowledgement of the second is lost.
run :
    (y : Line File) × RunsTo y
    × (y.accepted ≡ first ∷ second ∷ [])
    × (y.publisher.stream ≡ first ∷ second ∷ [])
unfolding zincsearch.Coordinator.Buffer.uint_or_zero zincsearch.Coordinator.Publisher.publish_turn
    zincsearch.Coordinator.Buffer.stats zincsearch.Coordinator.Buffer.append
    zincsearch.Coordinator.Buffer.check_entries zincsearch.Coordinator.Buffer.update
    zincsearch.Coordinator.Buffer.Memory.same_bytes zincsearch.Coordinator.Buffer.BigEndian.be64
    zincsearch.Coordinator.Buffer.BigEndian.un64 zincsearch.Coordinator.Publisher.drain_turn
    zincsearch.Coordinator.Buffer.peek zincsearch.Coordinator.Publisher.send
    zincsearch.Coordinator.Buffer.remove zincsearch.Coordinator.Buffer.decode_value
run = (
  _,
  goes
      (goes
        (goes
          (goes
            (goes
              (goes
                (goes
                  (goes
                    (goes (goes (goes stays (calls first (ok tt) refl)) (publishes false lost tt))
                      (publishes false lost (omega arith, omega arith, omega arith)))
                    (drains true lost (omega arith, omega arith, omega arith)))
                  (calls second (ok tt) refl))
                (drains true acknowledged (omega arith, omega arith, omega arith)))
              (publishes true acknowledged tt))
            (drains false lost (omega arith, omega arith, omega arith)))
          (publishes true acknowledged (omega arith, omega arith, omega arith)))
        (drains true lost (omega arith, omega arith, omega arith)))
      (drains true unanswered (omega arith, omega arith, omega arith)),
  refl,
  refl,
)

accepted_in_order_example :
    (gone : List Entry) × (q : List Item) × (run.0.accepted ≡ gone ++ entries q)
    × IsWithin gone run.0.publisher.stream
    × Holds memory memory_laws 100 run.0.publisher.db q
accepted_in_order_example =
    accepted_in_order memory memory_laws 100 idle_publisher nothing_waits run.1
