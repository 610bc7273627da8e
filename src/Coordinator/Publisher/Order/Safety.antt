-- ===== src/Coordinator/Publisher/Order/Safety.antt =====
-- Nothing that the publisher accepted is lost or overtaken.
use zincsearch.Prelude.{ℕ, List, [], ◌++◌, ◌≡◌, refl}
use zincsearch.Coordinator.Buffer.{Bolt, Entry, Item}
use zincsearch.Coordinator.Buffer.Laws.{Laws}
use zincsearch.Coordinator.Buffer.Queue.{Holds}
use zincsearch.Coordinator.Publisher.{Publisher}
use zincsearch.Coordinator.Publisher.Within.{IsWithin, done, entries}
use zincsearch.Coordinator.Publisher.Order.{
  Line, Step, calls, publishes, drains, Reach, stays, goes, start,
}
use zincsearch.Coordinator.Publisher.Order.Batch.{Progress-idle}
use zincsearch.Coordinator.Publisher.Order.Publishing.{InOrder, IsClear, publish_turn-InOrder}
use zincsearch.Coordinator.Publisher.Order.Draining.{drain_turn-InOrder, drain_turn-IsClear}

module _ (β : Bolt) (laws : Laws β) (max' : ℕ) where
  abbrev Inv : Line β.Db → Type 0
  Inv y =
      InOrder β laws max' y.publisher.db y.publisher.stream y.draining y.accepted
      × IsClear β laws max' y.publishing y.publisher.db

  Step-Inv : {y z : Line β.Db} → Step β laws max' y z → Inv y → Inv z
  Step-Inv {y} (calls e r free) (inv, clear) = (inv, tt)
  Step-Inv {y} (publishes connected sent room) (inv, clear) =
      publish_turn-InOrder β laws max' y.publisher y.draining y.accepted connected sent y.publishing
        inv clear room
  Step-Inv {y} (drains viewed sent room) (inv, clear) = (
    drain_turn-InOrder β laws max' y.publisher y.draining y.accepted viewed sent inv room,
    drain_turn-IsClear β laws max' y.publisher y.draining y.accepted viewed sent y.publishing inv
        clear,
  )

  Reach-Inv : {y z : Line β.Db} → Reach β laws max' y z → Inv y → Inv z
  Reach-Inv stays inv = inv
  Reach-Inv (goes r s) inv = Step-Inv s (Reach-Inv r inv)

  -- Over a database that keeps its promises, from an empty buffer on, with any interleaving of the
  -- calls to the buffer and the stream that `publish` makes, which holds its mutex, with those that
  -- `drain` makes, whatever becomes of each message that is sent (it may arrive without an
  -- acknowledgement), and whichever `Append`, `Peek` or `Remove` fails (`Stats` does not): the
  -- messages that `Publish` accepted are, in the order in which they were accepted, messages that the
  -- stream has in that order, followed by those that wait in the buffer. The sizes and the numbers
  -- stay below the limit of the uint64.
  pub accepted_in_order :
      (p : Publisher β.Db) {y : Line β.Db}
      → Holds β laws max' p.db []
      → Reach β laws max' (start β laws max' p) y
      → (gone : List Entry) × (q : List Item) × (y.accepted ≡ gone ++ entries q)
        × IsWithin gone y.publisher.stream
        × Holds β laws max' y.publisher.db q
  accepted_in_order p {y} h r =
      let ((q, gone, held, split, progress), clear) = Reach-Inv r (([], [], h, refl, done), tt) in
      (gone, q, split, Progress-idle q gone y.publisher.stream y.draining progress, held)
