-- ===== src/Coordinator/Publisher/Order.antt =====
-- Callers publish while the buffer is drained: the order of the messages, and that none is lost.
pub mod Batch
pub mod Publishing
pub mod Draining
pub mod Safety
use zincsearch.Prelude.{ℕ, ◌+◌, ◌<◌, ◌^◌, List, [], ◌∷◌, ◌++◌, Bool, Result, ok, err, ◌≡◌}
use zincsearch.Coordinator.Buffer.{Bolt, Entry, size, get_uint, bytes_key, count_key}
use zincsearch.Coordinator.Buffer.Laws.{Laws}
use zincsearch.Coordinator.Publisher.{
  Sent, Publisher, PublisherErr, Drain, idle, publish_turn, drain_turn, publish_turn, returned,
  called, Publication, parking, sending_one,
}

-- The publisher, what `drain` is at, where the call of `publish` is that holds the mutex, and the
-- messages for which `Publish` returned nil, in order.
pub record Line (Db : Type 0) : Type 0 where
  pub publisher : Publisher Db
  pub draining : Drain
  pub publishing : Publication
  pub accepted : List Entry

abbrev pub accept_if : Publication → Entry → List Entry → List Entry
accept_if (returned (ok _)) e acc = acc ++ e ∷ []
accept_if _ e acc = acc

-- the accepted messages after a turn of `publish`, from where it was and where it is
abbrev pub accept : Publication → Publication → List Entry → List Entry
accept (called e) w acc = accept_if w e acc
accept (sending_one e) w acc = accept_if w e acc
accept (parking e) w acc = accept_if w e acc
accept (returned r) w acc = acc

module _ (β : Bolt) (laws : Laws β) (max' : ℕ) where
  -- The counters do not pass the uint64 with so many bytes more.
  abbrev pub HasRoom : β.Db → ℕ → Type 0
  HasRoom db n =
      (get_uint β db bytes_key + n < 2 ^ 64)
      × (get_uint β db count_key + 1 < 2 ^ 64)
      × (laws.sequence db + 1 < 2 ^ 64)

  -- A turn of `publish` that appends its message has room for it.
  abbrev pub HasRoomFor : Publication → β.Db → Type 0
  HasRoomFor (parking e) db = HasRoom db (size e)
  HasRoomFor _ db = Unit

  abbrev pub after_publish : Line β.Db → Bool → Sent → Line β.Db
  after_publish y connected sent =
      let out = publish_turn β max' connected sent y.publishing y.publisher in
      record {
        publisher = out.1;
        draining = y.draining;
        publishing = out.0;
        accepted = accept y.publishing out.0 y.accepted;
      }

  abbrev pub after_turn : Line β.Db → Bool → Sent → Line β.Db
  after_turn y viewed sent =
      let out = drain_turn β max' viewed sent y.draining y.publisher in
      record y { publisher = out.1; draining = out.0 }

  pub data Step (y : Line β.Db) : Line β.Db → Type 0 where
    calls :  -- the mutex is free
        (e : Entry) (r : Result PublisherErr (Unit {0}))
        → y.publishing ≡ returned r
        → Step y (record y { publishing = called e })
    publishes :
        (connected : Bool) (sent : Sent)
        → HasRoomFor y.publishing y.publisher.db
        → Step y (after_publish y connected sent)
    drains :
        (viewed : Bool) (sent : Sent) → HasRoom y.publisher.db 0 → Step y (after_turn y viewed sent)

  pub data Reach (y : Line β.Db) : Line β.Db → Type 0 where
    stays : Reach y y
    goes : {z w : Line β.Db} → Reach y z → Step z w → Reach y w

  abbrev pub start : Publisher β.Db → Line β.Db
  start p = record { publisher = p; draining = idle; publishing = returned (ok tt); accepted = [] }
