-- ===== src/Coordinator/Monitor/Polls.antt =====
-- What polling makes of a node: its failures in a row and its state.
use zincsearch.Prelude.{
  ℕ, suc, ◌+◌, String, List, [], ◌∷◌, leb, arith, ◌≡◌, ◌≢◌, if◌then◌else◌, str_eq, ok, err, length,
}
use zincsearch.Prelude.Int.{pos}
use zincsearch.Dict
use zincsearch.Dict.{Dict, get-put}
use zincsearch.Time.{Instant}
use zincsearch.Coordinator.Config.{Config}
use zincsearch.Coordinator.Monitor.{
  suspect, down, StreamStatus, NodeStatus, Answer, note_answer, node_status,
}

pub node_status-put :
    (st : Dict NodeStatus) (k : String) (s : NodeStatus) (n : String)
    → node_status (Dict.put st k s) n ≡ (if str_eq k n then s else node_status st n)
unfolding node_status
node_status-put st k s n = ground (arith, get-put st k s n)

-- A node's answers, one poll after the other.
pub note_all : Config → NodeStatus → List (Instant × Answer) → NodeStatus
note_all cfg s [] = s
note_all cfg s ((t, a) ∷ rest) = note_all cfg (note_answer cfg t s a) rest

abbrev pub AllFail : List (Instant × Answer) → Type 0
AllFail [] = Unit
AllFail ((t, ok s) ∷ rest) = ⊥
AllFail ((t, err e) ∷ rest) = AllFail rest

answer_recovers :
    (cfg : Config) (t : ℕ) (s : NodeStatus) (at : Instant) (x : StreamStatus)
    → cfg.fail_threshold ≡ pos (suc t)
    → let s' = note_answer cfg at s (ok x) in (s'.state ≢ down) × (s'.state ≢ suspect)
unfolding note_answer
answer_recovers cfg t s at x k = (λ e. ground arith, λ e. ground arith)

state-note_all :
    (cfg : Config) (t : ℕ) (s : NodeStatus) (poll : Instant × Answer)
    (polls : List (Instant × Answer))
    → cfg.fail_threshold ≡ pos (suc t)
    → AllFail (poll ∷ polls)
    → (note_all cfg s (poll ∷ polls)).state
      ≡ (if leb (suc t) (s.failures + length (poll ∷ polls)) then down else suspect)
unfolding note_all note_answer
state-note_all cfg t s (at, ok x) polls k h = absurd h
state-note_all cfg t s (at, err e) [] k h = ground arith
state-note_all cfg t s (at, err e) (poll ∷ polls) k h =
    let s' = note_answer cfg at s (err e) in
    let more : s'.failures + length (poll ∷ polls) ≡ s.failures + suc (length (poll ∷ polls)) =
      omega arith in
    rw (← more) (state-note_all cfg t s' poll polls k h)

-- With a positive threshold, a node that has not failed is down after polls that all failed exactly
-- when there were as many as the threshold, and suspect before; one answer makes it neither.
pub down_at_threshold :
    (cfg : Config) (t : ℕ) (s : NodeStatus) (poll : Instant × Answer)
    (polls : List (Instant × Answer))
    → cfg.fail_threshold ≡ pos (suc t)
    → s.failures ≡ 0
    → AllFail (poll ∷ polls)
    → ((note_all cfg s (poll ∷ polls)).state
        ≡ (if leb (suc t) (length (poll ∷ polls)) then down else suspect))
      × ((at : Instant) (x : StreamStatus)
          → let s' = note_answer cfg at (note_all cfg s (poll ∷ polls)) (ok x) in
            (s'.state ≢ down) × (s'.state ≢ suspect))
down_at_threshold cfg t s poll polls k fresh h = (
  rw (state-note_all cfg t s poll polls k h) (ground (arith, fresh)),
  λ at x. answer_recovers cfg t (note_all cfg s (poll ∷ polls)) at x k,
)
