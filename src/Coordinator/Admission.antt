-- ===== src/Coordinator/Admission.antt =====
-- pkg/coordinator/coordinator.go: `Admit`, whether new builds may start. The health of the publisher is
-- an argument, `none` where there is no publisher.
use zincsearch.Prelude.{
  String, List, [], ◌∷◌, ◌++◌, Bool, true, false, not, ◌||◌, if◌then◌else◌, ◌≡◌, ◌↔◌, inl, inr,
  Option, none, some, arith, Any, here, there, Bool-cases, ◌≢◌, refl,
}
use zincsearch.Coordinator.Monitor.{
  NodeState, up, lagging, degraded, suspect, NodeStatus, unknown, down, needs_restore,
}

-- what `Admit` reads of `PublisherHealth`
pub record PublisherHealth : Type 0 where
  pub connected : Bool
  pub failing : Bool
  pub congested : Bool

pub record Admission : Type 0 where
  pub allowed : Bool
  pub reasons : List String

-- the first `switch`
reasons_of : Option PublisherHealth → List String
reasons_of none = []
reasons_of (some h) =
    if not h.connected
    then "the replication stream is not connected" ∷ []
    else if h.failing
    then "publishing to the replication stream fails" ∷ []
    else if h.congested
    then "the local log buffer is filling up" ∷ []
    else []

abbrev pub is_usable : NodeState → Bool
is_usable up = true
is_usable lagging = true
is_usable degraded = true
is_usable suspect = true
is_usable _ = false

-- the loop over the nodes
any_usable : List NodeStatus → Bool
any_usable [] = false
any_usable (s ∷ rest) = is_usable s.state || any_usable rest

abbrev is_empty : List String → Bool
is_empty [] = true
is_empty (r ∷ rs) = false

unfoldable pub admit : Option PublisherHealth → List NodeStatus → Admission
unfolding reasons_of any_usable
admit health statuses =
    let reasons =
      reasons_of health
      ++ (if any_usable statuses then [] else "no ZincSearch node is available" ∷ []) in
    record { allowed = is_empty reasons; reasons = reasons }

-- The publisher, where there is one, has a connection, does not fail and is not congested.
abbrev pub CanPublish : Option PublisherHealth → Type 0
CanPublish none = Unit
CanPublish (some h) = (h.connected ≡ true) × (h.failing ≡ false) × (h.congested ≡ false)

-- A node that can answer: it was heard of, it is not gone and its data are whole.
abbrev pub IsAvailable : NodeStatus → Type 0
IsAvailable s = (s.state ≢ unknown) × (s.state ≢ down) × (s.state ≢ needs_restore)

is_usable_iff :
    (x : NodeState) → (is_usable x ≡ true) ↔ ((x ≢ unknown) × (x ≢ down) × (x ≢ needs_restore))
is_usable_iff unknown = (λ h. cc, λ h. absurd (h.0 refl))
is_usable_iff down = (λ h. cc, λ h. absurd (h.1 refl))
is_usable_iff needs_restore = (λ h. cc, λ h. absurd (h.2 refl))
is_usable_iff up = (λ h. (λ e. cc, λ e. cc, λ e. cc), λ h. refl)
is_usable_iff lagging = (λ h. (λ e. cc, λ e. cc, λ e. cc), λ h. refl)
is_usable_iff degraded = (λ h. (λ e. cc, λ e. cc, λ e. cc), λ h. refl)
is_usable_iff suspect = (λ h. (λ e. cc, λ e. cc, λ e. cc), λ h. refl)

any_usable_iff :
    (statuses : List NodeStatus) → (any_usable statuses ≡ true) ↔ Any IsAvailable statuses
unfolding any_usable
any_usable_iff [] = (λ h. cc, λ m. elim m [ ])
any_usable_iff (s ∷ rest) = (
  λ h. elim (Bool-cases (is_usable s.state)) [
    | inl yes' ↦ here ((is_usable_iff s.state).0 yes')
    | inr no' ↦ there ((any_usable_iff rest).0 (ground (arith, h, no')))
  ],
  λ m. elim m [
    | here yes' ↦ ground (arith, (is_usable_iff s.state).1 yes')
    | there m' ↦ ground (arith, (any_usable_iff rest).1 m')
  ],
)

-- New builds may start exactly when the publisher, if there is one, is connected, does not fail and is
-- not congested, and some node is neither unknown nor down nor in need of a restore.
pub admit-allowed :
    (health : Option PublisherHealth) (statuses : List NodeStatus)
    → ((admit health statuses).allowed ≡ true) ↔ (CanPublish health × Any IsAvailable statuses)
unfolding admit
admit-allowed none statuses = (
  λ h. (tt, (any_usable_iff statuses).0 (ground arith)),
  λ h. ground (arith, (any_usable_iff statuses).1 h.1),
)
admit-allowed (some p) statuses = (
  λ h. ((ground arith, ground arith, ground arith), (any_usable_iff statuses).0 (ground arith)),
  λ h. ground (arith, (any_usable_iff statuses).1 h.1, h.0.0, h.0.1, h.0.2),
)
