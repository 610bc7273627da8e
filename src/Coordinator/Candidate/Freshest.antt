-- ===== src/Coordinator/Candidate/Freshest.antt =====
-- The candidate is a replica that is up and has applied at least as much as any other such replica.
use zincsearch.Prelude.{
  ℕ, ◌≤◌, String, List, [], ◌∷◌, true, false, str_eq, eq_iff, ltb, arith, ◌≡◌, ◌≢◌, ◌⊎◌, inl, inr,
  Option, none, some, All, In, here, there, Bool-cases, refl, sym, ap, subst, ◌∙◌, All-In,
  if◌then◌else◌,
}
use zincsearch.Coordinator.Monitor.{up, NodeStatus}
use zincsearch.Coordinator.Candidate.{can_stand, elect, candidate, pick, pick_backup_node}

abbrev pub CanStand : String → NodeStatus → Type 0
CanStand master s = (s.name ≢ master) × (s.state ≡ up)

-- `s` is behind `n` messages at most, if it can stand at all
abbrev pub IsBehind : String → ℕ → List NodeStatus → Type 0
IsBehind master n = All (λ s. CanStand master s → s.stream.last_applied ≤ n)

abbrev pub NoneStands : String → List NodeStatus → Type 0
NoneStands master = All (λ s. ¬ CanStand master s)

-- A node of the list that can stand, and that no other that can stand is ahead of.
abbrev pub IsFreshest : String → String → List NodeStatus → Type 0
IsFreshest master name statuses =
    (s : NodeStatus) × In s statuses
    × (s.name ≡ name)
    × CanStand master s
    × IsBehind master s.stream.last_applied statuses

abbrev pub IsNamed : List NodeStatus → Type 0
IsNamed = All (λ s. s.name ≢ "")

stands : (master : String) (s : NodeStatus) → can_stand master s ≡ true → CanStand master s
stands master s h = ground (arith, eq_iff s.name master)

stands_not : (master : String) (s : NodeStatus) → can_stand master s ≡ false → ¬ CanStand master s
stands_not master s h c = ground (arith, eq_iff s.name master, c.0, c.1)

-- What the loop gives from a candidate on: the candidate itself, which nobody that can stand is
-- ahead of, or a node of the list.
abbrev Elected : String → String → ℕ → List NodeStatus → String × ℕ → Type 0
Elected master c n statuses out =
    ((out.0 ≡ c) × (out.1 ≡ n) × IsBehind master n statuses)
    ⊎ ((s : NodeStatus) × In s statuses
        × (s.name ≡ out.0)
        × (out.1 ≡ s.stream.last_applied)
        × (n ≤ out.1)
        × CanStand master s
        × IsBehind master out.1 statuses)

IsBehind-mono :
    (master : String) (n m : ℕ) (statuses : List NodeStatus)
    → n ≤ m
    → IsBehind master n statuses
    → IsBehind master m statuses
IsBehind-mono master n m [] le h = tt
IsBehind-mono master n m (s ∷ rest) le h =
    (λ c. let small = h.0 c in omega arith, IsBehind-mono master n m rest le h.1)

not_empty : (c : String) → c ≢ "" → str_eq c "" ≡ false
not_empty c ne = ground (arith, eq_iff c "", ne)

module _ (master c : String) (n : ℕ) (s : NodeStatus) (rest : List NodeStatus) where
  elect_sits : can_stand master s ≡ false → elect master c n (s ∷ rest) ≡ elect master c n rest
  unfolding elect
  elect_sits h = rw h

  elect_older :
      c ≢ ""
      → ltb n s.stream.last_applied ≡ false
      → elect master c n (s ∷ rest) ≡ elect master c n rest
  unfolding elect
  elect_older ne h = rw (not_empty c ne, h) (ground arith)

  elect_takes :
      can_stand master s ≡ true
      → (c ≡ "") ⊎ (ltb n s.stream.last_applied ≡ true)
      → elect master c n (s ∷ rest) ≡ elect master s.name s.stream.last_applied rest
  unfolding elect
  elect_takes st (inl e) = rw st (ground (arith, eq_iff c "", e))
  elect_takes st (inr h) = rw (st, h) (ground arith)

elect-Elected :
    (master c : String) (n : ℕ) (statuses : List NodeStatus)
    → c ≢ ""
    → IsNamed statuses
    → Elected master c n statuses (elect master c n statuses)
elect-Elected master c n [] ne named = unfold elect in inl (refl, refl, tt)
elect-Elected master c n (s ∷ rest) ne named = elim (Bool-cases (can_stand master s)) [
  | inr sits ↦
      subst (Elected master c n (s ∷ rest)) (sym (elect_sits master c n s rest sits))
        (elim (elect-Elected master c n rest ne named.1) [
          | inl (a, b, d) ↦ inl (a, b, (λ st. absurd (stands_not master s sits st), d))
          | inr (x, i, a, b, le, st, d) ↦
              inr (x, there i, a, b, le, st, (λ st'. absurd (stands_not master s sits st'), d))
        ])
  | inl st ↦ elim (Bool-cases (ltb n s.stream.last_applied)) [
    | inr older ↦
        subst (Elected master c n (s ∷ rest)) (sym (elect_older master c n s rest ne older))
          (elim (elect-Elected master c n rest ne named.1) [
            | inl (a, b, d) ↦ inl (a, b, (λ _. ground (arith, older), d))
            | inr (x, i, a, b, le, st', d) ↦
                inr (x, there i, a, b, le, st', (λ _. ground (arith, older, le), d))
          ])
    | inl newer ↦
        subst (Elected master c n (s ∷ rest)) (sym (elect_takes master c n s rest st (inr newer)))
          (elim (elect-Elected master s.name s.stream.last_applied rest named.0 named.1) [
            | inl (a, b, d) ↦ inr (
              s,
              here refl,
              sym a,
              b,
              ground (arith, newer, b),
              stands master s st,
              (λ _. ground (arith, b), IsBehind-mono master _ _ rest (ground (arith, b)) d),
            )
            | inr (x, i, a, b, le, st', d) ↦
                inr (x, there i, a, b, ground (arith, newer, le), st', (λ _. le, d))
          ])
  ]
]

elect-first :
    (master : String) (n : ℕ) (statuses : List NodeStatus)
    → IsNamed statuses
    → (((elect master "" n statuses).0 ≡ "") × NoneStands master statuses)
      ⊎ (((elect master "" n statuses).0 ≢ "")
          × IsFreshest master (elect master "" n statuses).0 statuses)
elect-first master n [] named = unfold elect in inl (refl, tt)
elect-first master n (s ∷ rest) named = elim (Bool-cases (can_stand master s)) [
  | inr sits ↦ rw (elect_sits master "" n s rest sits) (elim (elect-first master n rest named.1) [
    | inl (a, d) ↦ inl (a, (stands_not master s sits, d))
    | inr (a, (x, i, b, st, d)) ↦
        inr (a, (x, there i, b, st, (λ st'. absurd (stands_not master s sits st'), d)))
  ])
  | inl st ↦
      rw (elect_takes master "" n s rest st (inl refl))
        (elim (elect-Elected master s.name s.stream.last_applied rest named.0 named.1) [
          | inl (a, b, d) ↦ inr (
            λ e. named.0 (sym a ∙ e),
            (s, here refl, sym a, stands master s st, (λ _. omega arith, d)),
          )
          | inr (x, i, a, b, le, st', d) ↦ inr (
            λ e. All-In (λ y. y.name ≢ "") named.1 i (a ∙ e),
            (
              x,
              there i,
              a,
              st',
              (λ _. ground (arith, b, le), IsBehind-mono master _ _ rest (ground (arith, b)) d),
            ),
          )
        ])
]

-- Among nodes that all have names: when the candidate is empty, no node can take over; otherwise it
-- is the name of a node that is up and is not the master, and that no other such node is ahead of.
pub candidate-IsFreshest :
    (master : String) (statuses : List NodeStatus)
    → IsNamed statuses
    → (candidate master statuses ≡ "" → NoneStands master statuses)
      × (candidate master statuses ≢ "" → IsFreshest master (candidate master statuses) statuses)
candidate-IsFreshest master statuses named =
    unfold candidate in
    elim (elect-first master 0 statuses named) [
      | inl (a, d) ↦ (λ _. d, λ ne. absurd (ne a))
      | inr (ne, d) ↦ (λ e. absurd (ne e), λ _. d)
    ]

-- The two loops agree: `none` on one side is the empty name on the other.
abbrev pub named_option : String → Option String
named_option c = if str_eq c "" then none else some c

pick_sits :
    (master : String) (o : Option String) (n : ℕ) (s : NodeStatus) (rest : List NodeStatus)
    → can_stand master s ≡ false
    → pick master o n (s ∷ rest) ≡ pick master o n rest
unfolding pick
pick_sits master o n s rest h = rw h

pick-elect :
    (master c : String) (n : ℕ) (statuses : List NodeStatus)
    → IsNamed statuses
    → pick master (named_option c) n statuses
      ≡ (named_option (elect master c n statuses).0, (elect master c n statuses).1)
unfolding pick elect
pick-elect master c n [] named = refl
pick-elect master c n (s ∷ rest) named = ground (
  arith,
  pick-elect master c n rest named.1,
  pick-elect master s.name s.stream.last_applied rest named.1,
  eq_iff c "",
  eq_iff s.name "",
  named.0,
)

-- Among nodes that all have names, a backup is taken from the very node that would be promoted if the
-- master were gone, and there is none to take it from exactly when there is none to promote.
pub pick_backup_node-candidate :
    (master : String) (statuses : List NodeStatus)
    → IsNamed statuses
    → pick_backup_node master statuses ≡ named_option (candidate master statuses)
pick_backup_node-candidate master statuses named =
    unfold pick_backup_node candidate in
    ap (λ (x : Option String × ℕ). x.0) (pick-elect master "" 0 statuses named)
