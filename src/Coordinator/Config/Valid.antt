-- ===== src/Coordinator/Config/Valid.antt =====
-- What `Config.defaults` ensures.
use zincsearch.Prelude.{
  ℕ, zero, suc, String, List, [], ◌∷◌, true, false, ◌||◌, str_eq, eq_iff, ◌≡◌, ◌≢◌, refl, sym, ap,
  ◌∙◌, subst, arith, Result, ok, err, ◌>>◌, Bool-cases, inl, inr,
}
use zincsearch.Prelude.Int.{ℤ, pos, negsuc}
use zincsearch.State.Entry.{valid_key}
use zincsearch.Coordinator.Config.{
  NodeConfig, Config, ConfigErr, is_one_of, check_nodes, or_default, fill, check_count, defaults,
}

-- Each node has a name that can be a key and an URL, and no name stands twice.
abbrev pub IsValid : List String → List NodeConfig → Type 0
IsValid seen [] = Unit
IsValid seen (n ∷ ns) =
    (n.name ≢ "")
    × (n.url ≢ "")
    × (valid_key n.name ≡ true)
    × (is_one_of n.name seen ≡ false)
    × IsValid (n.name ∷ seen) ns

abbrev pub NoneZero : Config → Type 0
NoneZero c =
    (c.poll_interval ≢ pos 0)
    × (c.fail_threshold ≢ pos 0)
    × (c.max_lag ≢ 0)
    × (c.lease_ttl ≢ pos 0)
    × (c.promote_cooldown ≢ pos 0)
    × (c.backup_interval ≢ pos 0)
    × (c.backup_retention ≢ pos 0)
    × (c.poll_timeout ≢ pos 0)
    × (c.backup_retry ≢ pos 0)
    × (c.orphan_grace ≢ pos 0)
    × (c.drain_timeout ≢ pos 0)
    × (c.verify_interval ≢ pos 0)

check_nodes-IsValid :
    (seen : List String) (ns : List NodeConfig) → check_nodes seen ns ≡ ok tt → IsValid seen ns
unfolding check_nodes
check_nodes-IsValid seen [] h = tt
check_nodes-IsValid seen (n ∷ ns) h = elim (Bool-cases (str_eq n.name "" || str_eq n.url "")) [
  | inl missing ↦ cc (rw (missing, check_nodes) at h)
  | inr there' ↦ elim (Bool-cases (valid_key n.name)) [
    | inr bad ↦ cc (rw (there', bad, check_nodes) at h)
    | inl good ↦ elim (Bool-cases (is_one_of n.name seen)) [
      | inl twice ↦ cc (rw (there', good, twice, check_nodes) at h)
      | inr once ↦ (
        λ e. ground (arith, there', e, eq_iff n.name ""),
        λ e. ground (arith, there', e, eq_iff n.url ""),
        good,
        once,
        check_nodes-IsValid (n.name ∷ seen) ns (rw (there', good, once, check_nodes) at h),
      )
    ]
  ]
]

or_default_set : (d : ℤ) (k : ℕ) → or_default d (pos (suc k)) ≢ pos 0
or_default_set (pos zero) k e = cc
or_default_set (pos (suc n)) k e = cc
or_default_set (negsuc n) k e = cc

fill-NoneZero : (host : String) (c : Config) → NoneZero (fill host c)
unfolding fill
fill-NoneZero host c = (
  or_default_set c.poll_interval _,
  or_default_set c.fail_threshold 2,
  λ e. ground (arith, e),
  or_default_set c.lease_ttl _,
  or_default_set c.promote_cooldown _,
  or_default_set c.backup_interval _,
  or_default_set c.backup_retention 2,
  or_default_set c.poll_timeout _,
  or_default_set c.backup_retry _,
  or_default_set c.orphan_grace _,
  or_default_set c.drain_timeout _,
  or_default_set c.verify_interval _,
)

fill-nodes : (host : String) (c : Config) → (fill host c).nodes ≡ c.nodes
unfolding fill
fill-nodes host c = refl

both_checks :
    (r r' : Result ConfigErr (Unit {0})) (c c' : Config)
    → (r >> (r' >> ok c)) ≡ ok c'
    → (r ≡ ok tt) × (r' ≡ ok tt) × (c ≡ c')
both_checks (ok _) (ok _) c c' h = (refl, refl, cc (h))
both_checks (ok _) (err e) c c' h = cc
both_checks (err e) r' c c' h = cc

some_nodes : (ns : List NodeConfig) → check_count ns ≡ ok tt → ns ≢ []
unfolding check_count
some_nodes [] h e = cc
some_nodes (n ∷ ns) h e = cc

-- When `defaults` accepts a configuration, there are nodes in it, each has a URL and a name that can
-- be a key and that no other has, and the nodes are unchanged; and no interval, timeout,
-- threshold, retention or limit of the configuration is zero.
pub defaults-IsValid :
    (host : String) (c c' : Config)
    → defaults host c ≡ ok c'
    → (c.nodes ≢ []) × IsValid [] c.nodes × (c'.nodes ≡ c.nodes) × NoneZero c'
unfolding defaults
defaults-IsValid host c c' h =
    let (some', valid, same) =
      both_checks (check_count c.nodes) (check_nodes [] c.nodes) (fill host c) c' h in
    (
      some_nodes c.nodes some',
      check_nodes-IsValid [] c.nodes valid,
      sym (ap (λ (x : Config). x.nodes) same) ∙ fill-nodes host c,
      subst NoneZero same (fill-NoneZero host c),
    )
