-- ===== src/Coordinator/Config.antt =====
-- pkg/coordinator/coordinator.go: `Config` and its defaults; pkg/coordinator/node.go: `NodeConfig`.
-- The clock and the default name of the instance (host name and process) are arguments.
pub mod Valid
use zincsearch.Prelude.{
  ℕ, zero, suc, String, List, [], ◌∷◌, Bool, false, not, ◌||◌, str_eq, ◌==◌, if◌then◌else◌, Result,
  ok, err, ◌>>◌,
}
use zincsearch.Prelude.Int.{ℤ, pos, negsuc}
use zincsearch.Time.{Duration, seconds, minutes, hours}
use zincsearch.State.Entry.{valid_key}

pub record NodeConfig : Type 0 where
  pub name : String
  pub url : String
  pub user : String
  pub password : String

pub record Config : Type 0 where
  pub id : String
  pub nodes : List NodeConfig
  pub poll_interval : Duration
  pub poll_timeout : Duration
  pub fail_threshold : ℤ
  pub max_lag : ℕ
  pub promote_cooldown : Duration
  pub lease_ttl : Duration
  pub backup_interval : Duration
  pub backup_retry : Duration
  pub backup_retention : ℤ
  pub orphan_grace : Duration
  pub drain_timeout : Duration
  pub verify_interval : Duration

pub data ConfigErr : Type 0 where
  no_nodes name_or_url_missing name_unusable node_twice : ConfigErr

-- `seen[n.Name]`
abbrev pub is_one_of : String → List String → Bool
is_one_of n [] = false
is_one_of n (m ∷ ms) = str_eq m n || is_one_of n ms

-- The loop over the nodes; `seen` are the names before.
unfoldable pub check_nodes : List String → List NodeConfig → Result ConfigErr (Unit {0})
check_nodes seen [] = ok tt
check_nodes seen (n ∷ ns) =
    let rest = check_nodes (n.name ∷ seen) ns in
    if str_eq n.name "" || str_eq n.url ""
    then err name_or_url_missing
    else if not (valid_key n.name)
    then err name_unusable
    else if is_one_of n.name seen
    then err node_twice
    else rest

-- the closure `def`
abbrev pub or_default : Duration → Duration → Duration
or_default (pos zero) v = v
or_default (pos (suc n)) v = pos (suc n)
or_default (negsuc n) v = negsuc n

fill : String → Config → Config
fill host c = record {
  id = if str_eq c.id "" then host else c.id;
  nodes = c.nodes;
  poll_interval = or_default c.poll_interval (seconds 2);
  poll_timeout = or_default c.poll_timeout (seconds 3);
  fail_threshold = or_default c.fail_threshold (pos 3);
  max_lag = if c.max_lag == 0 then 1000 else c.max_lag;
  promote_cooldown = or_default c.promote_cooldown (minutes 1);
  lease_ttl = or_default c.lease_ttl (seconds 15);
  backup_interval = or_default c.backup_interval (hours 1);
  backup_retry = or_default c.backup_retry (minutes 5);
  backup_retention = or_default c.backup_retention (pos 3);
  orphan_grace = or_default c.orphan_grace (hours 24);
  drain_timeout = or_default c.drain_timeout (minutes 10);
  verify_interval = or_default c.verify_interval (hours 24);
}

check_count : List NodeConfig → Result ConfigErr (Unit {0})
check_count [] = err no_nodes
check_count (n ∷ ns) = ok tt

-- `Config.defaults`
unfoldable pub defaults : String → Config → Result ConfigErr Config
unfolding check_nodes check_count fill
defaults host c = do check_count c.nodes; check_nodes [] c.nodes; ok (fill host c)
