-- ===== src/Policy/Rule/Decision.antt =====
-- The decision of the access queries of postgres/access.sql.go: of the policies whose action is asked for and
-- whose resource is LIKE the resource asked for, the first by priority, those that deny before the others.
use self_host.Prelude.{◌≡◌, ◌≢◌, List, In}
use self_host.Prelude.Int.{◌<ℤ◌}
use self_host.Text.{Text}
use self_host.Policy.Cover.Like.{Like}
use self_host.Policy.Rule.{GroupPolicy, deny}

-- The WHERE clause.
pub record Applies (action resource : Text) (p : GroupPolicy) : Type 0 where
  pub same_action : p.action ≡ action
  pub is_like : Like p.resource resource

-- The ORDER BY clause: `p` may stand before `q`.
pub data Before (p q : GroupPolicy) : Type 0 where
  lower : p.priority <ℤ q.priority → Before p q
  denies : p.priority ≡ q.priority → p.effect ≡ deny → Before p q
  level : p.priority ≡ q.priority → q.effect ≢ deny → Before p q

-- LIMIT 1, and the effect of the row that it leaves.
pub record Decides (policies : List GroupPolicy) (action resource effect : Text) : Type 0 where
  pub winner : GroupPolicy
  pub member : In winner policies
  pub applies : Applies action resource winner
  pub first : (p : GroupPolicy) → In p policies → Applies action resource p → Before winner p
  pub outcome : winner.effect ≡ effect
