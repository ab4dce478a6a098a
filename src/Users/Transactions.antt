-- ===== src/Users/Transactions.antt =====
-- The operations on users against a description without transactions: one atomic statement each.
use self_host.Prelude.{ℕ, ◌+◌, ◌≡◌, not, Option, none, some, List, ◌==◌, is_empty}
use self_host.Database.{Faults}
use self_host.Database.Plain.{Statement, pure, optional, when, ◌>>=◌, ◌>>◌}
use self_host.Database.Refines.{Runs, runs_rules, atomically, idle, transaction-atomically}
use self_host.Policy.Rule.{Uuid}
use self_host.Users.{
  UserQueries, UpdateUserParams, long_name, must_exist, replace_groups, change_groups,
  update_groups, update_user,
}

module _ {S E : Type 0} (q : UserQueries S E) where
  unfoldable pub existing : Uuid → ℕ → Statement S E ℕ
  existing user count = when (count == 0) (do q.find_user_by_uuid user; pure 0)

  -- Exactly the groups `groups`.
  unfoldable pub replaced : Uuid → List Uuid → Statement S E ℕ
  replaced user groups = do
    removed ← q.remove_user_from_all_groups user
    added ← when (not (is_empty groups)) (q.add_user_to_groups user groups)
    pure (removed + added)

  unfoldable pub changed : Uuid → List Uuid → List Uuid → Statement S E ℕ
  changed user adds removes = do
    removed ← when (not (is_empty removes)) (q.remove_user_from_groups user removes)
    added ← when (not (is_empty adds)) (q.add_user_to_groups user adds)
    pure (removed + added)

  unfoldable pub regrouped : Uuid → UpdateUserParams → Option (List Uuid) → Statement S E ℕ
  regrouped user p (some groups) = replaced user groups
  regrouped user p none = changed user p.groups_add p.groups_remove

  -- The name if it is long enough, then the groups; a user who is in no row must exist.
  unfoldable pub updated : Uuid → UpdateUserParams → Statement S E ℕ
  updated user p = do
    named ← optional (long_name p.name) (q.set_user_name user)
    grouped ← regrouped user p p.groups
    existing user (named + grouped)
    pure (named + grouped)

module _ {S E : Type 0} (q : UserQueries S E) (faults : Faults S E) where
  existing-Runs :
      (user : Uuid) (count : ℕ) → Runs (must_exist q faults user count) (existing q user count)
  unfolding must_exist existing
  existing-Runs user count = search runs_rules

  replaced-Runs :
      (user : Uuid) (groups : List Uuid)
      → Runs (replace_groups q faults user groups) (replaced q user groups)
  unfolding replace_groups replaced
  replaced-Runs user groups = search runs_rules

  changed-Runs :
      (user : Uuid) (adds removes : List Uuid)
      → Runs (change_groups q faults user adds removes) (changed q user adds removes)
  unfolding change_groups changed
  changed-Runs user adds removes = search runs_rules

  regrouped-Runs :
      (user : Uuid) (p : UpdateUserParams) (o : Option (List Uuid))
      → Runs (update_groups q faults user p o) (regrouped q user p o)
  unfolding update_groups regrouped
  regrouped-Runs user p (some groups) = replaced-Runs user groups
  regrouped-Runs user p none = changed-Runs user p.groups_add p.groups_remove

  -- UpdateUser is one atomic statement: it commits the whole update or leaves the database as it was, and no transaction stays open.
  pub update_user-atomically :
      (user : Uuid) (p : UpdateUserParams) (s : S)
      → update_user q faults user p (idle s)
        ≡ (let (r, s') = atomically faults (updated q user p) s in (r, idle s'))
  unfolding update_user updated
  update_user-atomically user p s =
      transaction-atomically faults _ (updated q user p)
        (search (runs_rules, existing-Runs, regrouped-Runs)) s
