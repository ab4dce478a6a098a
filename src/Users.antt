-- ===== src/Users.antt =====
-- UserService of internal/services/user.go: the operations that change users, groups of users and tokens.
-- The queries of postgres/users.sql.go are parameters; counts are the numbers of rows they report.
pub mod Transactions
use self_host.Prelude.{
  ℕ, ◌+◌, Bool, true, false, not, ◌&&◌, Option, none, some, List, [], ◌∷◌, ltb, ◌==◌, if◌then◌else◌,
  is_empty, Result, ok, err,
}
use self_host.Text.{Text, byte_length}
use self_host.Database.{
  Conn, Faults, Exec, pure, fail, query, optional, when, transaction, step, ◌>>=◌, ◌>>◌,
}
use self_host.Database.Plain.{Statement}
use self_host.Policy.Rule.{Uuid}

pub record User : Type 0 where
  pub uuid : Uuid
  pub name : Text

pub record UserQueries (S E : Type 0) : Type 0 where
  pub create_user : Text → Statement S E User
  pub set_user_name : Uuid → Text → Statement S E ℕ
  pub add_user_to_groups : Uuid → List Uuid → Statement S E ℕ
  pub remove_user_from_groups : Uuid → List Uuid → Statement S E ℕ
  pub remove_user_from_all_groups : Uuid → Statement S E ℕ
  -- FindUserByUUID, of which only the error matters here.
  pub find_user_by_uuid : Uuid → Statement S E Unit
  pub find_groups_by_user : Uuid → Statement S E (List Uuid)
  pub delete_user : Uuid → Statement S E ℕ
  pub delete_token_from_user : Uuid → Uuid → Statement S E ℕ
  -- ErrorNotFound of internal/errors
  pub not_found : E

pub record UpdateUserParams : Type 0 where
  pub name : Option Text
  pub groups : Option (List Uuid)
  pub groups_add : List Uuid
  pub groups_remove : List Uuid

-- `p.Name != nil && len(*p.Name) > 3`
unfoldable pub long_name : Option Text → Option Text
long_name none = none
long_name (some name) = if ltb 3 (byte_length name) then some name else none

module _ {S E : Type 0} (q : UserQueries S E) (faults : Faults S E) where
  unfoldable pub add_user : Text → Exec S E (User × List Uuid)
  add_user name = do
    user ← transaction faults (step faults (q.create_user name))
    groups ← query (q.find_groups_by_user user.uuid)
    pure (user, groups)

  -- `if count == 0 { if _, err := q.FindUserByUUID(…); err != nil { … } }`
  unfoldable pub must_exist : Uuid → ℕ → Exec S E ℕ
  must_exist user count = when (count == 0) (do step faults (q.find_user_by_uuid user); pure 0)

  unfoldable pub add_remove_user_to_groups : Uuid → List Uuid → List Uuid → Exec S E ℕ
  add_remove_user_to_groups user adds removes = transaction faults (do
    count ← step faults (q.remove_user_from_groups user removes)
    added ← when (not (is_empty adds)) (step faults (q.add_user_to_groups user adds))
    must_exist user (count + added)
    pure (count + added))

  unfoldable pub add_user_to_groups : Uuid → List Uuid → Exec S E ℕ
  add_user_to_groups user groups = transaction faults (do
    when (not (is_empty groups)) (step faults (q.add_user_to_groups user groups))
    when (is_empty groups) (do step faults (q.find_user_by_uuid user); pure 0))

  unfoldable pub set_user_groups : Uuid → List Uuid → Exec S E ℕ
  set_user_groups user groups = transaction faults (do
    count ← step faults (q.remove_user_from_all_groups user)
    added ← when (not (is_empty groups)) (step faults (q.add_user_to_groups user groups))
    must_exist user (count + added)
    pure (count + added))

  -- The branch of UpdateUser for a given list of groups.
  unfoldable pub replace_groups : Uuid → List Uuid → Exec S E ℕ
  replace_groups user groups = do
    removed ← step faults (q.remove_user_from_all_groups user)
    added ← when (not (is_empty groups)) (step faults (q.add_user_to_groups user groups))
    pure (removed + added)

  -- The branch for groups to add and to remove.
  unfoldable pub change_groups : Uuid → List Uuid → List Uuid → Exec S E ℕ
  change_groups user adds removes = do
    removed ← when (not (is_empty removes)) (step faults (q.remove_user_from_groups user removes))
    added ← when (not (is_empty adds)) (step faults (q.add_user_to_groups user adds))
    pure (removed + added)

  unfoldable pub update_groups : Uuid → UpdateUserParams → Option (List Uuid) → Exec S E ℕ
  update_groups user p (some groups) = replace_groups user groups
  update_groups user p none = change_groups user p.groups_add p.groups_remove

  unfoldable pub update_user : Uuid → UpdateUserParams → Exec S E ℕ
  update_user user p = transaction faults (do
    named ← optional (long_name p.name) (λ name. step faults (q.set_user_name user name))
    grouped ← update_groups user p p.groups
    must_exist user (named + grouped)
    pure (named + grouped))

  -- `else if count == 0 { return 0, ie.ErrorNotFound }`
  unfoldable pub found_rows : ℕ → Exec S E ℕ
  found_rows count = if count == 0 then fail q.not_found else pure count

  unfoldable pub set_user_name : Uuid → Text → Exec S E ℕ
  set_user_name user name = do count ← query (q.set_user_name user name); found_rows count

  unfoldable pub delete_user : Uuid → Exec S E ℕ
  delete_user user = do count ← query (q.delete_user user); found_rows count

  unfoldable pub delete_token_from_user : Uuid → Uuid → Exec S E ℕ
  delete_token_from_user user token = do
    count ← query (q.delete_token_from_user user token)
    found_rows count
