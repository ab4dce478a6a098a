-- ===== src/Examples/Users.antt =====
-- The operations on users over a small table.
use self_host.Prelude.{ℕ, ◌≡◌, Bool, true, false, none, some, List, [], ◌∷◌, ok, length}
use self_host.Text.{Text, codes}
use self_host.Database.{Faults}
use self_host.Database.Refines.{atomically, idle}
use self_host.Users.{UserQueries, UpdateUserParams, update_user}
use self_host.Users.Transactions.{updated, update_user-atomically}

-- The table holds the name and the groups of one user.
abbrev Table : Type 0
Table = Text × List ℕ

abbrev queries : UserQueries Table Bool
queries = record {
  create_user = λ name s. ok (record { uuid = 1; name = name }, (name, []));
  set_user_name = λ user name s. ok (1, (name, s.1));
  add_user_to_groups = λ user groups s. ok (length groups, (s.0, groups));
  remove_user_from_groups = λ user groups s. ok (0, s);
  remove_user_from_all_groups = λ user s. ok (length s.1, (s.0, []));
  find_user_by_uuid = λ user s. ok (tt, s);
  find_groups_by_user = λ user s. ok (s.1, s);
  delete_user = λ user s. ok (1, s);
  delete_token_from_user = λ user token s. ok (0, s);
  not_found = false;
}

abbrev sound : Faults Table Bool
sound = record { at_begin = λ s. none; at_commit = λ s. none; tx_done = true }

abbrev rename : UpdateUserParams
rename = record {
  name = some (codes "alice");
  groups = some (3 ∷ 4 ∷ []);
  groups_add = [];
  groups_remove = [];
}

renamed_user : update_user queries sound 1 rename (idle (codes "bob", 2 ∷ [])) ≡ (
    let (r, s') = atomically sound (updated queries 1 rename) (codes "bob", 2 ∷ []) in (r, idle s'))
renamed_user = update_user-atomically queries sound 1 rename (codes "bob", 2 ∷ [])
