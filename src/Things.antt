-- ===== src/Things.antt =====
-- ThingService of internal/services/thing.go: AddThing, UpdateByUuid and DeleteThing. The queries of
-- postgres/things.sql.go are parameters.
pub mod Transactions
use self_host.Prelude.{
  [], ◌∷◌, true, false, ℕ, ◌+◌, Option, none, some, List, Result, ok, err, Bool, ◌==◌,
  if◌then◌else◌,
}
use self_host.Prelude.Int.{ℤ}
use self_host.Text.{Text}
use self_host.Database.{Exec, Faults, pure, fail, query, optional, transaction, step, ◌>>=◌, ◌>>◌}
use self_host.Database.Plain.{Statement}
use self_host.Policy.Rule.{Uuid}

pub record AddThingParams : Type 0 where
  pub name : Text
  pub type : Option Text
  pub created_by : Option Uuid
  -- `none` is the nil slice.
  pub tags : Option (List Text)

pub record CreateThingParams : Type 0 where
  pub name : Text
  pub type : Option Text
  pub created_by : Option Uuid
  pub tags : List Text

pub record Thing : Type 0 where
  pub uuid : Uuid
  pub name : Text
  pub type : Option Text
  pub state : Text
  pub created_by : Option Uuid
  pub tags : List Text

given_tags : Option (List Text) → List Text
given_tags none = []
given_tags (some tags) = tags

unfoldable pub create_params : AddThingParams → CreateThingParams
unfolding given_tags
create_params p = record {
  name = p.name;
  type = p.type;
  created_by = p.created_by;
  tags = given_tags p.tags;
}

pub record ThingQueries (S E : Type 0) : Type 0 where
  pub create_thing : CreateThingParams → Statement S E Thing
  pub delete_thing : Uuid → Statement S E ℕ
  pub set_name : Uuid → Text → Statement S E ℕ
  pub set_type : Uuid → Text → Statement S E ℕ
  pub set_state : Uuid → Text → Statement S E ℕ
  pub set_tags : Uuid → (List Text) → Statement S E ℕ

pub record UpdateThingParams : Type 0 where
  pub name : Option Text
  pub type : Option Text
  pub state : Option Text
  pub tags : Option (List Text)

module _ {S E : Type 0} (q : ThingQueries S E) (faults : Faults S E) where
  unfoldable pub add_thing : AddThingParams → Exec S E Thing
  unfolding create_params
  add_thing p = transaction faults (step faults (q.create_thing (create_params p)))

  unfoldable pub delete_thing : Uuid → Exec S E ℕ
  delete_thing uuid = query (q.delete_thing uuid)

  unfoldable pub update_by_uuid : Uuid → UpdateThingParams → Exec S E ℕ
  update_by_uuid uuid p = transaction faults (do
    n1 ← optional p.name (λ x. step faults (q.set_name uuid x))
    n2 ← optional p.type (λ x. step faults (q.set_type uuid x))
    n3 ← optional p.state (λ x. step faults (q.set_state uuid x))
    n4 ← optional p.tags (λ x. step faults (q.set_tags uuid x))
    pure (n1 + n2 + n3 + n4))
