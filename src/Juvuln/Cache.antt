-- ===== src/Juvuln/Cache.antt =====
-- ProgramCache of api/juvuln/program_cache.go, with Equals, Start, Stop and GetId of program_revisions.go. The cron
-- `watch` is a parameter, and so is the text of UUIDs and integers.
pub mod Refresh
pub mod Update
use self_host.Prelude.{
  ℕ, Bool, true, false, not, ◌&&◌, ◌||◌, Option, none, some, List, [], ◌∷◌, ◌++◌, map, ◌==◌,
  if◌then◌else◌, any, Result, ok, err,
}
use self_host.Prelude.Int.{ℤ, pos, negsuc}
use self_host.Text.{Text, codes, text_eq}
use self_host.Text.Map.{TextMap, lookup, insert, delete}
use self_host.Policy.Rule.{Uuid}

unfoldable pub eq_ℤ : ℤ → ℤ → Bool
eq_ℤ (pos a) (pos b) = a == b
eq_ℤ (pos a) (negsuc b) = false
eq_ℤ (negsuc a) (pos b) = false
eq_ℤ (negsuc a) (negsuc b) = a == b

pub record ProgramRevision : Type 0 where
  pub domain : Text
  pub name : Text
  pub program_uuid : Uuid
  pub type : Text
  pub schedule : Text
  pub deadline : ℤ
  pub language : Text
  pub revision : ℤ
  -- The bytes of the code.
  pub code : Text
  pub checksum : Text
  -- The entry of the cron, 0 where there is none.
  pub eid : ℕ

-- robfig/cron with entries run by `W`, and the formats of fmt and uuid.
pub record Runtime (W : Type 0) : Type 0 where
  -- AddFunc: the entry, or 0 where the schedule is refused.
  pub add_func : Text → ProgramRevision → W → ℕ × W
  pub remove : ℕ → W → W
  pub uuid_string : Uuid → Text
  pub int_string : ℤ → Text

-- The revision number is not compared.
unfoldable pub equals : ProgramRevision → ProgramRevision → Bool
equals p b =
    text_eq p.domain b.domain
    && (text_eq p.name b.name
        && (p.program_uuid == b.program_uuid
            && (text_eq p.type b.type
                && (text_eq p.schedule b.schedule
                    && (eq_ℤ p.deadline b.deadline
                        && (text_eq p.language b.language
                            && (text_eq p.code b.code && text_eq p.checksum b.checksum)))))))

abbrev pub routine : Text
routine = codes "routine"

pub record ProgramCache (W : Type 0) : Type 0 where
  pub m : TextMap ProgramRevision
  -- The keys of a set.
  pub deletes : List Text
  pub watch : W

unfoldable pub member : Text → List Text → Bool
member id ids = any (λ k. text_eq k id) ids

unfoldable pub without : Text → List Text → List Text
without id [] = []
without id (k ∷ ks) = let rest = without id ks in if text_eq k id then rest else k ∷ rest

module _ {W : Type 0} (r : Runtime W) where
  unfoldable pub get_id : ProgramRevision → Text
  get_id p = p.domain ++ (b'/' ∷ (r.uuid_string p.program_uuid ++ (b'@' ∷ r.int_string p.revision)))

  unfoldable pub start : ProgramRevision → W → ProgramRevision × W
  start p w =
      if not (text_eq p.type routine)
      then (p, w)
      else (let (eid, w') = r.add_func p.schedule p w in (record p { eid = eid }, w'))

  unfoldable pub stop : ProgramRevision → W → W
  stop p w = if not (text_eq p.type routine) then w else r.remove p.eid w

  -- `obj.Start(); p.m[id] = obj`
  unfoldable pub put : ProgramRevision → ProgramCache W → ProgramCache W
  put obj c =
      let (started, w) = start obj c.watch in
      record c { m = insert (get_id obj) started c.m; watch = w }

  unfoldable pub replace :
      ProgramRevision → Option ProgramRevision → ProgramCache W → ProgramCache W
  replace obj none c = put obj c
  replace obj (some a) c =
      if equals a obj
      then c
      else put obj (record c { m = delete (get_id obj) c.m; watch = stop a c.watch })

  unfoldable pub add : ProgramRevision → ProgramCache W → ProgramCache W
  add obj c =
      replace obj (lookup (get_id obj) c.m) (record c { deletes = without (get_id obj) c.deletes })

  -- Mark all entries for deletion.
  unfoldable pub begin : ProgramCache W → ProgramCache W
  begin c = record c { deletes = map (λ e. e.0) c.m }

  unfoldable pub stop_found : Option ProgramRevision → W → W
  stop_found none w = w
  stop_found (some obj) w = stop obj w

  -- The loop of Commit over the keys still marked.
  unfoldable pub sweep : List Text → ProgramCache W → ProgramCache W
  sweep [] c = c
  sweep (k ∷ ks) c =
      sweep ks (record c { m = delete k c.m; watch = stop_found (lookup k c.m) c.watch })

  unfoldable pub commit : ProgramCache W → ProgramCache W
  commit c = record (sweep c.deletes c) { deletes = [] }

  unfoldable pub add_all : List ProgramRevision → ProgramCache W → ProgramCache W
  add_all [] c = c
  add_all (p ∷ ps) c = add_all ps (add p c)

  unfoldable pub finish : Bool × ProgramCache W → ProgramCache W
  finish (true, c) = commit c
  finish (false, c) = c

  -- Begin, Add for each program, Commit.
  unfoldable pub refresh : List ProgramRevision → ProgramCache W → ProgramCache W
  refresh ps c = commit (add_all ps (begin c))

-- A row of FindAllRoutineRevisions.
pub record RoutineRow : Type 0 where
  pub name : Text
  pub program_uuid : Uuid
  pub type : Text
  pub schedule : Text
  pub deadline : ℤ
  pub language : Text
  pub revision : ℤ
  pub code : Text
  pub checksum : Text

-- A domain with the answer of its database; `none` where it has no connection.
pub record DomainDb (E : Type 0) : Type 0 where
  pub domain : Text
  pub routines : Option (Result E (List RoutineRow))

unfoldable pub new_program_revision : Text → RoutineRow → ProgramRevision
new_program_revision domain p = record {
  domain = domain;
  name = p.name;
  program_uuid = p.program_uuid;
  type = p.type;
  schedule = p.schedule;
  deadline = p.deadline;
  language = p.language;
  revision = p.revision;
  code = p.code;
  checksum = p.checksum;
  eid = 0;
}

module _ {W E : Type 0} (r : Runtime W) where
  -- The loop over the databases; `false` where one fails and the function returns, with the cache as it then is.
  unfoldable pub load_answer :
      Text
      → Option (Result E (List RoutineRow))
      → (ProgramCache W → Bool × ProgramCache W)
      → ProgramCache W
      → Bool × ProgramCache W
  load_answer domain none next c = next c
  load_answer domain (some (err e)) next c = (false, c)
  load_answer domain (some (ok rows)) next c =
      next (add_all r (map (new_program_revision domain) rows) c)

  unfoldable pub load : List (DomainDb E) → ProgramCache W → Bool × ProgramCache W
  load [] c = (true, c)
  load (d ∷ ds) c = load_answer d.domain d.routines (load ds) c

  unfoldable pub update_program_cache : List (DomainDb E) → ProgramCache W → ProgramCache W
  update_program_cache ds c = finish r (load ds (begin r c))
