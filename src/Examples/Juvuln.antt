-- ===== src/Examples/Juvuln.antt =====
-- The cache of programs with a cron that counts its entries.
use self_host.Prelude.{ℕ, ◌+◌, ◌≡◌, refl, none, some, List, [], ◌∷◌, ok, err, Bool, true, false}
use self_host.Prelude.Int.{pos}
use self_host.Text.{codes, text_eq}
use self_host.Text.Map.{lookup}
use self_host.Juvuln.Cache.{
  ProgramRevision, Runtime, ProgramCache, DomainDb, RoutineRow, new_program_revision,
  update_program_cache, load, load_answer, begin,
}
use self_host.Juvuln.Cache.Refresh.{Agrees, last_with}
use self_host.Juvuln.Cache.Update.{
  Answered, Answers, programs, update_program_cache-Agrees, Cached, update_program_cache-Cached,
}

abbrev runtime : Runtime ℕ
runtime = record {
  add_func = λ schedule p w. (w + 1, w + 1);
  remove = λ eid w. w;
  uuid_string = λ u. u ∷ [];
  int_string = λ n. codes "1";
}

abbrev row : ℕ → RoutineRow
row u = record {
  name = codes "clean";
  program_uuid = u;
  type = codes "routine";
  schedule = codes "@hourly";
  deadline = pos 500;
  language = codes "tengo";
  revision = pos 1;
  code = codes "x := 1";
  checksum = codes "c0";
}

abbrev databases : List (DomainDb Bool)
databases =
    record { domain = codes "a"; routines = some (ok (row 65 ∷ row 66 ∷ [])) }
    ∷ record { domain = codes "b"; routines = none }
    ∷ record { domain = codes "c"; routines = some (ok (row 65 ∷ [])) }
    ∷ []

-- A program that no database has any more.
abbrev old : ProgramRevision
old = new_program_revision (codes "a") (row 70)

abbrev cache : ProgramCache ℕ
cache = record { m = (codes "a/F@1", old) ∷ []; deletes = []; watch = 1 }

answered : Answered databases
unfolding Answered Answers
answered = (tt, (tt, (tt, tt)))

update_program_cache-Agrees_example :
    Agrees
      (lookup (codes "a/A@1") (update_program_cache runtime databases cache).m)
      (last_with runtime (codes "a/A@1") none (programs databases))
update_program_cache-Agrees_example =
    update_program_cache-Agrees runtime databases cache (codes "a/A@1") answered

abbrev failing : List (DomainDb Bool)
failing = record { domain = codes "a"; routines = some (err true) } ∷ []

stops : (load runtime failing (begin runtime cache)).0 ≡ false
unfolding load load_answer
stops = refl

held : Cached runtime (codes "a/F@1") cache
unfolding Cached lookup text_eq
held = (old, refl)

update_program_cache-Cached_example :
    Cached runtime (codes "a/F@1") (update_program_cache runtime failing cache)
update_program_cache-Cached_example =
    update_program_cache-Cached runtime failing cache (codes "a/F@1") stops held
