-- ===== src/Examples/Malgomaj.antt =====
-- The executor of programs at concrete inputs: a program whose timer has begun its callback, and is replaced.
use self_host.Prelude.{◌+◌, ◌≤◌, ◌≡◌, refl, true, none, some, [], arith}
use self_host.Text.{Text, codes, text_eq}
use self_host.Text.Map.{lookup, insert, delete}
use self_host.Malgomaj.Cache.{
  Program, armed, running, ProgramCacheItem, ProgramCache, new_program_cache, set_cache_timeout,
  stop, program_cache_get, program_cache_add, stop_at, with_item, start, fire, expire, Step, Reach,
  initial, later, set_timeout, add, wait, begin,
}
use self_host.Malgomaj.Cache.Reachable.{IsValid, Reach-IsValid}
use self_host.Malgomaj.Cache.Race.{IsLost, program_cache_add-IsLost}
use self_host.Malgomaj.Locks.{
  begun, reading, waiting, outside, State, Steps, here, next, rlock, lock_to_add, call_stop,
  holds_cache, other_runlock, deletes, closed_to_readers,
}
use self_host.Malgomaj.Locks.Stuck.{IsStuck, Steps-IsStuck}
use self_host.Malgomaj.Task.{NewTask, Tengo, create_task, get_id, run_cached}
use self_host.Malgomaj.Task.Runs.{Ran, create_task-Ran}

abbrev program : Text → Program
program source = record { id = codes "test/7"; deadline = 1_000_000; source_code = source }

abbrev c1 : ProgramCache
c1 = set_cache_timeout 5 (new_program_cache 100)

abbrev c2 : ProgramCache
c2 = (program_cache_add (program (codes "a")) c1).0

-- Five seconds later
abbrev c3 : ProgramCache
c3 = record c2 { now = c2.now + 5_000_000_000 }

abbrev first : ProgramCacheItem
first = record { program = program (codes "a"); expires = 5_000_000_100; timer = armed }

abbrev first_running : ProgramCacheItem
first_running = record first { timer = running }

abbrev c4 : ProgramCache
c4 = fire 0 first c3

first_kept : c3.items 0 ≡ some first
unfolding program_cache_add set_cache_timeout stop_at with_item start stop lookup
first_kept = refl

in_time : first.expires ≤ c3.now
unfolding program_cache_add set_cache_timeout stop_at with_item start stop lookup
in_time = omega arith

c4-Reach : Reach 100 c4
c4-Reach =
    later
      (later (later (later initial (set_timeout 5)) (add (program (codes "a"))))
        (wait 5_000_000_000))
      (begin 0 first first_kept refl in_time)

Reach-IsValid_example : IsValid c4
Reach-IsValid_example = Reach-IsValid c4-Reach

first_entry : lookup (codes "test/7") c4.m ≡ some 0
unfolding fire program_cache_add set_cache_timeout stop_at with_item start stop lookup insert delete
    text_eq
first_entry = refl

first_item : c4.items 0 ≡ some first_running
unfolding fire program_cache_add set_cache_timeout stop_at with_item start stop lookup
first_item = refl

program_cache_add-IsLost_example :
    Step
      (program_cache_add (program (codes "b")) c4).0
      (expire 0 first_running (program_cache_add (program (codes "b")) c4).0)
    × IsLost
        (program (codes "b"))
        c4.next
        c4
        (expire 0 first_running (program_cache_add (program (codes "b")) c4).0)
program_cache_add-IsLost_example =
    program_cache_add-IsLost (program (codes "b")) c4 0 first_running c4-Reach first_entry
      first_item refl

abbrev tengo : Tengo
tengo = record {
  compile = λ p. none;
  run = λ p. none;
  run_with_http = λ h p. none;
  format_expires = λ t. [];
}

abbrev task : NewTask
task = record {
  deadline = 1;
  domain = codes "test";
  http = none;
  language = codes "tengo";
  program_uuid = codes "7";
  source_code = codes "b";
}

create_task-Ran_example : Ran tengo task c4 c4 (create_task tengo (some task) c4 c4)
create_task-Ran_example = create_task-Ran tengo task c4 c4 c4-Reach

-- The cached program runs, not the source of the task.
old_source : (create_task tengo (some task) c4 c4).0.executed ≡ some (program (codes "a"))
unfolding create_task program_cache_get lookup fire with_item program_cache_add insert text_eq
    get_id run_cached set_cache_timeout
old_source = refl

abbrev at_once : State
at_once = record { callback = begun; adding = outside; others = 1; visitors = 0 }

abbrev stuck : State
stuck = record { callback = reading; adding = waiting; others = 1; visitors = 0 }

stuck-Steps : Steps at_once stuck
unfolding deletes closed_to_readers
stuck-Steps =
    next (next (next here (rlock refl refl)) (lock_to_add refl refl refl)) (call_stop refl)

stuck-IsStuck : IsStuck stuck
stuck-IsStuck = record { callback = refl; adding = refl }

-- The other reader leaves, and nothing changes.
abbrev alone : State
alone = record stuck { others = 0 }

Steps-IsStuck_example : IsStuck alone × (holds_cache waiting ≡ true)
Steps-IsStuck_example = Steps-IsStuck stuck-IsStuck (next here (other_runlock 0 refl))
