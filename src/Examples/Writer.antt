-- ===== src/Examples/Writer.antt =====
-- The writer over a database that is a function of series and time.
use self_host.Prelude.{
  ℕ, ◌*◌, ◌/◌, ◌≡◌, ◌<◌, refl, ap, Bool, true, false, Option, none, List, [], ◌∷◌, ok, err, Result,
  if◌then◌else◌, ◌==◌, arith, length,
}
use self_host.Policy.Rule.{Uuid}
use self_host.Timeseries.Rollups.{Time}
use self_host.Ingest.Writer.{WriterPoint, Sink, Writer, Event, done, tick, received, step, run}
use self_host.Ingest.Writer.Buffers.{or_else, first_at, received_for, IsUnique, size}
use self_host.Ingest.Writer.Delivers.{Reliable, view, IsValid, step-IsValid}
use self_host.Ingest.Writer.Runs.{IsRunning, run-delivers, run-bounded}
use self_host.Ingest.Writer.Shutdown.{Cancels, shutdown-drops}

abbrev Data : Type 0
Data = Uuid → Time → Option ℕ

abbrev microseconds : Time → Time
microseconds t = t / 1000 * 1000

abbrev insert_new : Uuid → List (WriterPoint ℕ) → Data → Data
insert_new id ps s k t = or_else (s k t) (if id == k then first_at microseconds ps t else none)

abbrev execute : Bool → Uuid → List (WriterPoint ℕ) → Data → Result ℕ (Result ℕ ℕ × Data)
execute true id ps s = err 1
execute false id ps s = ok (ok (length ps), insert_new id ps s)

abbrev sink : Sink ℕ Data (List (WriterPoint ℕ)) ℕ
sink = record { marshal = λ ps. ok ps; insert = execute; visit = λ b. b }

abbrev stored : Data → Data
stored s = s

works : Reliable sink microseconds stored
works = record {
  marshals = λ ps. (ps, refl);
  inserts = λ ps j id s h. (
    length j,
    insert_new id j s,
    refl,
    λ k t.
        ap (λ l. or_else (s k t) (if id == k then first_at microseconds l t else none))
          (let e : j ≡ ps = ground (arith, h) in e),
  );
  visits = λ b k. refl;
}

abbrev fresh : Writer ℕ Data
fresh = record {
  database = λ k t. none;
  buffer = [];
  total = 0;
  inserted = 0;
  flushes = 0;
  failed_points = 0;
  failed_flushes = 0;
}

fresh-IsValid : IsValid fresh
unfolding IsUnique size
fresh-IsValid = record { unique = tt; count = refl }

abbrev reading : ℕ → ℕ → ℕ → Event ℕ
reading id t v = received (record { timeseries_uuid = id; timestamp = t; value = v })

abbrev events : List (Event ℕ)
events = reading 1 100000 5 ∷ reading 2 100900 6 ∷ tick ∷ reading 1 100800 7 ∷ reading 1 200 8 ∷ []

running : IsRunning events
unfolding IsRunning
running = tt

run-delivers_example :
    stored (step sink 2 tick (run sink 2 events fresh)).database 1 100000
    ≡ or_else
        (view sink microseconds stored works fresh 1 100000)
        (first_at microseconds (received_for 1 events) 100000)
run-delivers_example =
    run-delivers sink microseconds stored works 2 events fresh 1 100000 running fresh-IsValid

run-bounded_example : size (run sink 2 events fresh).buffer < 2
run-bounded_example = run-bounded sink 2 events fresh (omega arith) fresh-IsValid (omega arith)

reading-IsValid : IsValid (step sink 2 (reading 1 100000 5) fresh)
reading-IsValid = step-IsValid sink 2 (reading 1 100000 5) fresh fresh-IsValid

cancels : Cancels sink
cancels = record { refused = λ id j s. (1, refl) }

abbrev holding : Writer ℕ Data
holding = record fresh { buffer = (1, record { value = 5; ts = 100 } ∷ []) ∷ []; total = 1 }

shutdown-drops_example :
    ((run sink 2 (done ∷ []) holding).database ≡ holding.database)
    × ((run sink 2 (done ∷ []) holding).total ≡ 0)
shutdown-drops_example = shutdown-drops sink cancels 2 [] holding
