-- ===== src/Ingest/Writer.antt =====
-- The Writer of internal/insamlare/writer.go: the loop of Run as a step on the events it receives, and flush.
-- json.Marshal and the INSERT are parameters; so is the order in which Go visits a map.
pub mod Buffers
pub mod Delivers
pub mod Runs
pub mod Shutdown
use self_host.Prelude.{
  ℕ, ◌+◌, Bool, true, false, Option, none, some, List, [], ◌∷◌, ◌++◌, leb, ◌==◌, if◌then◌else◌,
  length, is_empty, Result, ok, err,
}
use self_host.Policy.Rule.{Uuid}
use self_host.Timeseries.Rollups.{Time}

pub record Point (F : Type 0) : Type 0 where
  pub timeseries_uuid : Uuid
  pub timestamp : Time
  pub value : F

pub record WriterPoint (F : Type 0) : Type 0 where
  pub value : F
  pub ts : Time

-- A map from series to points; a key stands once.
abbrev pub Buffer : Type 0 → Type 0
Buffer F = List (Uuid × List (WriterPoint F))

-- `buffer[id] = append(buffer[id], point)`
unfoldable pub append_point : {F : Type 0} → Uuid → WriterPoint F → Buffer F → Buffer F
append_point id p [] = (id, p ∷ []) ∷ []
append_point id p ((k, ps) ∷ b) =
    let rest = append_point id p b in if k == id then (k, ps ++ p ∷ []) ∷ b else (k, ps) ∷ rest

-- `S` is the database, `J` the JSON payload, `E` the errors.
pub record Sink (F S J E : Type 0) : Type 0 where
  pub marshal : List (WriterPoint F) → Result E J
  -- The INSERT, under a context that is cancelled or not; its result is the number of rows that it reports, or the
  -- error in reading it.
  pub insert : Bool → Uuid → J → S → Result E (Result E ℕ × S)
  pub visit : Buffer F → Buffer F

pub record Writer (F S : Type 0) : Type 0 where
  pub database : S
  pub buffer : Buffer F
  pub total : ℕ
  pub inserted : ℕ
  pub flushes : ℕ
  pub failed_points : ℕ
  pub failed_flushes : ℕ

-- What the select statement of Run receives.
pub data Event (F : Type 0) : Type 0 where
  done : Event F
  tick : Event F
  received : Point F → Event F

module _ {F S J E : Type 0} (sink : Sink F S J E) (cancelled : Bool) where
  unfoldable pub failed : List (WriterPoint F) → Writer F S → Writer F S
  failed ps w = record w {
    failed_points = w.failed_points + length ps;
    failed_flushes = w.failed_flushes + 1;
  }

  -- The end of a round that reached the database: go on with the remaining series, or return the error.
  unfoldable pub counted : Writer F S → S → Result E ℕ → (Writer F S → Writer F S) → Writer F S
  counted w s (ok n) next = next (record w { database = s; inserted = w.inserted + n })
  counted w s (err e) next = record w { database = s }

  unfoldable pub executed :
      List (WriterPoint F)
      → Writer F S
      → Result E (Result E ℕ × S)
      → (Writer F S → Writer F S)
      → Writer F S
  executed ps w (ok (r, s)) next = counted w s r next
  executed ps w (err e) next = failed ps w

  unfoldable pub flush_series :
      Uuid → List (WriterPoint F) → Result E J → Writer F S → (Writer F S → Writer F S) → Writer F S
  flush_series id ps (ok j) w next = executed ps w (sink.insert cancelled id j w.database) next
  flush_series id ps (err e) w next = failed ps w

  -- The loop of flush over the series; its error goes to a callback only.
  unfoldable pub flush_all : Buffer F → Writer F S → Writer F S
  flush_all [] w = record w { flushes = w.flushes + 1 }
  flush_all ((id, ps) ∷ rest) w =
      let next = flush_all rest in
      if is_empty ps then next w else flush_series id ps (sink.marshal ps) w next

  -- The closure flush of Run: whatever flush returned, the buffer is cleared.
  unfoldable pub flush : Writer F S → Writer F S
  flush w =
      if w.total == 0
      then w
      else record (flush_all (sink.visit w.buffer) w) { buffer = []; total = 0 }

module _ {F S J E : Type 0} (sink : Sink F S J E) (batch_size : ℕ) where
  unfoldable pub buffered : Point F → Writer F S → Writer F S
  buffered p w = record w {
    buffer = append_point p.timeseries_uuid (record { value = p.value; ts = p.timestamp }) w.buffer;
    total = w.total + 1;
  }

  unfoldable pub receive : Writer F S → Writer F S
  receive w = if leb batch_size w.total then flush sink false w else w

  -- One round of the loop of Run.
  unfoldable pub step : Event F → Writer F S → Writer F S
  step done w = flush sink true w
  step tick w = flush sink false w
  step (received p) w = receive (buffered p w)

  -- Run returns at the first `done`.
  unfoldable pub run : List (Event F) → Writer F S → Writer F S
  run [] w = w
  run (done ∷ es) w = step done w
  run (tick ∷ es) w = run es (step tick w)
  run (received p ∷ es) w = run es (step (received p) w)
