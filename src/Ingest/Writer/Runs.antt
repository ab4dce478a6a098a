-- ===== src/Ingest/Writer/Runs.antt =====
-- Whole runs of the Writer: what they deliver and how much they buffer.
use self_host.Prelude.{
  ℕ, ◌≤◌, ◌<◌, ◌≡◌, refl, sym, ap, subst, ◌∙◌, false, Option, List, [], ◌∷◌, leb, arith, Bool-cases,
  inl, inr,
}
use self_host.Policy.Rule.{Uuid}
use self_host.Timeseries.Rollups.{Time}
use self_host.Ingest.Writer.{
  Point, WriterPoint, Sink, Writer, Event, done, tick, received, flush, buffered, receive, step,
  run,
}
use self_host.Ingest.Writer.Buffers.{
  or_else, or_else_assoc, or_else-none, first_at, first_at-append, points_of,
  points_of-append_point, only, received_for, size,
}
use self_host.Ingest.Writer.Delivers.{
  Reliable, view, IsValid, flush-written, flush-view, flush-IsValid, buffered-IsValid,
  receive-IsValid, step-IsValid,
}

-- No event is `done`.
unfoldable pub IsRunning : {F : Type 0} → List (Event F) → Type 0
IsRunning [] = Unit
IsRunning (done ∷ es) = ⊥
IsRunning (tick ∷ es) = IsRunning es
IsRunning (received p ∷ es) = IsRunning es

module _ {F S J E : Type 0} (sink : Sink F S J E) (batch_size : ℕ) where
  run-IsValid :
      (es : List (Event F)) (w : Writer F S) → IsValid w → IsValid (run sink batch_size es w)
  unfolding run
  run-IsValid [] w v = v
  run-IsValid (done ∷ es) w v = step-IsValid sink batch_size done w v
  run-IsValid (tick ∷ es) w v =
      run-IsValid es (step sink batch_size tick w) (step-IsValid sink batch_size tick w v)
  run-IsValid (received p ∷ es) w v =
      run-IsValid es (step sink batch_size (received p) w)
        (step-IsValid sink batch_size (received p) w v)

module _ {F S J E : Type 0} (sink : Sink F S J E) (column : Time → Time)
    (stored : S → Uuid → Time → Option F) (reliable : Reliable sink column stored)
    (batch_size : ℕ) where
  point : Point F → WriterPoint F
  point p = record { value = p.value; ts = p.timestamp }

  buffered-view :
      (p : Point F) (w : Writer F S) (k : Uuid) (t : Time)
      → IsValid w
      → view sink column stored reliable (buffered sink batch_size p w) k t
        ≡ or_else
            (view sink column stored reliable w k t)
            (first_at column (only p.timeseries_uuid k (point p)) t)
  unfolding buffered view point
  buffered-view p w k t v =
      ap (λ ps. or_else (stored w.database k t) (first_at column ps t))
        (points_of-append_point p.timeseries_uuid k (point p) w.buffer v.unique)
      ∙ ap (or_else (stored w.database k t))
          (first_at-append column (points_of k w.buffer) (only p.timeseries_uuid k (point p)) t)
      ∙ sym (
          or_else_assoc (stored w.database k t) (first_at column (points_of k w.buffer) t)
            (first_at column (only p.timeseries_uuid k (point p)) t))

  receive-view :
      (w : Writer F S) (k : Uuid) (t : Time)
      → view sink column stored reliable (receive sink batch_size w) k t
        ≡ view sink column stored reliable w k t
  unfolding receive
  receive-view w k t = elim (Bool-cases (leb batch_size w.total)) [
    | inl e ↦ rw e (flush-view sink column stored reliable w k t)
    | inr e ↦ rw e refl
  ]

  received_for-received :
      (o : Option F) (k : Uuid) (p : Point F) (es : List (Event F)) (t : Time)
      → or_else
          (or_else o (first_at column (only p.timeseries_uuid k (point p)) t))
          (first_at column (received_for k es) t)
        ≡ or_else o (first_at column (received_for k (received p ∷ es)) t)
  unfolding received_for only first_at or_else point
  received_for-received o k p es t = ground arith

  run-view :
      (es : List (Event F)) (w : Writer F S) (k : Uuid) (t : Time)
      → IsRunning es
      → IsValid w
      → view sink column stored reliable (run sink batch_size es w) k t
        ≡ or_else (view sink column stored reliable w k t) (first_at column (received_for k es) t)
  unfolding run step IsRunning received_for first_at
  run-view [] w k t r v = sym (or_else-none _)
  run-view (done ∷ es) w k t r v = elim r [ ]
  run-view (tick ∷ es) w k t r v =
      run-view es (flush sink false w) k t r (flush-IsValid sink false w v)
      ∙ ap (λ o. or_else o (first_at column (received_for k es) t))
          (flush-view sink column stored reliable w k t)
  run-view (received p ∷ es) w k t r v =
      run-view es (receive sink batch_size (buffered sink batch_size p w)) k t r (
        receive-IsValid sink batch_size (buffered sink batch_size p w)
          (buffered-IsValid sink batch_size p w v))
      ∙ ap (λ o. or_else o (first_at column (received_for k es) t))
          (receive-view (buffered sink batch_size p w) k t ∙ buffered-view p w k t v)
      ∙ received_for-received (view sink column stored reliable w k t) k p es t

  -- Where all statements succeed and the INSERT keeps of each time what its column keeps, after a run that was not
  -- cancelled and a last tick, begun with a buffer that is a map with the right count, the database holds under each
  -- time of a series what it held or was to hold before, or else the first point received that the column holds under it.
  pub run-delivers :
      (es : List (Event F)) (w : Writer F S) (k : Uuid) (t : Time)
      → IsRunning es
      → IsValid w
      → stored (step sink batch_size tick (run sink batch_size es w)).database k t
        ≡ or_else (view sink column stored reliable w k t) (first_at column (received_for k es) t)
  unfolding step
  run-delivers es w k t r v =
      flush-written sink column stored reliable (run sink batch_size es w) k t
        (run-IsValid sink batch_size es w v).count
      ∙ run-view es w k t r v

module _ {F S J E : Type 0} (sink : Sink F S J E) (batch_size : ℕ) where
  step-total :
      (e : Event F) (w : Writer F S)
      → 1 ≤ batch_size
      → w.total < batch_size
      → (step sink batch_size e w).total < batch_size
  unfolding step flush receive buffered
  step-total e w h l = ground arith

  total_below :
      (es : List (Event F)) (w : Writer F S)
      → 1 ≤ batch_size
      → w.total < batch_size
      → (run sink batch_size es w).total < batch_size
  unfolding run
  total_below [] w h l = l
  total_below (done ∷ es) w h l = step-total done w h l
  total_below (tick ∷ es) w h l =
      total_below es (step sink batch_size tick w) h (step-total tick w h l)
  total_below (received p ∷ es) w h l =
      total_below es (step sink batch_size (received p) w) h (step-total (received p) w h l)

  -- After every round of a run begun with a buffer that is a map with the right count and less than a batch, whether or
  -- not statements fail, the buffer holds less than a batch of points, where the batch size is positive.
  pub run-bounded :
      (es : List (Event F)) (w : Writer F S)
      → 1 ≤ batch_size
      → IsValid w
      → w.total < batch_size
      → size (run sink batch_size es w).buffer < batch_size
  run-bounded es w h v l =
      subst (λ n. n < batch_size) (run-IsValid sink batch_size es w v).count (total_below es w h l)
