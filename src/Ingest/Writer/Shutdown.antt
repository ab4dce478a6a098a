-- ===== src/Ingest/Writer/Shutdown.antt =====
-- The last flush of Run, under the cancelled context.
use self_host.Prelude.{
  ◌≡◌, refl, ℕ, true, List, [], ◌∷◌, Result, ok, err, ◌==◌, Bool-cases, inl, inr, arith,
}
use self_host.Policy.Rule.{Uuid}
use self_host.Ingest.Writer.{
  Buffer, WriterPoint, Sink, Writer, Event, done, failed, executed, flush_series, flush_all, flush,
  step, run,
}

-- ExecContext returns an error where its context is cancelled.
pub record Cancels {F S J E : Type 0} (sink : Sink F S J E) : Type 0 where
  pub refused : (id : Uuid) (j : J) (s : S) → (e : E) × (sink.insert true id j s ≡ err e)

module _ {F S J E : Type 0} (sink : Sink F S J E) (law : Cancels sink) where
  series-same :
      (id : Uuid) (ps : List (WriterPoint F)) (r : Result E J) (w : Writer F S)
      (next : Writer F S → Writer F S)
      → (flush_series sink true id ps r w next).database ≡ w.database
  unfolding flush_series executed failed
  series-same id ps (err e) w next = refl
  series-same id ps (ok j) w next = let (e, h) = law.refused id j w.database in rw h refl

  flush_all-same : (b : Buffer F) (w : Writer F S) → (flush_all sink true b w).database ≡ w.database
  unfolding flush_all
  flush_all-same [] w = refl
  flush_all-same ((id, []) ∷ b) w = flush_all-same b w
  flush_all-same ((id, p ∷ ps) ∷ b) w =
      series-same id (p ∷ ps) (sink.marshal (p ∷ ps)) w (flush_all sink true b)

  flush-same : (w : Writer F S) → (flush sink true w).database ≡ w.database
  unfolding flush
  flush-same w = elim (Bool-cases (w.total == 0)) [
    | inl e ↦ rw e refl
    | inr e ↦ rw e (flush_all-same (sink.visit w.buffer) w)
  ]

  flush-empty : (w : Writer F S) → (flush sink true w).total ≡ 0
  unfolding flush
  flush-empty w = ground arith

  -- Where a statement under a cancelled context fails, the flush at shutdown writes nothing, and the points that
  -- were buffered are dropped.
  pub shutdown-drops :
      (batch_size : ℕ) (es : List (Event F)) (w : Writer F S)
      → ((run sink batch_size (done ∷ es) w).database ≡ w.database)
        × ((run sink batch_size (done ∷ es) w).total ≡ 0)
  unfolding run step
  shutdown-drops batch_size es w = (flush-same w, flush-empty w)
