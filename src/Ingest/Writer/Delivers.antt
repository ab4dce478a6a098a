-- ===== src/Ingest/Writer/Delivers.antt =====
-- What the Writer stores while its statements succeed.
use self_host.Prelude.{
  ℕ, ◌+◌, ◌≡◌, refl, sym, ap, ◌∙◌, Bool, true, false, Option, none, List, [], ◌∷◌, ◌++◌, ◌==◌,
  if◌then◌else◌, ok, arith, leb, Bool-cases, inl, inr,
}
use self_host.Policy.Rule.{Uuid}
use self_host.Timeseries.Rollups.{Time}
use self_host.Ingest.Writer.{
  Point, WriterPoint, Buffer, Sink, Writer, Event, done, tick, received, counted, executed,
  flush_series, flush_all, flush, buffered, receive, step,
}
use self_host.Ingest.Writer.Buffers.{
  or_else, or_else_assoc, or_else-none, same_branch, first_at, first_at-append, points_of, IsUnique,
  append_point-IsUnique, size, size-append_point, size_zero,
}

-- Statements that succeed: json.Marshal encodes the points, the INSERT stores each point whose series has none at
-- what the column keeps of its time, as whole microseconds of a TIMESTAMPTZ, and the visit of a map meets every entry once.
pub record Reliable {F S J E : Type 0} (sink : Sink F S J E) (column : Time → Time)
    (stored : S → Uuid → Time → Option F) : Type 0 where
  pub marshals : (ps : List (WriterPoint F)) → (j : J) × (sink.marshal ps ≡ ok j)
  pub inserts :
      (ps : List (WriterPoint F)) (j : J) (id : Uuid) (s : S)
      → sink.marshal ps ≡ ok j
      → (n : ℕ) × (s' : S) × (sink.insert false id j s ≡ ok (ok n, s'))
        × ((k : Uuid) (t : Time)
            → stored s' k t
              ≡ or_else (stored s k t) (if id == k then first_at column ps t else none))
  pub visits : (b : Buffer F) (k : Uuid) → points_of k (sink.visit b) ≡ points_of k b

module _ {F S J E : Type 0} (sink : Sink F S J E) (column : Time → Time)
    (stored : S → Uuid → Time → Option F) (reliable : Reliable sink column stored) where
  series_run :
      (id : Uuid) (p : WriterPoint F) (ps : List (WriterPoint F)) (b : Buffer F) (w : Writer F S)
      → (n : ℕ) × (s' : S) × (flush_all sink false ((id, p ∷ ps) ∷ b) w
          ≡ flush_all sink false b (record w { database = s'; inserted = w.inserted + n }))
        × ((k : Uuid) (t : Time)
            → stored s' k t
              ≡ or_else
                  (stored w.database k t)
                  (if id == k then first_at column (p ∷ ps) t else none))
  unfolding flush_all flush_series executed counted
  series_run id p ps b w =
      let (j, m) = reliable.marshals (p ∷ ps) in
      let (n, s', i, l) = reliable.inserts (p ∷ ps) j id w.database m in
      (n, s', rw m (rw i refl), l)

  combined :
      (o : Option F) (c : Bool) (ps rest : List (WriterPoint F)) (t : Time)
      → or_else (or_else o (if c then first_at column ps t else none)) (first_at column rest t)
        ≡ or_else o (first_at column (if c then ps ++ rest else rest) t)
  unfolding or_else
  combined o true ps rest t =
      or_else_assoc o (first_at column ps t) (first_at column rest t)
      ∙ ap (or_else o) (sym (first_at-append column ps rest t))
  combined o false ps rest t = or_else_assoc o none (first_at column rest t)

  flush_all-stored :
      (b : Buffer F) (w : Writer F S) (k : Uuid) (t : Time)
      → stored (flush_all sink false b w).database k t
        ≡ or_else (stored w.database k t) (first_at column (points_of k b) t)
  unfolding flush_all points_of first_at
  flush_all-stored [] w k t = sym (or_else-none (stored w.database k t))
  flush_all-stored ((id, []) ∷ b) w k t =
      flush_all-stored b w k t
      ∙ ap (λ ps. or_else (stored w.database k t) (first_at column ps t))
          (same_branch (id == k) (points_of k b))
  flush_all-stored ((id, p ∷ ps) ∷ b) w k t =
      let (n, s', e, l) = series_run id p ps b w in
      ap (λ x. stored x.database k t) e
      ∙ flush_all-stored b (record w { database = s'; inserted = w.inserted + n }) k t
      ∙ ap (λ o. or_else o (first_at column (points_of k b) t)) (l k t)
      ∙ combined (stored w.database k t) (id == k) (p ∷ ps) (points_of k b) t

  -- What the database will hold once the buffer is written.
  unfoldable pub view : Writer F S → Uuid → Time → Option F
  view w k t = or_else (stored w.database k t) (first_at column (points_of k w.buffer) t)

  not_zero-written :
      (w : Writer F S) (k : Uuid) (t : Time)
      → stored (flush_all sink false (sink.visit w.buffer) w).database k t ≡ view w k t
  unfolding view
  not_zero-written w k t =
      flush_all-stored (sink.visit w.buffer) w k t
      ∙ ap (λ ps. or_else (stored w.database k t) (first_at column ps t))
          (reliable.visits w.buffer k)

  -- A flush writes the buffer.
  pub flush-written :
      (w : Writer F S) (k : Uuid) (t : Time)
      → w.total ≡ size w.buffer
      → stored (flush sink false w).database k t ≡ view w k t
  unfolding flush view first_at
  flush-written w k t h = elim (Bool-cases (w.total == 0)) [
    | inl e ↦ rw e (
        sym (
          ap (λ ps. or_else (stored w.database k t) (first_at column ps t))
            (size_zero k w.buffer (ground (arith, h, e)))
          ∙ or_else-none (stored w.database k t)))
    | inr e ↦ rw e (not_zero-written w k t)
  ]

  pub flush-view :
      (w : Writer F S) (k : Uuid) (t : Time) → view (flush sink false w) k t ≡ view w k t
  unfolding flush view first_at points_of
  flush-view w k t = elim (Bool-cases (w.total == 0)) [
    | inl e ↦ rw e refl
    | inr e ↦ rw e (or_else-none _ ∙ not_zero-written w k t)
  ]

-- The buffer is a map, and `total` counts its points.
pub record IsValid {F S : Type 0} (w : Writer F S) : Type 0 where
  pub unique : IsUnique w.buffer
  pub count : w.total ≡ size w.buffer

module _ {F S J E : Type 0} (sink : Sink F S J E) where
  pub flush-IsValid : (c : Bool) (w : Writer F S) → IsValid w → IsValid (flush sink c w)
  unfolding flush IsUnique size
  flush-IsValid c w v = elim (Bool-cases (w.total == 0)) [
    | inl e ↦ rw e v
    | inr e ↦ rw e (record { unique = tt; count = refl })
  ]

  pub buffered-IsValid :
      (n : ℕ) (p : Point F) (w : Writer F S) → IsValid w → IsValid (buffered sink n p w)
  unfolding buffered
  buffered-IsValid n p w v = record {
    unique =
        append_point-IsUnique p.timeseries_uuid (record { value = p.value; ts = p.timestamp })
          w.buffer v.unique;
    count = omega (
      arith,
      v.count,
      size-append_point p.timeseries_uuid (record { value = p.value; ts = p.timestamp }) w.buffer,
    );
  }

  pub receive-IsValid : (n : ℕ) (w : Writer F S) → IsValid w → IsValid (receive sink n w)
  unfolding receive
  receive-IsValid n w v = elim (Bool-cases (leb n w.total)) [
    | inl e ↦ rw e (flush-IsValid false w v)
    | inr e ↦ rw e v
  ]

  -- Each round of Run keeps the buffer a map and its count right, also where a flush fails.
  pub step-IsValid : (n : ℕ) (e : Event F) (w : Writer F S) → IsValid w → IsValid (step sink n e w)
  unfolding step
  step-IsValid n done w v = flush-IsValid true w v
  step-IsValid n tick w v = flush-IsValid false w v
  step-IsValid n (received p) w v =
      receive-IsValid n (buffered sink n p w) (buffered-IsValid n p w v)
