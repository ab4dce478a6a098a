-- ===== src/Timeseries/Query/Bounded.antt =====
-- The answer to a query with limits.
use self_host.Prelude.{
  ℕ, ◌+◌, ◌≡◌, refl, sym, ap, subst, ==_iff, ◌∙◌, false, List, [], ◌∷◌, ◌++◌, ◌==◌, if◌then◌else◌,
  length, ok, arith, Bool-cases, inl, inr,
}
use mathlib.Core.List.{append-nil, append_assoc}
use self_host.Policy.Rule.{Uuid}
use self_host.Timeseries.Query.{
  Limits, exceeds, validate_multi_series_limits, LimitedRow, TsRow, Mapping, with_row, ts_row,
  append_rows, append_raw_multi_source_limited_rows,
}

module _ {F G : Type 0} (float32 : F → G) (p : Limits) where
  -- The rows of a series, in order.
  unfoldable pub rows_of : Uuid → List (LimitedRow F) → List (TsRow G)
  rows_of k [] = []
  rows_of k (item ∷ rows) =
      let rest = rows_of k rows in if item.ts_uuid == k then ts_row float32 p item ∷ rest else rest

  unfoldable pub IsWithin : Mapping G → Type 0
  IsWithin mapping = (k : Uuid) → exceeds p.max_points_per_series (length (mapping k)) ≡ false

  with_row-rows_of :
      (mapping : Mapping G) (item : LimitedRow F) (rows : List (LimitedRow F)) (k : Uuid)
      → with_row mapping item.ts_uuid (ts_row float32 p item) k ++ rows_of k rows
        ≡ mapping k ++ rows_of k (item ∷ rows)
  unfolding with_row rows_of
  with_row-rows_of mapping item rows k = elim (Bool-cases (item.ts_uuid == k)) [
    | inl e ↦ simp e (append_assoc (mapping k) (ts_row float32 p item ∷ []) (rows_of k rows))
    | inr e ↦ simp e refl
  ]

  row_accepted :
      (mapping : Mapping G) (total : ℕ) (item : LimitedRow F) (rows : List (LimitedRow F))
      (m : Mapping G)
      → append_rows float32 p mapping total (item ∷ rows) ≡ ok m
      → (append_rows float32 p
            (with_row mapping item.ts_uuid (ts_row float32 p item))
            (total + 1)
            rows
          ≡ ok m)
        × (exceeds p.max_points_per_series
              (length (with_row mapping item.ts_uuid (ts_row float32 p item) item.ts_uuid))
            ≡ false)
        × (exceeds p.max_total_points (total + 1) ≡ false)
  unfolding append_rows validate_multi_series_limits
  row_accepted mapping total item rows m h = ground (arith, h)

  append_rows-rows_of :
      (rows : List (LimitedRow F)) (mapping : Mapping G) (total : ℕ) (m : Mapping G) (k : Uuid)
      → append_rows float32 p mapping total rows ≡ ok m
      → m k ≡ mapping k ++ rows_of k rows
  unfolding append_rows rows_of
  append_rows-rows_of [] mapping total m k h =
      let e : mapping ≡ m = cc h in ap (λ f. f k) (sym e) ∙ sym (append-nil (mapping k))
  append_rows-rows_of (item ∷ rows) mapping total m k h =
      let (e, _, _) = row_accepted mapping total item rows m h in
      append_rows-rows_of rows (with_row mapping item.ts_uuid (ts_row float32 p item)) (total + 1) m
        k e
      ∙ with_row-rows_of mapping item rows k

  other_row :
      (mapping : Mapping G) (item : LimitedRow F) (k : Uuid)
      → (item.ts_uuid == k) ≡ false
      → exceeds p.max_points_per_series (length (mapping k)) ≡ false
      → exceeds p.max_points_per_series
          (length (with_row mapping item.ts_uuid (ts_row float32 p item) k))
        ≡ false
  unfolding with_row
  other_row mapping item k e h = simp e h

  with_row-IsWithin :
      (mapping : Mapping G) (item : LimitedRow F)
      → IsWithin mapping
      → exceeds p.max_points_per_series
          (length (with_row mapping item.ts_uuid (ts_row float32 p item) item.ts_uuid))
        ≡ false
      → IsWithin (with_row mapping item.ts_uuid (ts_row float32 p item))
  unfolding IsWithin
  with_row-IsWithin mapping item w h = λ k. elim (Bool-cases (item.ts_uuid == k)) [
    | inl e ↦
        let f : item.ts_uuid ≡ k = (==_iff item.ts_uuid k).0 e in
        subst
          (λ x.
            exceeds p.max_points_per_series
              (length (with_row mapping item.ts_uuid (ts_row float32 p item) x))
            ≡ false)
          f h
    | inr e ↦ other_row mapping item k e (w k)
  ]

  append_rows-IsWithin :
      (rows : List (LimitedRow F)) (mapping : Mapping G) (total : ℕ) (m : Mapping G)
      → append_rows float32 p mapping total rows ≡ ok m
      → IsWithin mapping
      → IsWithin m
  unfolding append_rows IsWithin
  append_rows-IsWithin [] mapping total m h w = let e : mapping ≡ m = cc h in subst IsWithin e w
  append_rows-IsWithin (item ∷ rows) mapping total m h w =
      let (e, s, _) = row_accepted mapping total item rows m h in
      append_rows-IsWithin rows (with_row mapping item.ts_uuid (ts_row float32 p item)) (total + 1)
        m e (with_row-IsWithin mapping item w s)

  append_rows-total :
      (rows : List (LimitedRow F)) (mapping : Mapping G) (total : ℕ) (m : Mapping G)
      → append_rows float32 p mapping total rows ≡ ok m
      → exceeds p.max_total_points total ≡ false
      → exceeds p.max_total_points (total + length rows) ≡ false
  unfolding append_rows
  append_rows-total [] mapping total m h t =
      let e : total + 0 ≡ total = omega arith in ap (exceeds p.max_total_points) e ∙ t
  append_rows-total (item ∷ rows) mapping total m h t =
      let (e, _, s) = row_accepted mapping total item rows m h in
      let n : total + length (item ∷ rows) ≡ total + 1 + length rows = omega arith in
      ap (exceeds p.max_total_points) n
      ∙ append_rows-total rows (with_row mapping item.ts_uuid (ts_row float32 p item)) (total + 1) m
          e s

  no_rows : (limit : ℕ) → exceeds limit 0 ≡ false
  unfolding exceeds
  no_rows limit = ground arith

  -- Where the loop over the rows that GetTsDataRangeLimited answers succeeds, it holds under each series the series' rows in
  -- the order read, and neither the rows of a series nor all rows exceed the limits that are given.
  pub limited_rows-bounded :
      (rows : List (LimitedRow F)) (m : Mapping G)
      → append_raw_multi_source_limited_rows float32 p (λ k. []) rows ≡ ok m
      → ((k : Uuid) → m k ≡ rows_of k rows)
        × IsWithin m
        × (exceeds p.max_total_points (length rows) ≡ false)
  unfolding append_raw_multi_source_limited_rows IsWithin
  limited_rows-bounded rows m h =
      let zero_left : 0 + length rows ≡ length rows = omega arith in
      (
        λ k. append_rows-rows_of rows (λ j. []) 0 m k h,
        append_rows-IsWithin rows (λ j. []) 0 m h (λ k. no_rows p.max_points_per_series),
        ap (exceeds p.max_total_points) (sym zero_left)
            ∙ append_rows-total rows (λ j. []) 0 m h (no_rows p.max_total_points),
      )
