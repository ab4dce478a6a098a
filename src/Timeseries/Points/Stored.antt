-- ===== src/Timeseries/Points/Stored.antt =====
-- What AddDataToTimeseries stores.
use self_host.Prelude.{
  if◌then◌else◌, ℕ, ◌+◌, ◌≡◌, ◌≢◌, refl, sym, ap, subst, ◌∙◌, ◌⊎◌, inl, inr, Option, none, some,
  List, [], ◌∷◌, ◌++◌, length, is_empty, Result, ok, err, arith, Bool-cases, length-append,
  Result-cases, Option-cases,
}
use self_host.Text.{Text, text_eq}
use self_host.Text.Laws.{text_eq_iff}
use self_host.Database.{Conn, Exec, query, lift, pure, continue, ◌>>=◌}
use self_host.Database.Succeeds
use mathlib.Core.List.{append-nil, append_assoc}
use self_host.Policy.Rule.{Uuid}
use self_host.Timeseries.Points.{
  DataPoint, Bounds, PointError, database_error, Values, PointQueries, AddDataToTimeseriesParams,
  find_units, in_unit, filter_points, batches, read, insert_timeseries_batch, conversion,
  from_database, insert_batches, add_data_to_timeseries,
}
use self_host.Timeseries.Points.Batches.{concat, concat-batches}
use self_host.Timeseries.Points.Sifted.{
  Between, no_unit, same_unit, other_unit, Sifted, filter_points-Sifted,
}

-- The rows of the table tsdata, and what an INSERT of points does to them.
pub record InsertLaw {F S E : Type 0} (q : PointQueries F S E) (rows : S → List (DataPoint F))
    : Type 0 where
  pub appends :
      (uuid created_by : Uuid) (points : List (DataPoint F)) (s s' : S) (n : ℕ)
      → q.insert_points uuid created_by points s ≡ ok (n, s')
      → (n ≡ length points) × (rows s' ≡ rows s ++ points)

module _ {F U S E : Type 0} (v : Values F U) (q : PointQueries F S E) where
  inserted :
      (uuid created_by : Uuid) (b : List (DataPoint F)) (c : Conn S) (n : ℕ)
      → (query (insert_timeseries_batch v q uuid created_by b) c).0 ≡ ok n
      → (s' : S) × (q.insert_points uuid created_by b c.committed ≡ ok (n, s'))
        × (query (insert_timeseries_batch v q uuid created_by b) c
            ≡ (ok n, record c { committed = s' }))
  unfolding query insert_timeseries_batch from_database
  inserted uuid created_by b c n h =
      elim (Result-cases (q.insert_points uuid created_by b c.committed)) [
        | inl ((m, s'), e) ↦
            let g : m ≡ n = let k : ok m ≡ ok n = rw e at h in cc k in
            (s', rw g at e, rw e (rw g refl))
        | inr (x, e) ↦ let k : err (database_error x) ≡ ok n = rw e at h in cc k
      ]

module _ {F U S E : Type 0} (v : Values F U) (q : PointQueries F S E)
    (rows : S → List (DataPoint F)) where
  -- What a request that succeeded has stored: its points sifted, behind those there were.
  pub record Outcome (p : AddDataToTimeseriesParams F) (c c' : Conn S) (n : ℕ) : Type 0 where
    pub series : Bounds F
    pub units : Option (U × U)
    pub kept : List (DataPoint F)
    pub series_read : q.get_timeseries_by_uuid c.committed p.uuid ≡ ok series
    pub ts_unit : Text
    pub unit_read : (p.unit ≡ none) ⊎ (q.get_unit_from_timeseries c.committed p.uuid ≡ ok ts_unit)
    pub between : Between v ts_unit p.unit units
    pub sifted : Sifted v series units p.points kept
    pub count : n ≡ length kept
    pub appended : rows c'.committed ≡ rows c.committed ++ kept

module _ {F U S E : Type 0} (v : Values F U) (q : PointQueries F S E)
    (rows : S → List (DataPoint F)) (law : InsertLaw q rows) where
  moved :
      (c : Conn S) (s' : S) (ys zs : List (DataPoint F))
      → rows s' ≡ rows c.committed ++ ys
      → rows s' ++ zs ≡ rows c.committed ++ (ys ++ zs)
  moved c s' ys zs h = ap (λ l. l ++ zs) h ∙ append_assoc (rows c.committed) ys zs

  pub insert_batches-rows :
      (uuid created_by : Uuid) (total : ℕ) (bs : List (List (DataPoint F))) (c : Conn S) (n : ℕ)
      → (insert_batches v q uuid created_by total bs c).0 ≡ ok n
      → (n ≡ total + length (concat bs))
        × (rows (insert_batches v q uuid created_by total bs c).1.committed
            ≡ rows c.committed ++ concat bs)
  unfolding insert_batches concat pure
  insert_batches-rows uuid created_by total [] c n h =
      (ground (arith, h), sym (append-nil (rows c.committed)))
  insert_batches-rows uuid created_by total (b ∷ bs) c n h =
      let (count, e, k) =
        Succeeds.bind-eq-ok (query (insert_timeseries_batch v q uuid created_by b)) _ c h in
      let (s', i, r) = inserted v q uuid created_by b c count e in
      let run : insert_batches v q uuid created_by total (b ∷ bs) c
          ≡ insert_batches v q uuid created_by (total + count) bs (record c { committed = s' }) =
        k ∙ ap (λ x. insert_batches v q uuid created_by (total + count) bs x.1) r in
      let (m, t) =
        insert_batches-rows uuid created_by (total + count) bs (record c { committed = s' }) n
          (rw run at h) in
      let (l, a) = law.appends uuid created_by b c.committed s' count i in
      (
        omega (arith, m, l, length-append b (concat bs)),
        ap (λ x. rows x.1.committed) run ∙ t ∙ moved c s' b (concat bs) a,
      )

  conversion-same : (uuid : Uuid) (o : Option Text) (c : Conn S) → (conversion v q uuid o c).1 ≡ c
  unfolding conversion read pure lift ◌>>=◌ continue
  conversion-same uuid none c = refl
  conversion-same uuid (some unit) c = ground arith

  read_ok :
      {A : Type 0} (f : S → Result E A) (c : Conn S) (a : A)
      → (read v q f c).0 ≡ ok a
      → f c.committed ≡ ok a
  unfolding read from_database
  read_ok f c a h = elim (Result-cases (f c.committed)) [
    | inl (b, e) ↦ let k : ok b ≡ ok a = rw e at h in e ∙ ap ok (cc k)
    | inr (x, e) ↦ let k : err (database_error x) ≡ ok a = rw e at h in cc k
  ]

  Read : Uuid → Option Text → S → Option (U × U) → Type 0
  Read uuid o s units =
      (ts_unit : Text) × ((o ≡ none) ⊎ (q.get_unit_from_timeseries s uuid ≡ ok ts_unit))
      × Between v ts_unit o units

  find_units-Between :
      (unit ts_unit : Text) (units : U × U)
      → unit ≢ ts_unit
      → find_units {E = E} v (v.find_unit unit) ts_unit ≡ ok units
      → Between v ts_unit (some unit) (some units)
  unfolding find_units in_unit
  find_units-Between unit ts_unit units n h = elim (Option-cases (v.find_unit unit)) [
    | inl e ↦ cc (rw e at h)
    | inr (from, e) ↦ elim (Option-cases (v.find_unit ts_unit)) [
      | inl f ↦ cc (rw (e, f) at h)
      | inr (to, f) ↦
          let same : (from, to) ≡ units = cc (rw (e, f) at h) in
          subst (λ u. Between v ts_unit (some unit) (some u)) same (other_unit n e f)
    ]
  ]

  conversion-Read :
      (uuid : Uuid) (o : Option Text) (c : Conn S) (units : Option (U × U))
      → (conversion v q uuid o c).0 ≡ ok units
      → Read uuid o c.committed units
  unfolding conversion read pure lift ◌>>=◌ continue from_database Read
  conversion-Read uuid none c units h =
      let same : none ≡ units = cc h in
      ([], inl refl, subst (λ u. Between v [] none u) same no_unit)
  conversion-Read uuid (some unit) c units h =
      elim (Result-cases (q.get_unit_from_timeseries c.committed uuid)) [
        | inr (x, e) ↦ cc (rw e at h)
        | inl (ts_unit, e) ↦ elim (Bool-cases (text_eq ts_unit unit)) [
          | inl f ↦
              let same : none ≡ units = cc (rw (e, f) at h) in
              (
                ts_unit,
                inr e,
                subst (λ u. Between v ts_unit (some unit) u) same
                    (same_unit (sym ((text_eq_iff ts_unit unit).0 f))),
              )
          | inr f ↦ elim (Result-cases (find_units {E = E} v (v.find_unit unit) ts_unit)) [
            | inr (x, g) ↦ cc (rw (e, f, g) at h)
            | inl (pair, g) ↦
                let same : some pair ≡ units = cc (rw (e, f, g) at h) in
                let differ : unit ≢ ts_unit = λ k. cc (f, (text_eq_iff ts_unit unit).1 (sym k)) in
                (
                  ts_unit,
                  inr e,
                  subst (λ u. Between v ts_unit (some unit) u) same
                      (find_units-Between unit ts_unit pair differ g),
                )
          ]
        ]
      ]

  -- The last step of a request.
  stored : AddDataToTimeseriesParams F → List (DataPoint F) → Exec S (PointError E) ℕ
  stored p kept =
      if is_empty kept
      then pure 0
      else insert_batches v q p.uuid p.created_by 0 (batches (length kept) 0 kept)

  stored_from :
      (p : AddDataToTimeseriesParams F) (kept : List (DataPoint F)) (c : Conn S) (n : ℕ)
      → (stored p kept c).0 ≡ ok n
      → (n ≡ length kept) × (rows (stored p kept c).1.committed ≡ rows c.committed ++ kept)
  unfolding pure stored
  stored_from p [] c n h = (ground (arith, h), sym (append-nil (rows c.committed)))
  stored_from p (k ∷ ks) c n h =
      let (m, e) =
        insert_batches-rows p.uuid p.created_by 0 (batches (length (k ∷ ks)) 0 (k ∷ ks)) c n h in
      let all = concat-batches (k ∷ ks) in
      (m ∙ ap (λ xs. 0 + length xs) all ∙ omega arith, e ∙ ap (λ xs. rows c.committed ++ xs) all)

  -- Where an INSERT that succeeds appends its rows and counts them, AddDataToTimeseries that succeeds has appended the
  -- points of the request in order, without those out of the bounds of the series, and returns their number. Each value is
  -- converted from the unit of the request to that of the series, or stays where the request
  -- names no unit or that of the series.
  pub add_data_to_timeseries-Outcome :
      (p : AddDataToTimeseriesParams F) (c : Conn S) (n : ℕ)
      → (add_data_to_timeseries v q p c).0 ≡ ok n
      → Outcome v q rows p c (add_data_to_timeseries v q p c).1 n
  unfolding add_data_to_timeseries read lift stored Read
  add_data_to_timeseries-Outcome p c n h =
      let (series, e, k) =
        Succeeds.bind-eq-ok (read v q (λ s. q.get_timeseries_by_uuid s p.uuid)) _ c h in
      let (units, u, k2) = Succeeds.bind-eq-ok (conversion v q p.uuid p.unit) _ c (rw k at h) in
      let unit_read = conversion-Read p.uuid p.unit c units u in
      let same = conversion-same p.uuid p.unit c in
      let run2 =
        k
        ∙ k2
        ∙ ap (λ d. (lift (filter_points {E = E} v series units p.points) >>= stored p) d) same in
      let (kept, f, k3) =
        Succeeds.bind-eq-ok (lift (filter_points {E = E} v series units p.points)) (stored p) c
          (rw run2 at h) in
      let run = run2 ∙ k3 in
      let (m, a) = stored_from p kept c n (rw run at h) in
      record {
        series = series;
        units = units;
        kept = kept;
        series_read = read_ok (λ s. q.get_timeseries_by_uuid s p.uuid) c series e;
        ts_unit = unit_read.0;
        unit_read = unit_read.1;
        between = unit_read.2;
        sifted = filter_points-Sifted v series units p.points kept f;
        count = m;
        appended = ap (λ x. rows x.1.committed) run ∙ a;
      }
