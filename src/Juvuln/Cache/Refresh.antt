-- ===== src/Juvuln/Cache/Refresh.antt =====
-- What the cache holds after a refresh.
use self_host.Prelude.{
  ◌≡◌, refl, sym, ap, subst, ◌∙◌, true, false, Option, none, some, List, [], ◌∷◌, map,
  if◌then◌else◌, arith, Bool-cases, Option-cases, inl, inr, ℕ,
}
use self_host.Prelude.Int.{ℤ, pos, negsuc}
use self_host.Text.{Text, text_eq}
use self_host.Text.Laws.{text_eq_iff, text_eq_refl}
use self_host.Text.Map.{TextMap, lookup, delete, lookup-insert, lookup-insert_self, lookup-delete}
use self_host.Juvuln.Cache.{
  ProgramRevision, Runtime, ProgramCache, eq_ℤ, equals, member, without, get_id, routine, start,
  stop, put, replace, add, begin, stop_found, sweep, commit, add_all, refresh,
}

-- The last of the programs with an id, or `o` where there is none.
unfoldable pub last_with :
    {W : Type 0}
    → Runtime W
    → Text
    → Option ProgramRevision
    → List ProgramRevision
    → Option ProgramRevision
last_with r id o [] = o
last_with r id o (p ∷ ps) = last_with r id (if text_eq (get_id r p) id then some p else o) ps

-- The entry under an id is the program asked for, as Equals compares; there is none where none is asked for.
unfoldable pub Agrees : Option ProgramRevision → Option ProgramRevision → Type 0
Agrees none none = Unit
Agrees none (some p) = ⊥
Agrees (some a) none = ⊥
Agrees (some a) (some p) = equals a p ≡ true

eq_ℤ_refl : (a : ℤ) → eq_ℤ a a ≡ true
unfolding eq_ℤ
eq_ℤ_refl (pos a) = ground arith
eq_ℤ_refl (negsuc a) = ground arith

equals_started : (p : ProgramRevision) (e : ℕ) → equals (record p { eid = e }) p ≡ true
unfolding equals
equals_started p e = ground (
  arith,
  text_eq_refl p.domain,
  text_eq_refl p.name,
  text_eq_refl p.type,
  text_eq_refl p.schedule,
  eq_ℤ_refl p.deadline,
  text_eq_refl p.language,
  text_eq_refl p.code,
  text_eq_refl p.checksum,
)

member-without :
    (id k : Text) (ids : List Text)
    → member id (without k ids) ≡ (if text_eq k id then false else member id ids)
unfolding member without
member-without id k [] = ground arith
member-without id k (j ∷ ids) =
    ground (arith, member-without id k ids, text_eq_iff j k, text_eq_iff k id, text_eq_iff j id)

member-keys :
    (id : Text) (m : TextMap ProgramRevision) (p : ProgramRevision)
    → lookup id m ≡ some p
    → member id (map (λ e. e.0) m) ≡ true
unfolding lookup member
member-keys id [] p h = ground (arith, h)
member-keys id ((k, v) ∷ m) p h = elim (Bool-cases (text_eq k id)) [
  | inl e ↦ rw e refl
  | inr e ↦ rw e (member-keys id m p (rw e at h))
]

module _ {W : Type 0} (r : Runtime W) where
  lookup-sweep :
      (ks : List Text) (c : ProgramCache W) (id : Text)
      → lookup id (sweep r ks c).m ≡ (if member id ks then none else lookup id c.m)
  unfolding sweep member
  lookup-sweep [] c id = refl
  lookup-sweep (k ∷ ks) c id =
      lookup-sweep ks (record c { m = delete k c.m; watch = stop_found r (lookup k c.m) c.watch })
        id
      ∙ ground (arith, lookup-delete k id c.m)

  -- During a refresh: an id that has been added is not marked and its entry is the program added last; one that has
  -- not is marked if it has an entry.
  unfoldable pub Tracks : Text → Option ProgramRevision → ProgramCache W → Type 0
  Tracks id none c = (p : ProgramRevision) → lookup id c.m ≡ some p → member id c.deletes ≡ true
  Tracks id (some p) c =
      (a : ProgramRevision) × (lookup id c.m ≡ some a)
      × (equals a p ≡ true)
      × (member id c.deletes ≡ false)

  start-equals : (p : ProgramRevision) (w : W) → equals (start r p w).0 p ≡ true
  unfolding start
  start-equals p w = elim (Bool-cases (text_eq p.type routine)) [
    | inl e ↦ rw e (equals_started p (r.add_func p.schedule p w).0)
    | inr e ↦ rw e (equals_started p p.eid)
  ]

  put_self :
      (p : ProgramRevision) (c : ProgramCache W)
      → member (get_id r p) c.deletes ≡ false
      → Tracks (get_id r p) (some p) (put r p c)
  unfolding put start Tracks
  put_self p c h = (
    (start r p c.watch).0,
    lookup-insert_self (get_id r p) (start r p c.watch).0 c.m,
    start-equals p c.watch,
    h,
  )

  put-other :
      (p : ProgramRevision) (c : ProgramCache W) (id : Text)
      → text_eq (get_id r p) id ≡ false
      → lookup id (put r p c).m ≡ lookup id c.m
  unfolding put
  put-other p c id h = lookup-insert (get_id r p) id _ c.m ∙ rw h refl

  put-deletes : (p : ProgramRevision) (c : ProgramCache W) → (put r p c).deletes ≡ c.deletes
  unfolding put
  put-deletes p c = refl

  replace-deletes :
      (p : ProgramRevision) (o : Option ProgramRevision) (c : ProgramCache W)
      → (replace r p o c).deletes ≡ c.deletes
  unfolding replace put
  replace-deletes p none c = refl
  replace-deletes p (some a) c = elim (Bool-cases (equals a p)) [
    | inl e ↦ rw e refl
    | inr e ↦ rw e refl
  ]

  pub replace-other :
      (p : ProgramRevision) (o : Option ProgramRevision) (c : ProgramCache W) (id : Text)
      → text_eq (get_id r p) id ≡ false
      → lookup id (replace r p o c).m ≡ lookup id c.m
  unfolding replace
  replace-other p none c id h = put-other p c id h
  replace-other p (some a) c id h = elim (Bool-cases (equals a p)) [
    | inl e ↦ rw e refl
    | inr e ↦ rw e (
        put-other p (record c { m = delete (get_id r p) c.m; watch = stop r a c.watch }) id h
        ∙ lookup-delete (get_id r p) id c.m
        ∙ rw h refl)
  ]

  replace_self :
      (p : ProgramRevision) (o : Option ProgramRevision) (c : ProgramCache W)
      → lookup (get_id r p) c.m ≡ o
      → member (get_id r p) c.deletes ≡ false
      → Tracks (get_id r p) (some p) (replace r p o c)
  unfolding replace Tracks
  replace_self p none c l h = put_self p c h
  replace_self p (some a) c l h = elim (Bool-cases (equals a p)) [
    | inl e ↦ rw e (a, l, e, h)
    | inr e ↦
        rw e (put_self p (record c { m = delete (get_id r p) c.m; watch = stop r a c.watch }) h)
  ]

  same-Tracks :
      (id : Text) (o : Option ProgramRevision) (c c' : ProgramCache W)
      → lookup id c'.m ≡ lookup id c.m
      → member id c'.deletes ≡ member id c.deletes
      → Tracks id o c
      → Tracks id o c'
  unfolding Tracks
  same-Tracks id none c c' l d h = λ p e. d ∙ h p (sym l ∙ e)
  same-Tracks id (some p) c c' l d (a, e, f, g) = (a, l ∙ e, f, d ∙ g)

  add-Tracks :
      (p : ProgramRevision) (c : ProgramCache W) (id : Text) (o : Option ProgramRevision)
      → Tracks id o c
      → Tracks id (if text_eq (get_id r p) id then some p else o) (add r p c)
  unfolding add
  add-Tracks p c id o h =
      let unmarked = record c { deletes = without (get_id r p) c.deletes } in
      elim (Bool-cases (text_eq (get_id r p) id)) [
        | inl e ↦ rw e (
            subst (λ x. Tracks x (some p) (add r p c)) ((text_eq_iff (get_id r p) id).0 e)
              (replace_self p (lookup (get_id r p) c.m) unmarked refl
                (member-without (get_id r p) (get_id r p) c.deletes ∙ rw text_eq_refl refl)))
        | inr e ↦ rw e (
            same-Tracks id o c (replace r p (lookup (get_id r p) c.m) unmarked)
              (replace-other p (lookup (get_id r p) c.m) unmarked id e)
              (ap (member id) (replace-deletes p (lookup (get_id r p) c.m) unmarked)
                ∙ member-without id (get_id r p) c.deletes
                ∙ rw e refl)
              h)
      ]

  pub add_all-Tracks :
      (ps : List ProgramRevision) (c : ProgramCache W) (id : Text) (o : Option ProgramRevision)
      → Tracks id o c
      → Tracks id (last_with r id o ps) (add_all r ps c)
  unfolding add_all last_with
  add_all-Tracks [] c id o h = h
  add_all-Tracks (p ∷ ps) c id o h =
      add_all-Tracks ps (add r p c) id (if text_eq (get_id r p) id then some p else o)
        (add-Tracks p c id o h)

  pub begin-Tracks : (c : ProgramCache W) (id : Text) → Tracks id none (begin r c)
  unfolding begin Tracks
  begin-Tracks c id = λ p e. member-keys id c.m p e

  pub commit-Agrees :
      (id : Text) (o : Option ProgramRevision) (c : ProgramCache W)
      → Tracks id o c
      → Agrees (lookup id (commit r c).m) o
  unfolding Tracks Agrees commit
  commit-Agrees id none c h = elim (Option-cases (lookup id c.m)) [
    | inl e ↦
        rw (lookup-sweep c.deletes c id)
          (rw e (elim (Bool-cases (member id c.deletes)) [ inl m ↦ rw m tt | inr m ↦ rw m tt ]))
    | inr (p, e) ↦ rw (lookup-sweep c.deletes c id) (rw (h p e) tt)
  ]
  commit-Agrees id (some p) c (a, e, f, g) = rw (lookup-sweep c.deletes c id) (rw g (rw e f))

  -- After a refresh the cache holds, under the id of every program asked for, the one asked for last, and nothing else.
  pub refresh-Agrees :
      (ps : List ProgramRevision) (c : ProgramCache W) (id : Text)
      → Agrees (lookup id (refresh r ps c).m) (last_with r id none ps)
  unfolding refresh
  refresh-Agrees ps c id =
      commit-Agrees id (last_with r id none ps) (add_all r ps (begin r c))
        (add_all-Tracks ps (begin r c) id none (begin-Tracks c id))

  -- A program that was added is held.
  pub add-held :
      (p : ProgramRevision) (c : ProgramCache W)
      → (a : ProgramRevision) × (lookup (get_id r p) (add r p c).m ≡ some a)
  unfolding add Tracks
  add-held p c =
      let unmarked = record c { deletes = without (get_id r p) c.deletes } in
      let (a, e, f, g) =
        replace_self p (lookup (get_id r p) c.m) unmarked refl
          (member-without (get_id r p) (get_id r p) c.deletes ∙ rw text_eq_refl refl) in
      (a, e)
