-- ===== src/Juvuln/Cache/Update.antt =====
-- UpdateProgramCache over all databases.
use self_host.Prelude.{
  ◌≡◌, refl, sym, ap, ◌∙◌, subst, Bool-cases, inl, inr, Bool, true, false, Option, none, some, List,
  [], ◌∷◌, ◌++◌, map, Result, ok, err,
}
use self_host.Text.{Text, text_eq}
use self_host.Text.Laws.{text_eq_iff}
use self_host.Text.Map.{lookup}
use self_host.Juvuln.Cache.{
  ProgramRevision, Runtime, ProgramCache, get_id, without, add, begin, add_all, refresh, DomainDb,
  RoutineRow, new_program_revision, load_answer, load, finish, update_program_cache,
}
use self_host.Juvuln.Cache.Refresh.{Agrees, last_with, refresh-Agrees, add-held, replace-other}

unfoldable pub Answers : {E : Type 0} → Option (Result E (List RoutineRow)) → Type 0
Answers none = Unit
Answers (some (ok rows)) = Unit
Answers (some (err e)) = ⊥

-- Every database that there is answered.
unfoldable pub Answered : {E : Type 0} → List (DomainDb E) → Type 0
Answered [] = Unit
Answered (d ∷ ds) = Answers d.routines × Answered ds

unfoldable pub programs_of :
    {E : Type 0} → Text → Option (Result E (List RoutineRow)) → List ProgramRevision
programs_of domain none = []
programs_of domain (some (err e)) = []
programs_of domain (some (ok rows)) = map (new_program_revision domain) rows

-- All programs of all databases, in order.
unfoldable pub programs : {E : Type 0} → List (DomainDb E) → List ProgramRevision
programs [] = []
programs (d ∷ ds) = programs_of d.domain d.routines ++ programs ds

module _ {W : Type 0} (r : Runtime W) where
  add_all-append :
      (ps qs : List ProgramRevision) (c : ProgramCache W)
      → add_all r (ps ++ qs) c ≡ add_all r qs (add_all r ps c)
  unfolding add_all
  add_all-append [] qs c = refl
  add_all-append (p ∷ ps) qs c = add_all-append ps qs (add r p c)

module _ {W E : Type 0} (r : Runtime W) where
  answer_run :
      (domain : Text) (o : Option (Result E (List RoutineRow)))
      (next : ProgramCache W → Bool × ProgramCache W) (c : ProgramCache W)
      → Answers o
      → load_answer r domain o next c ≡ next (add_all r (programs_of domain o) c)
  unfolding load_answer Answers programs_of add_all
  answer_run domain none next c h = refl
  answer_run domain (some (ok rows)) next c h = refl
  answer_run domain (some (err e)) next c h = elim h [ ]

  load-add_all :
      (ds : List (DomainDb E)) (c : ProgramCache W)
      → Answered ds
      → load r ds c ≡ (true, add_all r (programs ds) c)
  unfolding load Answered programs add_all
  load-add_all [] c h = refl
  load-add_all (d ∷ ds) c (a, h) =
      answer_run d.domain d.routines (load r ds) c a
      ∙ load-add_all ds (add_all r (programs_of d.domain d.routines) c) h
      ∙ ap (λ x. (true, x))
          (sym (add_all-append r (programs_of d.domain d.routines) (programs ds) c))

  update_run :
      (ds : List (DomainDb E)) (c : ProgramCache W)
      → Answered ds
      → update_program_cache r ds c ≡ refresh r (programs ds) c
  unfolding update_program_cache finish refresh
  update_run ds c h = ap (finish r) (load-add_all ds (begin r c) h)

  -- Where every database answers, the cache holds after UpdateProgramCache, under each id, the last program of the
  -- databases with that id, as Equals compares, and no entry under any other id.
  pub update_program_cache-Agrees :
      (ds : List (DomainDb E)) (c : ProgramCache W) (id : Text)
      → Answered ds
      → Agrees (lookup id (update_program_cache r ds c).m) (last_with r id none (programs ds))
  update_program_cache-Agrees ds c id h =
      rw (update_run ds c h) (refresh-Agrees r (programs ds) c id)

module _ {W : Type 0} (r : Runtime W) where
  unfoldable pub Cached : Text → ProgramCache W → Type 0
  Cached id c = (a : ProgramRevision) × (lookup id c.m ≡ some a)

  add-Cached :
      (p : ProgramRevision) (c : ProgramCache W) (id : Text) → Cached id c → Cached id (add r p c)
  unfolding Cached add
  add-Cached p c id (a, e) = elim (Bool-cases (text_eq (get_id r p) id)) [
    | inl h ↦
        let (b, f) = add-held r p c in
        (b, subst (λ x. lookup x (add r p c).m ≡ some b) ((text_eq_iff (get_id r p) id).0 h) f)
    | inr h ↦ (
      a,
      replace-other r p (lookup (get_id r p) c.m)
            (record c { deletes = without (get_id r p) c.deletes }) id h
          ∙ e,
    )
  ]

  add_all-Cached :
      (ps : List ProgramRevision) (c : ProgramCache W) (id : Text)
      → Cached id c
      → Cached id (add_all r ps c)
  unfolding add_all
  add_all-Cached [] c id h = h
  add_all-Cached (p ∷ ps) c id h = add_all-Cached ps (add r p c) id (add-Cached p c id h)

  finish_stopped : (x : Bool × ProgramCache W) → x.0 ≡ false → finish r x ≡ x.1
  unfolding finish
  finish_stopped (true, c) h = cc h
  finish_stopped (false, c) h = refl

module _ {W E : Type 0} (r : Runtime W) where
  answer-Cached :
      (domain : Text) (o : Option (Result E (List RoutineRow)))
      (next : ProgramCache W → Bool × ProgramCache W) (c : ProgramCache W) (id : Text)
      → ((d : ProgramCache W) → Cached r id d → Cached r id (next d).1)
      → Cached r id c
      → Cached r id (load_answer r domain o next c).1
  unfolding load_answer
  answer-Cached domain none next c id k h = k c h
  answer-Cached domain (some (err e)) next c id k h = h
  answer-Cached domain (some (ok rows)) next c id k h =
      k (add_all r (map (new_program_revision domain) rows) c)
        (add_all-Cached r (map (new_program_revision domain) rows) c id h)

  load-Cached :
      (ds : List (DomainDb E)) (c : ProgramCache W) (id : Text)
      → Cached r id c
      → Cached r id (load r ds c).1
  unfolding load
  load-Cached [] c id h = h
  load-Cached (d ∷ ds) c id h =
      answer-Cached d.domain d.routines (load r ds) c id (λ e k. load-Cached ds e id k) h

  -- Where a database fails, UpdateProgramCache removes no entry.
  pub update_program_cache-Cached :
      (ds : List (DomainDb E)) (c : ProgramCache W) (id : Text)
      → (load r ds (begin r c)).0 ≡ false
      → Cached r id c
      → Cached r id (update_program_cache r ds c)
  unfolding update_program_cache begin Cached
  update_program_cache-Cached ds c id h (a, e) =
      let (b, f) = load-Cached ds (begin r c) id (a, e) in
      (b, ap (λ x. lookup id x.m) (finish_stopped r (load r ds (begin r c)) h) ∙ f)
