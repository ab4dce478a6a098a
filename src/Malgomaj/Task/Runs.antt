-- ===== src/Malgomaj/Task/Runs.antt =====
-- Which program a task runs.
use self_host.Prelude.{
  ◌≡◌, ◌≢◌, ◌⊎◌, subst, ◌*◌, ◌++◌, ◌∷◌, ◌+◌, [], inl, inr, refl, Option, none, some, ok, err,
  Option-cases, Bool-cases, ℕ, Result,
}
use self_host.Text.{Text, codes, text_eq}
use self_host.Text.Map.{TextMap, lookup, insert, delete, lookup-insert_self}
use self_host.Text.Laws.{text_eq_iff}
use self_host.Errors.{Error}
use self_host.Malgomaj.Cache.{
  Program, idle, ProgramCacheItem, ProgramCache, program_cache_get, program_cache_add, start, stop,
  stop_at, Reach,
}
use self_host.Malgomaj.Cache.Reachable.{IsValid, Reach-IsValid, write_self}
use self_host.Malgomaj.Task.{
  CompileError, NewTaskHttp, NewTask, get_id, new_program, Tengo, TaskAnswer, failed, answer,
  run_item, run_cached, run_added, compiled, created, found_or_created, create_task,
}

-- The program of the task's id that the cache holds.
unfoldable pub Cached : NewTask → ProgramCache → Program → Type 0
Cached t c p =
    (i : ℕ) × (item : ProgramCacheItem) × (lookup (get_id t) c.m ≡ some i)
    × (c.items i ≡ some item)
    × (item.program ≡ p)

-- The program of a task
unfoldable pub OwnProgram : NewTask → Program → Type 0
OwnProgram t p =
    (t.language ≡ codes "tengo")
    × (p.id ≡ get_id t)
    × (p.deadline ≡ t.deadline * 1_000_000)
    × (p.source_code ≡ t.source_code)

-- Why a task is refused: the language is another one, or its own program does not compile.
unfoldable pub Refused : Tengo → NewTask → Type 0
Refused tengo t =
    (t.language ≢ codes "tengo")
    ⊎ ((p : Program) × (e : CompileError) × OwnProgram t p × (tengo.compile p ≡ some e))

-- The program made of the task, which compiles and is in the cache afterwards.
unfoldable pub Added :
    Tengo → NewTask → ProgramCache → ProgramCache → ProgramCache → Program → Type 0
Added tengo t c later d p =
    (lookup (get_id t) c.m ≡ none)
    × OwnProgram t p
    × (tengo.compile p ≡ none)
    × (d ≡ (program_cache_add p later).0)
    × Cached t d p

-- Nothing is run and the cache stays, or the cached program of the task's id is run, or its own.
pub data Ran (tengo : Tengo) (t : NewTask) (c later : ProgramCache)
    : TaskAnswer × ProgramCache → Type 0 where
  refused :
      {a : TaskAnswer}
      → lookup (get_id t) c.m ≡ none
      → a.executed ≡ none
      → Refused tengo t
      → Ran tengo t c later (a, later)
  of_cached :
      {a : TaskAnswer} {p : Program}
      → a.executed ≡ some p
      → Cached t c p
      → p.id ≡ get_id t
      → Ran tengo t c later (a, c)
  of_task :
      {a : TaskAnswer} {d : ProgramCache} {p : Program}
      → a.executed ≡ some p
      → Added tengo t c later d p
      → p.id ≡ get_id t
      → Ran tengo t c later (a, d)

unfoldable program_of : NewTask → Program
program_of t = record {
  id = t.domain ++ (47 ∷ t.program_uuid);
  deadline = t.deadline * 1_000_000;
  source_code = t.source_code;
}

answer-executed :
    (headers : TextMap Text) (p : Program) (o : Option Error)
    → (answer headers p o).executed ≡ some p
unfolding answer
answer-executed headers p none = refl
answer-executed headers p (some e) = refl

module _ (tengo : Tengo) (t : NewTask) where
  run_item-executed :
      (h : Option NewTaskHttp) (headers : TextMap Text) (p : Program)
      → (run_item tengo h headers p).executed ≡ some p
  unfolding run_item
  run_item-executed none headers p = answer-executed headers p (tengo.run p)
  run_item-executed (some h) headers p =
      answer-executed (insert (codes "Content-Type") (codes "text/plain; charset=utf-8") headers) p
        (tengo.run_with_http h p)

  run_cached-executed :
      (o : Option ProgramCacheItem) (item : ProgramCacheItem)
      → o ≡ some item
      → (run_cached tengo t o).executed ≡ some item.program
  unfolding run_cached
  run_cached-executed o item e = rw e (
      run_item-executed t.http (insert (codes "X-Expires") (tengo.format_expires item.expires) [])
        item.program)

  new_program-OwnProgram : (p : Program) → new_program t ≡ ok p → OwnProgram t p
  unfolding new_program get_id OwnProgram
  new_program-OwnProgram p h = elim (Bool-cases (text_eq t.language (codes "tengo"))) [
    | inr e ↦ cc (rw e at h)
    | inl e ↦
        let made : ◌≡◌ {A = Result Error Program} (ok (program_of t)) (ok p) =
          unfold program_of in rw e at h in
        let same : program_of t ≡ p = cc made in
        subst (λ x. OwnProgram t x) same
          (unfold program_of in ((text_eq_iff t.language (codes "tengo")).0 e, refl, refl, refl))
  ]

  new_program-refused : (e : Error) → new_program t ≡ err e → t.language ≢ codes "tengo"
  unfolding new_program
  new_program-refused x h k = cc (rw ((text_eq_iff t.language (codes "tengo")).1 k) at h)

  added-items :
      (c : ProgramCache) (p : Program)
      → (program_cache_add p c).0.items c.next
        ≡ some (start (record { program = p; expires = c.now + c.timeout; timer = idle }))
  unfolding program_cache_add
  added-items c p = write_self (stop_at c (lookup p.id c.m)) c.next _

  added-Cached :
      (c : ProgramCache) (p : Program) → p.id ≡ get_id t → Cached t (program_cache_add p c).0 p
  unfolding Cached program_cache_add start stop
  added-Cached c p e = (
    c.next,
    _,
    rw (← e) (lookup-insert_self p.id c.next (delete p.id c.m)),
    added-items c p,
    refl,
  )

  created-Ran :
      (c later : ProgramCache) (r : Result Error Program)
      → new_program t ≡ r
      → lookup (get_id t) c.m ≡ none
      → Ran tengo t c later (created tengo t later r)
  unfolding created compiled run_added failed Added Refused program_cache_add start stop
  created-Ran c later (err e) q h = refused h refl (inl (new_program-refused e q))
  created-Ran c later (ok p) q h =
      let own = new_program-OwnProgram p q in
      elim (Option-cases (tengo.compile p)) [
        | inr (e, f) ↦ rw f (refused h refl (inr (p, e, own, f)))
        | inl f ↦
            let id : p.id ≡ get_id t = unfold OwnProgram in own.1 in
            rw (f, compiled)
              (of_task (run_cached-executed _ _ (added-items later p))
                (h, own, f, refl, added-Cached later p id) id)
      ]

  found-Ran :
      (c later : ProgramCache)
      → IsValid c
      → (o : Option ℕ) → lookup (get_id t) c.m ≡ o
      → Ran tengo t c later (found_or_created tengo t c later o)
  unfolding found_or_created Cached
  found-Ran c later v none h = created-Ran c later (new_program t) refl h
  found-Ran c later v (some i) h =
      let (item, e, id, q) = v.entries (get_id t) i h in
      of_cached (run_cached-executed (c.items i) item e) (i, item, h, e, refl) id

-- A task runs the program that a reachable cache holds under its domain and uuid, whatever source the task carries. Where
-- that cache holds none, it runs its own program, of its own source and deadline, and leaves it in the cache, if the
-- language is tengo and this program compiles, and else nothing is run and the cache stays; whatever other goroutines have
-- made of the cache before the program is added. What is run always has the task's domain and uuid.
pub create_task-Ran :
    {begin : ℕ} (tengo : Tengo) (t : NewTask) (c later : ProgramCache)
    → Reach begin c
    → Ran tengo t c later (create_task tengo (some t) c later)
unfolding create_task program_cache_get
create_task-Ran tengo t c later r =
    found-Ran tengo t c later (Reach-IsValid r) (lookup (get_id t) c.m) refl
