-- ===== src/Malgomaj/Cache/Reachable.antt =====
-- What holds of the cache of programs in every state that the process can reach.
use self_host.Prelude.{
  ℕ, ◌+◌, ◌≤◌, ◌<◌, ◌≡◌, ◌≢◌, ◌⊎◌, inl, inr, refl, sym, ap, subst, ◌∙◌, none, some, arith, ◌==◌,
  ==_iff, Bool-cases, Option-cases,
}
use self_host.Text.{Text, text_eq}
use self_host.Text.Laws.{text_eq_iff}
use self_host.Text.Map.{TextMap, lookup, delete, lookup-insert, lookup-delete}
use self_host.Malgomaj.Cache.{
  Program, Timer, idle, armed, running, finished, ProgramCacheItem, ProgramCache, new_program_cache,
  stopped_timer, stop, start, with_item, stop_at, set_cache_timeout, program_cache_add, fire,
  expire, Step, set_timeout, add, wait, begin, callback, Reach, initial, later,
}

-- A timer is still to delete the item's entry.
unfoldable pub IsPending : Timer → Type 0
IsPending t = (t ≡ armed) ⊎ (t ≡ running)

-- An entry leads to an item of its id, whose timer waits or whose callback has begun; addresses are below the next one, and a
-- timer starts its callback only when the time of the item has come.
pub record IsValid (c : ProgramCache) : Type 0 where
  pub entries :
      (id : Text) (i : ℕ)
      → lookup id c.m ≡ some i
      → (item : ProgramCacheItem) × (c.items i ≡ some item)
        × (item.program.id ≡ id)
        × IsPending item.timer
  pub below : (i : ℕ) (item : ProgramCacheItem) → c.items i ≡ some item → i < c.next
  pub on_time :
      (i : ℕ) (item : ProgramCacheItem)
      → c.items i ≡ some item
      → item.timer ≡ running
      → item.expires ≤ c.now

-- What stands at an address after a write.
written :
    (c : ProgramCache) (i : ℕ) (item : ProgramCacheItem) (k : ℕ) (x : ProgramCacheItem)
    → (with_item c i item).items k ≡ some x
    → (x ≡ item) × (i ≡ k) ⊎ (c.items k ≡ some x)
unfolding with_item
written c i item k x h = elim (Bool-cases (i == k)) [
  | inl e ↦ let g : some item ≡ some x = rw e at h in inl (cc g, (==_iff i k).0 e)
  | inr e ↦ inr (rw e at h)
]

pub write_self :
    (c : ProgramCache) (i : ℕ) (item : ProgramCacheItem) → (with_item c i item).items i ≡ some item
unfolding with_item
write_self c i item = rw ((==_iff i i).1 refl)

pub write_other :
    (c : ProgramCache) (i : ℕ) (item : ProgramCacheItem) (k : ℕ)
    → i ≢ k
    → (with_item c i item).items k ≡ c.items k
unfolding with_item
write_other c i item k h = elim (Bool-cases (i == k)) [
  | inl e ↦ absurd (h ((==_iff i k).0 e))
  | inr e ↦ rw e
]

item_of : {x y : ProgramCacheItem} → some x ≡ some y → x ≡ y
item_of h = cc h

initial-IsValid : (now : ℕ) → IsValid (new_program_cache now)
unfolding lookup
initial-IsValid now = record {
  entries = λ id i h. cc h;
  below = λ i item h. cc h;
  on_time = λ i item h. cc h;
}

-- A write at an address in use, of an item with the same program, that is not early where its callback has begun.
module _ (c : ProgramCache) (i : ℕ) (item new : ProgramCacheItem) (e : c.items i ≡ some item)
    (v : IsValid c) where
  written_below : (k : ℕ) (x : ProgramCacheItem) → (with_item c i new).items k ≡ some x → k < c.next
  written_below k x h = elim (written c i new k x h) [
    | inl (q, j) ↦ subst (λ (n : ℕ). n < c.next) j (v.below i item e)
    | inr q ↦ v.below k x q
  ]

  written_on_time :
      (new.timer ≡ running → new.expires ≤ c.now)
      → (k : ℕ) (x : ProgramCacheItem) → (with_item c i new).items k ≡ some x
      → x.timer ≡ running
      → x.expires ≤ c.now
  written_on_time late k x h r = elim (written c i new k x h) [
    | inl (q, j) ↦
        subst (λ (y : ProgramCacheItem). y.expires ≤ c.now) (sym q)
          (late (ap (λ (y : ProgramCacheItem). y.timer) (sym q) ∙ r))
    | inr q ↦ v.on_time k x q r
  ]

  -- The entries whose address is another, or whose new item is pending.
  written_entry :
      (id : Text) (k : ℕ)
      → new.program.id ≡ item.program.id
      → (i ≡ k → IsPending new.timer)
      → lookup id c.m ≡ some k
      → (x : ProgramCacheItem) × ((with_item c i new).items k ≡ some x)
        × (x.program.id ≡ id)
        × IsPending x.timer
  written_entry id k same pending h = elim (Bool-cases (i == k)) [
    | inl q ↦
        let j : i ≡ k = (==_iff i k).0 q in
        let (x, a, b, p) = v.entries id k h in
        let y : item ≡ x = item_of (sym e ∙ ap c.items j ∙ a) in
        (
          new,
          subst (λ (n : ℕ). (with_item c i new).items n ≡ some new) j (write_self c i new),
          same ∙ ap (λ (z : ProgramCacheItem). z.program.id) y ∙ b,
          pending j,
        )
    | inr q ↦
        let (x, a, b, p) = v.entries id k h in
        (x, write_other c i new k (λ j. cc (q, (==_iff i k).1 j)) ∙ a, b, p)
  ]

deleted :
    (id j : Text) (k : ℕ) (m : TextMap ℕ)
    → lookup j (delete id m) ≡ some k
    → (id ≢ j) × (lookup j m ≡ some k)
deleted id j k m h = elim (Bool-cases (text_eq id j)) [
  | inl e ↦ let g : none ≡ some k = rw e at (rw lookup-delete at h) in cc g
  | inr e ↦ (λ q. cc (e, (text_eq_iff id j).1 q), rw e at (rw lookup-delete at h))
]

-- The item that an entry leads to has the id of the entry.
pub owner :
    (c : ProgramCache) (v : IsValid c) (id : Text) (i : ℕ) (item : ProgramCacheItem)
    → lookup id c.m ≡ some i
    → c.items i ≡ some item
    → item.program.id ≡ id
owner c v id i item h e =
    let (x, a, b, p) = v.entries id i h in
    ap (λ (z : ProgramCacheItem). z.program.id) (item_of (sym e ∙ a)) ∙ b

begin-IsValid :
    (c : ProgramCache) (i : ℕ) (item : ProgramCacheItem)
    → c.items i ≡ some item
    → item.expires ≤ c.now
    → IsValid c
    → IsValid (fire i item c)
unfolding fire with_item IsPending
begin-IsValid c i item e l v =
    let new : ProgramCacheItem = record item { timer = running } in
    record {
      entries = λ id k h. written_entry c i item new e v id k refl (λ j. inr refl) h;
      below = λ k x h. written_below c i item new e v k x h;
      on_time = λ k x h r. written_on_time c i item new e v (λ q. l) k x h r;
    }

callback-IsValid :
    (c : ProgramCache) (i : ℕ) (item : ProgramCacheItem)
    → c.items i ≡ some item
    → IsValid c
    → IsValid (expire i item c)
unfolding expire with_item IsPending
callback-IsValid c i item e v =
    let new : ProgramCacheItem = record item { timer = finished } in
    record {
      entries = λ id k h.
          let (other, h') = deleted item.program.id id k c.m h in
          written_entry c i item new e v id k refl
            (λ j. absurd (other (owner c v id i item (h' ∙ ap some (sym j)) e))) h';
      below = λ k x h. written_below c i item new e v k x h;
      on_time = λ k x h r. written_on_time c i item new e v (λ q. cc q) k x h r;
    }

-- The cache after the timer of the item that is replaced is stopped: as before, but for this item.
record IsStopped (id : Text) (c d : ProgramCache) : Type 0 where
  map : d.m ≡ c.m
  address : d.next ≡ c.next
  time : d.now ≡ c.now
  entries :
      (j : Text) (k : ℕ)
      → id ≢ j
      → lookup j c.m ≡ some k
      → (item : ProgramCacheItem) × (d.items k ≡ some item)
        × (item.program.id ≡ j)
        × IsPending item.timer
  below : (k : ℕ) (item : ProgramCacheItem) → d.items k ≡ some item → k < c.next
  on_time :
      (k : ℕ) (item : ProgramCacheItem)
      → d.items k ≡ some item
      → item.timer ≡ running
      → item.expires ≤ c.now

unstopped : (id : Text) (c : ProgramCache) → IsValid c → IsStopped id c c
unstopped id c v = record {
  map = refl;
  address = refl;
  time = refl;
  entries = λ j k n h. v.entries j k h;
  below = v.below;
  on_time = v.on_time;
}

stopped_timer-running : (t : Timer) → stopped_timer t ≡ running → t ≡ running
unfolding stopped_timer
stopped_timer-running idle h = cc h
stopped_timer-running armed h = cc h
stopped_timer-running running h = refl
stopped_timer-running finished h = cc h

replaced-IsStopped :
    (id : Text) (c : ProgramCache) (v : IsValid c) (i : ℕ) (o : ProgramCacheItem)
    → lookup id c.m ≡ some i
    → c.items i ≡ some o
    → IsStopped id c (with_item c i (stop o))
unfolding stop with_item
replaced-IsStopped id c v i o e f = record {
  map = refl;
  address = refl;
  time = refl;
  entries = λ j k n h.
      written_entry c i o (stop o) f v j k refl
        (λ q. absurd (n (sym (owner c v id i o e f) ∙ owner c v j i o (h ∙ ap some (sym q)) f))) h;
  below = λ k x h. written_below c i o (stop o) f v k x h;
  on_time = λ k x h r.
      written_on_time c i o (stop o) f v (λ q. v.on_time i o f (stopped_timer-running o.timer q)) k
        x h r;
}

stop_at-IsStopped :
    (id : Text) (c : ProgramCache) → IsValid c → IsStopped id c (stop_at c (lookup id c.m))
unfolding stop_at stop
stop_at-IsStopped id c v = elim (Option-cases (lookup id c.m)) [
  | inl e ↦ rw e (unstopped id c v)
  | inr (i, e) ↦ elim (Option-cases (c.items i)) [
    | inl f ↦ rw (e, stop_at, f) (unstopped id c v)
    | inr (o, f) ↦ rw (e, stop_at, f) (replaced-IsStopped id c v i o e f)
  ]
]

module _ (p : Program) (c : ProgramCache) (v : IsValid c) where
  added : ProgramCacheItem
  added = start (record { program = p; expires = c.now + c.timeout; timer = idle })

  before : ProgramCache
  before = stop_at c (lookup p.id c.m)

  before-IsStopped : IsStopped p.id c before
  unfolding before
  before-IsStopped = stop_at-IsStopped p.id c v

  added_item :
      (k : ℕ) (x : ProgramCacheItem)
      → (program_cache_add p c).0.items k ≡ some x
      → (x ≡ added) × (c.next ≡ k) ⊎ (before.items k ≡ some x)
  unfolding program_cache_add added before
  added_item k x h = written before c.next added k x h

  added_entry :
      (id : Text) (k : ℕ)
      → lookup id (program_cache_add p c).0.m ≡ some k
      → (x : ProgramCacheItem) × ((program_cache_add p c).0.items k ≡ some x)
        × (x.program.id ≡ id)
        × IsPending x.timer
  unfolding program_cache_add before added start stop IsPending
  added_entry id k h = elim (Bool-cases (text_eq p.id id)) [
    | inl e ↦
        let g : some c.next ≡ some k = rw e at (rw lookup-insert at h) in
        let j : c.next ≡ k = cc g in
        (
          added,
          subst (λ (n : ℕ). (with_item before c.next added).items n ≡ some added) j
              (write_self before c.next added),
          (text_eq_iff p.id id).0 e,
          inl refl,
        )
    | inr e ↦
        let (n, h') = deleted p.id id k c.m (rw e at (rw lookup-insert at h)) in
        let (x, a, b, q) = before-IsStopped.entries id k n h' in
        (
          x,
          write_other before c.next added k (λ j. omega (arith, before-IsStopped.below k x a, j))
              ∙ a,
          b,
          q,
        )
  ]

  added-running : (x : ProgramCacheItem) → x ≡ added → x.timer ≡ running → ⊥
  unfolding added start stop
  added-running x q r = cc (ap (λ (y : ProgramCacheItem). y.timer) (sym q) ∙ r)

  program_cache_add-IsValid : IsValid (program_cache_add p c).0
  unfolding program_cache_add before with_item
  program_cache_add-IsValid = record {
    entries = added_entry;
    below = λ k x h. elim (added_item k x h) [
      | inl (q, j) ↦ omega arith
      | inr q ↦ omega (arith, before-IsStopped.below k x q)
    ];
    on_time = λ k x h r. elim (added_item k x h) [
      | inl (q, j) ↦ absurd (added-running x q r)
      | inr q ↦
          subst (λ (n : ℕ). x.expires ≤ n) (sym before-IsStopped.time)
            (before-IsStopped.on_time k x q r)
    ];
  }

Step-IsValid : {c d : ProgramCache} → Step c d → IsValid c → IsValid d
unfolding set_cache_timeout
Step-IsValid (set_timeout seconds) v = record {
  entries = v.entries;
  below = v.below;
  on_time = v.on_time;
}
Step-IsValid {c} (add p) v = program_cache_add-IsValid p c v
Step-IsValid (wait n) v = record {
  entries = v.entries;
  below = v.below;
  on_time = λ i item h r. omega (arith, v.on_time i item h r);
}
Step-IsValid {c} (begin i item e a l) v = begin-IsValid c i item e l v
Step-IsValid {c} (callback i item e r) v = callback-IsValid c i item e v

-- In every state that the process can reach, each entry of the cache leads to an item whose program has the id of the entry,
-- and whose timer is armed or has its callback running.
pub Reach-IsValid : {start : ℕ} {c : ProgramCache} → Reach start c → IsValid c
Reach-IsValid {start} initial = initial-IsValid start
Reach-IsValid (later r s) = Step-IsValid s (Reach-IsValid r)
