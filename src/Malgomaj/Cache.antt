-- ===== src/Malgomaj/Cache.antt =====
-- api/malgomaj/program.go: the cache of compiled programs. Items live on a heap, since the timer of an item outlives its entry
-- in the map. An operation is one step, as it holds the lock of the cache; the callback of a timer waits for this lock
-- between the moment at which it begins to run and the moment at which it deletes. Deadlines are not negative.
pub mod Race
pub mod Reachable
use self_host.Prelude.{
  ℕ, suc, ◌+◌, ◌*◌, ◌/◌, ◌≤◌, ◌≡◌, Bool, true, false, Option, none, some, List, [], ◌∷◌, ◌==◌,
  if◌then◌else◌,
}
use self_host.Text.{Text}
use self_host.Text.Map.{TextMap, lookup, insert, delete}

-- What the cache asks of a Program: Id, Deadline in nanoseconds, and the source that was compiled.
pub record Program : Type 0 where
  pub id : Text
  pub deadline : ℕ
  pub source_code : Text

-- A timer that has not been started or was stopped in time, one that waits, one whose callback has begun, one whose
-- callback is done.
pub data Timer : Type 0 where
  idle : Timer
  armed : Timer
  running : Timer
  finished : Timer

pub record ProgramCacheItem : Type 0 where
  pub program : Program
  pub expires : ℕ
  pub timer : Timer

pub record ProgramCache : Type 0 where
  -- Nanoseconds
  pub timeout : ℕ
  -- The addresses of the items
  pub m : TextMap ℕ
  pub items : ℕ → Option ProgramCacheItem
  -- The next free address
  pub next : ℕ
  pub now : ℕ

-- init
abbrev pub new_program_cache : ℕ → ProgramCache
new_program_cache now = record { timeout = 0; m = []; items = λ k. none; next = 0; now = now }

-- time.Timer.Stop has no effect on a callback that has begun.
stopped_timer : Timer → Timer
stopped_timer armed = idle
stopped_timer t = t

unfoldable pub stop : ProgramCacheItem → ProgramCacheItem
unfolding stopped_timer
stop p = record p { timer = stopped_timer p.timer }

unfoldable pub start : ProgramCacheItem → ProgramCacheItem
unfolding stop
start p = record (stop p) { timer = armed }

unfoldable pub with_item : ProgramCache → ℕ → ProgramCacheItem → ProgramCache
with_item c i item = record c { items = λ k. if i == k then some item else c.items k }

unfoldable pub stop_at : ProgramCache → Option ℕ → ProgramCache
stop_at c none = c
stop_at c (some i) = elim (c.items i) [ none ↦ c | some o ↦ with_item c i (stop o) ]

unfoldable pub set_cache_timeout : ℕ → ProgramCache → ProgramCache
set_cache_timeout seconds c = record c { timeout = seconds * 1_000_000_000 }

-- The cache, and the address of the item.
unfoldable pub program_cache_add : Program → ProgramCache → ProgramCache × ℕ
program_cache_add p c =
    let item : ProgramCacheItem = record {
      program = p;
      expires = c.now + c.timeout;
      timer = idle;
    } in
    let c' = stop_at c (lookup p.id c.m) in
    (
      record (with_item c' c.next (start item)) {
        m = insert p.id c.next (delete p.id c.m);
        next = suc c.next;
      },
      c.next,
    )

unfoldable pub program_cache_get : Text → ProgramCache → Option ℕ
program_cache_get id c = lookup id c.m

deadline_of : Option ProgramCacheItem → ℕ
deadline_of none = 0
deadline_of (some item) = item.program.deadline / 1_000_000

load_of : (ℕ → Option ProgramCacheItem) → TextMap ℕ → ℕ
unfolding deadline_of
load_of items [] = 0
load_of items ((k, i) ∷ m) = deadline_of (items i) + load_of items m

unfoldable pub program_cache_get_load : ProgramCache → ℕ
unfolding load_of
program_cache_get_load c = load_of c.items c.m

-- A timer whose time has come starts its callback.
unfoldable pub fire : ℕ → ProgramCacheItem → ProgramCache → ProgramCache
fire i item c = with_item c i (record item { timer = running })

-- What the callback does once it has the lock: it deletes the entry of the program's id.
unfoldable pub expire : ℕ → ProgramCacheItem → ProgramCache → ProgramCache
expire i item c = record (with_item c i (record item { timer = finished })) {
  m = delete item.program.id c.m;
}

-- One step of the process.
pub data Step (c : ProgramCache) : ProgramCache → Type 0 where
  set_timeout : (seconds : ℕ) → Step c (set_cache_timeout seconds c)
  add : (p : Program) → Step c (program_cache_add p c).0
  wait : (n : ℕ) → Step c (record c { now = c.now + n })
  begin :
      (i : ℕ) (item : ProgramCacheItem)
      → c.items i ≡ some item
      → item.timer ≡ armed
      → item.expires ≤ c.now
      → Step c (fire i item c)
  callback :
      (i : ℕ) (item : ProgramCacheItem)
      → c.items i ≡ some item
      → item.timer ≡ running
      → Step c (expire i item c)

pub data Reach (start : ℕ) : ProgramCache → Type 0 where
  initial : Reach start (new_program_cache start)
  later : {c d : ProgramCache} → Reach start c → Step c d → Reach start d
