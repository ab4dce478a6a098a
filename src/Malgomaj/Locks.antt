-- ===== src/Malgomaj/Locks.antt =====
-- The locks of api/malgomaj/program.go: the callback of a timer, which ProgramCacheItem.Start hands to time.AfterFunc, beside a
-- call of ProgramCacheAdd that replaces the item. Both use the lock of the item, a sync.RWMutex, and the lock of the cache.
-- A RWMutex admits no new reader while a writer waits or writes, and a writer once no reader is left.
pub mod Stuck
use self_host.Prelude.{ℕ, zero, suc, ◌+◌, ◌≡◌, Bool, true, false}

-- Where the callback stands.
pub data Callback : Type 0 where
  begun : Callback
  -- Behind `p.RLock()`
  reading : Callback
  -- Inside GetId, behind its RLock
  reading_twice : Callback
  -- Behind the RUnlock of GetId
  read : Callback
  -- Behind `p.RUnlock()`, before the lock of the cache
  asking : Callback
  deleting : Callback
  returned : Callback

-- Where the call of ProgramCacheAdd stands.
pub data Adding : Type 0 where
  outside : Adding
  -- Behind `programCache.mux.Lock()`
  inside : Adding
  -- In Stop, before its `p.Lock()` is answered
  waiting : Adding
  -- In Stop, behind `p.Lock()`
  stopping : Adding
  stopped : Adding
  left : Adding

pub record State : Type 0 where
  pub callback : Callback
  pub adding : Adding
  -- Other goroutines that hold the item's lock for reading, as in Expires
  pub others : ℕ
  -- Other goroutines that hold the cache's lock, as in ProgramCacheGet
  pub visitors : ℕ

-- The read locks that the callback holds
unfoldable pub read_locks : Callback → ℕ
read_locks reading = 1
read_locks reading_twice = 2
read_locks read = 1
read_locks _ = 0

-- A writer waits for the item's lock, or has it.
unfoldable pub closed_to_readers : Adding → Bool
closed_to_readers waiting = true
closed_to_readers stopping = true
closed_to_readers _ = false

unfoldable pub holds_cache : Adding → Bool
holds_cache inside = true
holds_cache waiting = true
holds_cache stopping = true
holds_cache stopped = true
holds_cache _ = false

unfoldable pub deletes : Callback → Bool
deletes deleting = true
deletes _ = false

pub data Step (s : State) : State → Type 0 where
  rlock :
      s.callback ≡ begun
      → closed_to_readers s.adding ≡ false
      → Step s (record s { callback = reading })
  rlock_again :
      s.callback ≡ reading
      → closed_to_readers s.adding ≡ false
      → Step s (record s { callback = reading_twice })
  runlock_inner : s.callback ≡ reading_twice → Step s (record s { callback = read })
  runlock : s.callback ≡ read → Step s (record s { callback = asking })
  lock_to_delete :
      s.callback ≡ asking
      → holds_cache s.adding ≡ false
      → s.visitors ≡ 0
      → Step s (record s { callback = deleting })
  unlock_deleted : s.callback ≡ deleting → Step s (record s { callback = returned })
  lock_to_add :
      s.adding ≡ outside
      → deletes s.callback ≡ false
      → s.visitors ≡ 0
      → Step s (record s { adding = inside })
  call_stop : s.adding ≡ inside → Step s (record s { adding = waiting })
  lock_to_stop :
      s.adding ≡ waiting
      → read_locks s.callback + s.others ≡ 0
      → Step s (record s { adding = stopping })
  unlock_stopped : s.adding ≡ stopping → Step s (record s { adding = stopped })
  unlock_added : s.adding ≡ stopped → Step s (record s { adding = left })
  other_rlock : closed_to_readers s.adding ≡ false → Step s (record s { others = suc s.others })
  other_runlock : (n : ℕ) → s.others ≡ suc n → Step s (record s { others = n })
  visit :
      holds_cache s.adding ≡ false
      → deletes s.callback ≡ false
      → Step s (record s { visitors = suc s.visitors })
  leave : (n : ℕ) → s.visitors ≡ suc n → Step s (record s { visitors = n })

pub data Steps (s : State) : State → Type 0 where
  here : Steps s s
  next : {t u : State} → Steps s t → Step t u → Steps s u
