-- ===== src/Malgomaj/Locks/Stuck.antt =====
-- What the read lock that the callback takes twice leads to.
use self_host.Prelude.{◌≡◌, true, arith}
use self_host.Malgomaj.Locks.{
  reading, waiting, State, read_locks, closed_to_readers, holds_cache, Step, rlock, rlock_again,
  runlock_inner, runlock, lock_to_delete, unlock_deleted, lock_to_add, call_stop, lock_to_stop,
  unlock_stopped, unlock_added, other_rlock, other_runlock, visit, leave, Steps, here, next,
}

-- The callback holds its first read lock, and Stop waits for the write lock.
pub record IsStuck (s : State) : Type 0 where
  pub callback : s.callback ≡ reading
  pub adding : s.adding ≡ waiting

Step-IsStuck : {s t : State} → Step s t → IsStuck s → IsStuck t
unfolding read_locks closed_to_readers
Step-IsStuck (rlock e f) h = absurd (ground arith)
Step-IsStuck (rlock_again e f) h = absurd (ground arith)
Step-IsStuck (runlock_inner e) h = absurd (ground arith)
Step-IsStuck (runlock e) h = absurd (ground arith)
Step-IsStuck (lock_to_delete e f g) h = absurd (ground arith)
Step-IsStuck (unlock_deleted e) h = absurd (ground arith)
Step-IsStuck (lock_to_add e f g) h = absurd (ground arith)
Step-IsStuck (call_stop e) h = absurd (ground arith)
Step-IsStuck (lock_to_stop e f) h = absurd (ground arith)
Step-IsStuck (unlock_stopped e) h = absurd (ground arith)
Step-IsStuck (unlock_added e) h = absurd (ground arith)
Step-IsStuck (other_rlock e) h = record { callback = h.callback; adding = h.adding }
Step-IsStuck (other_runlock n e) h = record { callback = h.callback; adding = h.adding }
Step-IsStuck (visit e f) h = record { callback = h.callback; adding = h.adding }
Step-IsStuck (leave n e) h = record { callback = h.callback; adding = h.adding }

-- Where Stop asks for the write lock between the two read locks of the callback, neither ever goes on, whatever other
-- goroutines do, and the call of ProgramCacheAdd never gives the lock of the cache back.
pub Steps-IsStuck :
    {s t : State} → IsStuck s → Steps s t → IsStuck t × (holds_cache t.adding ≡ true)
unfolding holds_cache
Steps-IsStuck h here = (h, rw h.adding)
Steps-IsStuck h (next r st) = let k = Step-IsStuck st (Steps-IsStuck h r).0 in (k, rw k.adding)
