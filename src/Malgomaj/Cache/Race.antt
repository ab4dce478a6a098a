-- ===== src/Malgomaj/Cache/Race.antt =====
-- A program that is added while the callback of the item that it replaces has begun.
use self_host.Prelude.{ℕ, ◌+◌, ◌≡◌, refl, sym, ap, ◌∙◌, none, some, arith}
use self_host.Text.Laws.{text_eq_refl}
use self_host.Text.Map.{lookup, lookup-delete}
use self_host.Malgomaj.Cache.{
  Program, idle, armed, running, finished, ProgramCacheItem, ProgramCache, stopped_timer, stop,
  start, with_item, stop_at, program_cache_add, expire, Step, callback, Reach,
}
use self_host.Malgomaj.Cache.Reachable.{IsValid, Reach-IsValid, owner, write_self, write_other}

-- The program is in no entry, although the timer of its item still waits and its time has not come.
pub record IsLost (p : Program) (added : ℕ) (c d : ProgramCache) : Type 0 where
  pub absent : lookup p.id d.m ≡ none
  pub item : ProgramCacheItem
  pub kept : d.items added ≡ some item
  pub program : item.program ≡ p
  pub timer : item.timer ≡ armed
  pub expires : item.expires ≡ d.now + c.timeout

module _ (p : Program) (c : ProgramCache) (v : IsValid c) (i : ℕ) (item : ProgramCacheItem)
    (entry : lookup p.id c.m ≡ some i) (e : c.items i ≡ some item)
    (begun : item.timer ≡ running) where
  stop-item : stop item ≡ item
  unfolding stop stopped_timer
  stop-item =
      let q : stopped_timer item.timer ≡ item.timer = ap stopped_timer begun ∙ sym begun in
      λ j. record item { timer = q j }

  stop_at-item : stop_at c (lookup p.id c.m) ≡ with_item c i (stop item)
  unfolding stop_at
  stop_at-item = rw (entry, stop_at, e)

  added : ProgramCache
  added = (program_cache_add p c).0

  -- Stop leaves the item as it is, since its callback has begun.
  added-item : added.items i ≡ some item
  unfolding added program_cache_add stop_at stop stopped_timer
  added-item =
      write_other (stop_at c (lookup p.id c.m)) c.next
        (start (record { program = p; expires = c.now + c.timeout; timer = idle })) i
        (λ q. omega (arith, v.below i item e, q))
      ∙ ap (λ (d : ProgramCache). d.items i) stop_at-item
      ∙ write_self c i (stop item)
      ∙ ap some stop-item

  lost : IsLost p c.next c (expire i item added)
  unfolding expire added program_cache_add start stop
  lost = record {
    absent = rw (owner c v p.id i item entry e) (rw lookup-delete (rw text_eq_refl));
    item = start (record { program = p; expires = c.now + c.timeout; timer = idle });
    kept =
        write_other added i (record item { timer = finished }) c.next
          (λ q. omega (arith, v.below i item e, q))
        ∙ write_self (stop_at c (lookup p.id c.m)) c.next
            (start (record { program = p; expires = c.now + c.timeout; timer = idle }));
    program = refl;
    timer = refl;
    expires = rw stop_at-item (unfold with_item in refl);
  }

-- Where ProgramCacheAdd replaces an item whose callback has begun, the callback still runs, and deletes the entry of the program
-- just added: the program is lost to the cache before its time, and its own timer still waits.
pub program_cache_add-IsLost :
    {begin : ℕ} (p : Program) (c : ProgramCache) (i : ℕ) (item : ProgramCacheItem)
    → Reach begin c
    → lookup p.id c.m ≡ some i
    → c.items i ≡ some item
    → item.timer ≡ running
    → Step (program_cache_add p c).0 (expire i item (program_cache_add p c).0)
      × IsLost p c.next c (expire i item (program_cache_add p c).0)
unfolding added
program_cache_add-IsLost p c i item r entry e begun =
    let v = Reach-IsValid r in
    (callback i item (added-item p c v i item entry e begun) begun, lost p c v i item entry e begun)
