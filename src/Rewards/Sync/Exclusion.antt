-- ===== src/Rewards/Sync/Exclusion.antt =====
-- include/CodexOfPowerNG/RewardsSyncRuntime.h: how many runs start, and what becomes of old runs,
-- while the threads interleave between any two atomic accesses.
use codex_of_power_ng.Base.{
  ℕ, ◌+◌, ◌-◌, ◌≡◌, ◌≤◌, ◌<◌, true, false, ◌==◌, List, [], ◌∷◌, Option, none, some, arith, refl,
  ◌↔◌, length, inl, inr, Bool-cases,
}
use codex_of_power_ng.Base.Word.{u64_max}
use codex_of_power_ng.Rewards.Sync.{
  SyncState, SyncStore, store_scheduled, store_rerun_requested, store_scheduled_since_ms,
  reward_slot, carry_weight_slot, perform, start_new_run, force_restart_and_start,
  decide_sync_request_action, is_current_generation, bump_generation_and_clear_schedulers,
  mark_reward_sync_rerun_requested, consume_reward_sync_rerun_requested, try_start_reward_sync,
  touch_reward_sync_scheduled_since, complete_reward_sync_run,
  mark_carry_weight_quick_resync_rerun_requested, consume_carry_weight_quick_resync_rerun_requested,
  try_start_carry_weight_quick_resync, touch_carry_weight_quick_resync_scheduled_since,
  complete_carry_weight_quick_resync_run, decide_reward_sync_request_action,
}
use codex_of_power_ng.Rewards.Sync.Threads.{
  SyncCall, bump, mark_reward, consume_reward, start_reward, touch_reward, complete_reward,
  mark_carry, consume_carry, start_carry, touch_carry, complete_carry, begin, SyncThreads,
  SyncEvent, begins, resumes, head_store, tail_stores, next_store, drop_store, perform_next, step,
  ends, is_freeing, frees, one, count, starts, freeings, endings, free, freeings_of,
  pending_freeings, run,
}
use codex_of_power_ng.Rewards.Sync.Generation.{
  run-generation, older_is_stale, current_makes_idle, alone, idle_slot,
}

-- A store gives up the slot only if it is the freeing one.
perform_next-free :
    (store : Option SyncStore) (s : SyncState)
    → free (perform_next store s) ≤ free s + one (is_freeing store)
unfolding perform
perform_next-free none s = omega arith
perform_next-free (some (store_scheduled reward_slot true)) s = omega arith
perform_next-free (some (store_scheduled reward_slot false)) s = omega arith
perform_next-free (some (store_scheduled carry_weight_slot b)) s = omega arith
perform_next-free (some (store_rerun_requested reward_slot b)) s = omega arith
perform_next-free (some (store_rerun_requested carry_weight_slot b)) s = omega arith
perform_next-free (some (store_scheduled_since_ms reward_slot ms)) s = omega arith
perform_next-free (some (store_scheduled_since_ms carry_weight_slot ms)) s = omega arith

-- A call starts a run only if none is scheduled, which its first access changes.
begin-free :
    (call : SyncCall) (s : SyncState) → one ((begin call s).1) + free ((begin call s).0.0) ≤ free s
unfolding begin bump_generation_and_clear_schedulers mark_reward_sync_rerun_requested
    consume_reward_sync_rerun_requested try_start_reward_sync touch_reward_sync_scheduled_since
    mark_carry_weight_quick_resync_rerun_requested consume_carry_weight_quick_resync_rerun_requested
    try_start_carry_weight_quick_resync touch_carry_weight_quick_resync_scheduled_since
begin-free bump s = omega arith
begin-free mark_reward s = omega arith
begin-free consume_reward s = omega arith
begin-free (start_reward now) s = ground arith
begin-free (touch_reward now) s = omega arith
begin-free (complete_reward g) s = omega arith
begin-free mark_carry s = omega arith
begin-free consume_carry s = omega arith
begin-free (start_carry now) s = omega arith
begin-free (touch_carry now) s = omega arith
begin-free (complete_carry g) s = omega arith

step-free :
    (e : SyncEvent) (c : SyncThreads)
    → one ((step e c).1) + free ((step e c).0.state) ≤ free c.state + one (frees e c)
unfolding step frees
step-free (begins call) c = omega (arith, begin-free call c.state)
step-free (resumes n) c = omega (arith, perform_next-free (next_store n c.pending) c.state)

-- Only an ending has a freeing store to make.
begin-freeings :
    (call : SyncCall) (s : SyncState)
    → freeings_of ((begin call s).0.1) ≤ one (ends (begins call) s)
unfolding begin ends freeings_of bump_generation_and_clear_schedulers try_start_reward_sync
    complete_reward_sync_run is_current_generation try_start_carry_weight_quick_resync
    complete_carry_weight_quick_resync_run
begin-freeings bump s = omega arith
begin-freeings mark_reward s = omega arith
begin-freeings consume_reward s = omega arith
begin-freeings (start_reward now) s = ground arith
begin-freeings (touch_reward now) s = omega arith
begin-freeings (complete_reward g) s = ground arith
begin-freeings mark_carry s = omega arith
begin-freeings consume_carry s = omega arith
begin-freeings (start_carry now) s = ground arith
begin-freeings (touch_carry now) s = omega arith
begin-freeings (complete_carry g) s = ground arith

call_freeings :
    (call : List SyncStore)
    → one (is_freeing (head_store call)) + freeings_of (tail_stores call) ≡ freeings_of call
unfolding freeings_of
call_freeings [] = refl
call_freeings (store ∷ rest) = refl

drop_freeings :
    (n : ℕ) (calls : List (List SyncStore))
    → one (is_freeing (next_store n calls)) + pending_freeings (drop_store n calls)
      ≡ pending_freeings calls
unfolding next_store drop_store pending_freeings
drop_freeings n [] = refl
drop_freeings n (call ∷ calls) = elim (Bool-cases (n == 0)) [
  | inl e ↦ rw e (omega (arith, call_freeings call))
  | inr e ↦ rw e (omega (arith, drop_freeings (n - 1) calls))
]

step-freeings :
    (e : SyncEvent) (c : SyncThreads)
    → one (frees e c) + pending_freeings ((step e c).0.pending)
      ≤ pending_freeings c.pending + one (ends e c.state)
unfolding step frees pending_freeings ends
step-freeings (begins call) c = omega (arith, begin-freeings call c.state)
step-freeings (resumes n) c = omega (arith, drop_freeings n c.pending)

starts-freeings :
    (es : List SyncEvent) (c : SyncThreads) → starts es c ≤ free c.state + freeings es c
unfolding starts freeings count
starts-freeings [] c = omega arith
starts-freeings (e ∷ es) c = omega (arith, step-free e c, starts-freeings es ((step e c).0))

freeings-endings :
    (es : List SyncEvent) (c : SyncThreads)
    → freeings es c ≤ pending_freeings c.pending + endings es c
unfolding freeings endings count
freeings-endings [] c = omega arith
freeings-endings (e ∷ es) c = omega (arith, step-freeings e c, freeings-endings es ((step e c).0))

-- Whatever the threads call, and however their atomic accesses interleave: the reward sync runs
-- that start are at most the stores that free the slot, and one more if it is free at the
-- beginning, so that between two starts there is such a store; and these stores are at most the
-- calls that begin to end a run (a bump, or a completion that reads its own generation), and those
-- that calls begun before have still to make.
pub starts_bounded :
    (es : List SyncEvent) (c : SyncThreads)
    → (starts es c ≤ free c.state + freeings es c)
      × (freeings es c ≤ pending_freeings c.pending + endings es c)
starts_bounded es c = (starts-freeings es c, freeings-endings es c)

-- After a bump has moved the generation, and after whatever else the threads do then, also after a
-- new run has started: a run of the generation before the bump, or of an older one, that completes
-- changes nothing, neither at once nor by stores that it has still to make; and a completion that
-- names the generation of then, if no other access interrupts it, makes its slot idle and changes
-- nothing else. The generation must not reach the end of 64 bits, of which the number of events is
-- a bound.
pub bump-stale :
    (es : List SyncEvent) (c : SyncThreads) (g : ℕ)
    → g ≤ c.state.generation
    → c.state.generation + 1 + length es ≤ u64_max
    → let d = run es ((step (begins bump) c).0) in
      let s = d.state in
      (begin (complete_reward g) s ≡ ((s, []), false))
      × (begin (complete_carry g) s ≡ ((s, []), false))
      × ((run (alone (complete_reward s.generation)) d).state
          ≡ record s { reward_sync = idle_slot })
      × ((run (alone (complete_carry s.generation)) d).state
          ≡ record s { carry_weight_quick_resync = idle_slot })
unfolding begin step bump_generation_and_clear_schedulers
bump-stale es c g old room =
    let bumped = (step (begins bump) c).0 in
    let d = run es bumped in
    let up : bumped.state.generation ≡ c.state.generation + 1 = omega (arith, room) in
    let later = run-generation es bumped (omega (arith, up, room)) in
    let stale = older_is_stale g d.state (omega (arith, up, later, old)) in
    let current = current_makes_idle d in (rw stale.0 refl, rw stale.1 refl, current.0, current.1)

-- A request is told to start exactly when an attempt to start succeeds, and to restart exactly
-- when the scheduled run is older than the threshold; else it asks for a rerun.
pub decide_correct :
    (now stuck : ℕ) (s : SyncState)
    → let decision = decide_reward_sync_request_action now stuck s in
      ((decision ≡ start_new_run) ↔ ((try_start_reward_sync now s).1 ≡ true))
      × ((decision ≡ force_restart_and_start)
          ↔ ((s.reward_sync.scheduled ≡ true) × (s.reward_sync.scheduled_since_ms + stuck < now)))
unfolding decide_reward_sync_request_action decide_sync_request_action try_start_reward_sync
decide_correct now stuck s = ground arith
