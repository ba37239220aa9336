-- ===== src/Rewards/Sync/Generation.antt =====
-- include/CodexOfPowerNG/RewardsSyncRuntime.h: how the generation moves, and what a completion makes of
-- an older and of the current one.
use codex_of_power_ng.Base.{
  ℕ, ◌+◌, ◌≡◌, ◌≤◌, ◌<◌, true, false, ◌==◌, List, [], ◌∷◌, Option, none, some, arith, refl, length,
}
use codex_of_power_ng.Base.Word.{u64_max}
use codex_of_power_ng.Rewards.Sync.{
  SyncState, SyncSlotState, SyncStore, store_scheduled, store_rerun_requested,
  store_scheduled_since_ms, reward_slot, carry_weight_slot, perform, is_current_generation,
  bump_generation_and_clear_schedulers, mark_reward_sync_rerun_requested,
  consume_reward_sync_rerun_requested, try_start_reward_sync, touch_reward_sync_scheduled_since,
  complete_reward_sync_run, mark_carry_weight_quick_resync_rerun_requested,
  consume_carry_weight_quick_resync_rerun_requested, try_start_carry_weight_quick_resync,
  touch_carry_weight_quick_resync_scheduled_since, complete_carry_weight_quick_resync_run,
}
use codex_of_power_ng.Rewards.Sync.Threads.{
  SyncCall, bump, mark_reward, consume_reward, start_reward, touch_reward, complete_reward,
  mark_carry, consume_carry, start_carry, touch_carry, complete_carry, begin, SyncThreads,
  SyncEvent, begins, resumes, next_store, drop_store, perform_next, step, run,
}

perform_next-generation :
    (store : Option SyncStore) (s : SyncState) → (perform_next store s).generation ≡ s.generation
unfolding perform
perform_next-generation none s = refl
perform_next-generation (some (store_scheduled reward_slot b)) s = refl
perform_next-generation (some (store_scheduled carry_weight_slot b)) s = refl
perform_next-generation (some (store_rerun_requested reward_slot b)) s = refl
perform_next-generation (some (store_rerun_requested carry_weight_slot b)) s = refl
perform_next-generation (some (store_scheduled_since_ms reward_slot ms)) s = refl
perform_next-generation (some (store_scheduled_since_ms carry_weight_slot ms)) s = refl

-- Below the end of 64 bits a call leaves the generation alone, or moves it one up.
abbrev Advances : ℕ → ℕ → Type 0
Advances g g' = (g ≤ g') × (g' ≤ g + 1)

begin-generation :
    (call : SyncCall) (s : SyncState)
    → s.generation < u64_max
    → Advances s.generation (begin call s).0.0.generation
unfolding begin bump_generation_and_clear_schedulers mark_reward_sync_rerun_requested
    consume_reward_sync_rerun_requested try_start_reward_sync touch_reward_sync_scheduled_since
    mark_carry_weight_quick_resync_rerun_requested consume_carry_weight_quick_resync_rerun_requested
    try_start_carry_weight_quick_resync touch_carry_weight_quick_resync_scheduled_since
begin-generation bump s h = (omega arith, omega arith)
begin-generation mark_reward s h = (omega arith, omega arith)
begin-generation consume_reward s h = (omega arith, omega arith)
begin-generation (start_reward now) s h = (omega arith, omega arith)
begin-generation (touch_reward now) s h = (omega arith, omega arith)
begin-generation (complete_reward g) s h = (omega arith, omega arith)
begin-generation mark_carry s h = (omega arith, omega arith)
begin-generation consume_carry s h = (omega arith, omega arith)
begin-generation (start_carry now) s h = (omega arith, omega arith)
begin-generation (touch_carry now) s h = (omega arith, omega arith)
begin-generation (complete_carry g) s h = (omega arith, omega arith)

step-generation :
    (e : SyncEvent) (c : SyncThreads)
    → c.state.generation < u64_max
    → Advances c.state.generation ((step e c).0.state.generation)
unfolding step
step-generation (begins call) c h = begin-generation call c.state h
step-generation (resumes n) c h =
    let same = perform_next-generation (next_store n c.pending) c.state in
    (omega (arith, same), omega (arith, same))

pub run-generation :
    (es : List SyncEvent) (c : SyncThreads)
    → c.state.generation + length es ≤ u64_max
    → c.state.generation ≤ (run es c).state.generation
unfolding run
run-generation [] c h = omega arith
run-generation (e ∷ es) c h =
    let (least, most) = step-generation e c (omega (arith, h)) in
    let later = run-generation es ((step e c).0) (omega (arith, h, most)) in
    omega (arith, least, later)

pub older_is_stale :
    (g : ℕ) (s : SyncState)
    → g < s.generation
    → (complete_reward_sync_run g s ≡ []) × (complete_carry_weight_quick_resync_run g s ≡ [])
unfolding complete_reward_sync_run complete_carry_weight_quick_resync_run is_current_generation
older_is_stale g s h = let n : (g == s.generation) ≡ false = ground arith in (rw n refl, rw n refl)

-- A completion that no other access interrupts: its load and its three stores.
abbrev pub alone : SyncCall → List SyncEvent
alone call = begins call ∷ resumes 0 ∷ resumes 0 ∷ resumes 0 ∷ []

abbrev pub idle_slot : SyncSlotState
idle_slot = record { scheduled = false; rerun_requested = false; scheduled_since_ms = 0 }

pub current_makes_idle :
    (d : SyncThreads)
    → let s = d.state in
      ((run (alone (complete_reward s.generation)) d).state ≡ record s { reward_sync = idle_slot })
      × ((run (alone (complete_carry s.generation)) d).state
          ≡ record s { carry_weight_quick_resync = idle_slot })
unfolding run step begin complete_reward_sync_run complete_carry_weight_quick_resync_run
    is_current_generation next_store drop_store perform
current_makes_idle d =
    let same : (d.state.generation == d.state.generation) ≡ true = ground arith in
    (rw same refl, rw same refl)
