-- ===== src/Rewards/Sync.antt =====
-- include/CodexOfPowerNG/RewardsSyncPolicy.h and RewardsSyncRuntime.h: which sync request starts a
-- run. A function is its first atomic access, with what that decides, and the list of the stores
-- that it makes afterwards: other threads may come between any two of them. Only the two loads of
-- a decision are of one state.
pub mod Threads
pub mod Generation
pub mod Exclusion
use codex_of_power_ng.Base.{
  ℕ, ◌-◌, List, [], ◌∷◌, ◌++◌, Bool, true, false, not, ltb, leb, ◌==◌, ◌&&◌, if◌then◌else◌,
}
use codex_of_power_ng.Base.Word.{add64}

pub data SyncRequestAction : Type 0 where
  start_new_run mark_rerun force_restart_and_start : SyncRequestAction

-- The subtraction is guarded, so it does not wrap.
unfoldable pub decide_sync_request_action : Bool → ℕ → ℕ → ℕ → SyncRequestAction
decide_sync_request_action scheduled scheduled_since_ms now_ms stuck_threshold_ms =
    if not scheduled
    then start_new_run
    else if leb scheduled_since_ms now_ms && ltb stuck_threshold_ms (now_ms - scheduled_since_ms)
    then force_restart_and_start
    else mark_rerun

abbrev pub should_stop_sync_after_pass : ℕ → ℕ → Bool
should_stop_sync_after_pass corrected_count pending_count =
    corrected_count == 0 && pending_count == 0

pub record SyncSlotState : Type 0 where
  pub scheduled : Bool
  pub rerun_requested : Bool
  pub scheduled_since_ms : ℕ

-- `SyncRuntime::Detail::RuntimeState`
pub record SyncState : Type 0 where
  pub reward_sync : SyncSlotState
  pub carry_weight_quick_resync : SyncSlotState
  pub generation : ℕ

-- The slots, and the stores to them.
pub data SyncSlot : Type 0 where
  reward_slot carry_weight_slot : SyncSlot

pub data SyncStore : Type 0 where
  store_scheduled store_rerun_requested : SyncSlot → Bool → SyncStore
  store_scheduled_since_ms : SyncSlot → ℕ → SyncStore

abbrev store_in_slot : SyncStore → SyncSlotState → SyncSlotState
store_in_slot (store_scheduled slot b) s = record s { scheduled = b }
store_in_slot (store_rerun_requested slot b) s = record s { rerun_requested = b }
store_in_slot (store_scheduled_since_ms slot ms) s = record s { scheduled_since_ms = ms }

abbrev slot_of : SyncStore → SyncSlot
slot_of (store_scheduled slot b) = slot
slot_of (store_rerun_requested slot b) = slot
slot_of (store_scheduled_since_ms slot ms) = slot

abbrev change_slot : SyncSlot → (SyncSlotState → SyncSlotState) → SyncState → SyncState
change_slot reward_slot f state = record state { reward_sync = f state.reward_sync }
change_slot carry_weight_slot f state = record state {
  carry_weight_quick_resync = f state.carry_weight_quick_resync;
}

unfoldable pub perform : SyncStore → SyncState → SyncState
perform store state = change_slot (slot_of store) (store_in_slot store) state

abbrev pub clear_sync_slot : SyncSlot → List SyncStore
clear_sync_slot slot =
    store_scheduled slot false
    ∷ store_rerun_requested slot false
    ∷ store_scheduled_since_ms slot 0
    ∷ []

abbrev pub decide_request_action : SyncSlotState → ℕ → ℕ → SyncRequestAction
decide_request_action slot now_ms stuck_ms =
    decide_sync_request_action slot.scheduled slot.scheduled_since_ms now_ms stuck_ms

-- The exchange of the flag, and the store that follows.
abbrev pub try_start_sync_slot :
    SyncSlot → SyncSlotState → ℕ → (SyncSlotState × List SyncStore) × Bool
try_start_sync_slot slot s now_ms =
    if s.scheduled
    then ((record s { scheduled = true }, store_rerun_requested slot true ∷ []), false)
    else ((record s { scheduled = true }, store_scheduled_since_ms slot now_ms ∷ []), true)

unfoldable pub is_current_generation : ℕ → SyncState → Bool
is_current_generation generation state = generation == state.generation

-- `fetch_add`, and then the stores that clear both slots.
unfoldable pub bump_generation_and_clear_schedulers : SyncState → (SyncState × List SyncStore) × ℕ
bump_generation_and_clear_schedulers state =
    let generation = add64 state.generation 1 in
    (
      (
        record state { generation = generation },
        clear_sync_slot reward_slot ++ clear_sync_slot carry_weight_slot,
      ),
      generation,
    )

unfoldable pub decide_reward_sync_request_action : ℕ → ℕ → SyncState → SyncRequestAction
decide_reward_sync_request_action now_ms stuck_ms state =
    decide_request_action state.reward_sync now_ms stuck_ms

unfoldable pub mark_reward_sync_rerun_requested : SyncState → SyncState
mark_reward_sync_rerun_requested state = record state {
  reward_sync = record state.reward_sync { rerun_requested = true };
}

unfoldable pub consume_reward_sync_rerun_requested : SyncState → SyncState × Bool
consume_reward_sync_rerun_requested state = (
  record state { reward_sync = record state.reward_sync { rerun_requested = false } },
  state.reward_sync.rerun_requested,
)

unfoldable pub try_start_reward_sync : ℕ → SyncState → (SyncState × List SyncStore) × Bool
try_start_reward_sync now_ms state =
    let started = try_start_sync_slot reward_slot state.reward_sync now_ms in
    ((record state { reward_sync = started.0.0 }, started.0.1), started.1)

unfoldable pub touch_reward_sync_scheduled_since : ℕ → SyncState → SyncState
touch_reward_sync_scheduled_since now_ms state = record state {
  reward_sync = record state.reward_sync { scheduled_since_ms = now_ms };
}

-- The load of the generation, and then the stores that clear the slot.
unfoldable pub complete_reward_sync_run : ℕ → SyncState → List SyncStore
unfolding is_current_generation
complete_reward_sync_run generation state =
    if not (is_current_generation generation state) then [] else clear_sync_slot reward_slot

unfoldable pub decide_carry_weight_quick_resync_request_action :
    ℕ → ℕ → SyncState → SyncRequestAction
decide_carry_weight_quick_resync_request_action now_ms stuck_ms state =
    decide_request_action state.carry_weight_quick_resync now_ms stuck_ms

unfoldable pub mark_carry_weight_quick_resync_rerun_requested : SyncState → SyncState
mark_carry_weight_quick_resync_rerun_requested state = record state {
  carry_weight_quick_resync = record state.carry_weight_quick_resync { rerun_requested = true };
}

unfoldable pub consume_carry_weight_quick_resync_rerun_requested : SyncState → SyncState × Bool
consume_carry_weight_quick_resync_rerun_requested state = (
  record state {
    carry_weight_quick_resync = record state.carry_weight_quick_resync { rerun_requested = false };
  },
  state.carry_weight_quick_resync.rerun_requested,
)

unfoldable pub try_start_carry_weight_quick_resync :
    ℕ → SyncState → (SyncState × List SyncStore) × Bool
try_start_carry_weight_quick_resync now_ms state =
    let started = try_start_sync_slot carry_weight_slot state.carry_weight_quick_resync now_ms in
    ((record state { carry_weight_quick_resync = started.0.0 }, started.0.1), started.1)

unfoldable pub touch_carry_weight_quick_resync_scheduled_since : ℕ → SyncState → SyncState
touch_carry_weight_quick_resync_scheduled_since now_ms state = record state {
  carry_weight_quick_resync = record state.carry_weight_quick_resync {
    scheduled_since_ms = now_ms;
  };
}

-- The load of the generation, and then the stores that clear the slot.
unfoldable pub complete_carry_weight_quick_resync_run : ℕ → SyncState → List SyncStore
unfolding is_current_generation
complete_carry_weight_quick_resync_run generation state =
    if not (is_current_generation generation state) then [] else clear_sync_slot carry_weight_slot
