-- ===== src/Tests/Rewards.antt =====
-- The synchronisation of rewards at concrete inputs.
use codex_of_power_ng.Base.{◌+◌, ◌≡◌, ◌≤◌, true, false, List, [], ◌∷◌, refl, arith}
use codex_of_power_ng.Rewards.Sync.{
  SyncState, SyncSlotState, start_new_run, decide_reward_sync_request_action, try_start_reward_sync,
  bump_generation_and_clear_schedulers, is_current_generation, complete_reward_sync_run, perform,
}
use codex_of_power_ng.Rewards.Sync.Threads.{
  bump, start_reward, complete_reward, SyncThreads, SyncEvent, begins, resumes, begin, step, run,
  starts, count, freeings, endings, pending_freeings, next_store, drop_store,
}
use codex_of_power_ng.Rewards.Sync.Exclusion.{starts_bounded, bump-stale, decide_correct}

abbrev idle : SyncSlotState
idle = record { scheduled = false; rerun_requested = false; scheduled_since_ms = 0 }

abbrev initial_sync : SyncState
initial_sync = record { reward_sync = idle; carry_weight_quick_resync = idle; generation = 1 }

abbrev no_threads : SyncThreads
no_threads = record { state = initial_sync; pending = [] }

-- Of two requests before the completion only the first one starts a run; all stores are made.
abbrev events : List SyncEvent
events =
    begins (start_reward 10)
    ∷ resumes 0
    ∷ begins (start_reward 11)
    ∷ resumes 0
    ∷ begins (complete_reward 1)
    ∷ resumes 0
    ∷ begins (start_reward 12)
    ∷ []

starts_bounded_example : freeings events no_threads ≤ 0 + endings events no_threads
unfolding pending_freeings
starts_bounded_example = (starts_bounded events no_threads).1

-- The bump makes its six stores, and a new run starts.
abbrev new_run : List SyncEvent
new_run =
    resumes 0
    ∷ resumes 0
    ∷ resumes 0
    ∷ resumes 0
    ∷ resumes 0
    ∷ resumes 0
    ∷ begins (start_reward 30)
    ∷ resumes 0
    ∷ []

abbrev with_new_run : SyncState
with_new_run = (run new_run ((step (begins bump) no_threads).0)).state

-- Only a completion of the new generation gives the slot up, so the new run stays scheduled.
new_run_scheduled : with_new_run.reward_sync.scheduled ≡ true
unfolding run step begin bump_generation_and_clear_schedulers try_start_reward_sync next_store
    drop_store perform
new_run_scheduled = refl

bump-stale_example : begin (complete_reward 1) with_new_run ≡ ((with_new_run, []), false)
bump-stale_example = (bump-stale new_run no_threads 1 (omega arith) (omega arith)).0

-- But a completion that has read its generation before the bump makes its stores after the start,
-- and a second run starts beside the new one.
abbrev late_completion : List SyncEvent
late_completion =
    begins (complete_reward 1)
    ∷ begins bump
    ∷ resumes 0
    ∷ resumes 0
    ∷ resumes 0
    ∷ begins (start_reward 30)
    ∷ resumes 2
    ∷ begins (start_reward 31)
    ∷ []

late_completion-starts : starts late_completion no_threads ≡ 2
unfolding starts count step begin bump_generation_and_clear_schedulers try_start_reward_sync
    complete_reward_sync_run is_current_generation next_store drop_store perform
late_completion-starts = refl

decide_correct_example : decide_reward_sync_request_action 20 5 initial_sync ≡ start_new_run
unfolding try_start_reward_sync
decide_correct_example = (decide_correct 20 5 initial_sync).0.1 refl
