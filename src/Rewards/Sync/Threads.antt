-- ===== src/Rewards/Sync/Threads.antt =====
-- include/CodexOfPowerNG/RewardsSyncRuntime.h: the threads that call its functions, one atomic access
-- at a time, in any order.
use codex_of_power_ng.Base.{
  ℕ, ◌+◌, ◌-◌, Bool, true, false, not, ◌==◌, List, [], ◌∷◌, Option, none, some, if◌then◌else◌,
}
use codex_of_power_ng.Rewards.Sync.{
  SyncState, SyncStore, store_scheduled, reward_slot, perform, bump_generation_and_clear_schedulers,
  mark_reward_sync_rerun_requested, consume_reward_sync_rerun_requested, try_start_reward_sync,
  touch_reward_sync_scheduled_since, complete_reward_sync_run,
  mark_carry_weight_quick_resync_rerun_requested, consume_carry_weight_quick_resync_rerun_requested,
  try_start_carry_weight_quick_resync, touch_carry_weight_quick_resync_scheduled_since,
  complete_carry_weight_quick_resync_run,
}

-- The functions that the threads call.
pub data SyncCall : Type 0 where
  bump : SyncCall
  mark_reward consume_reward : SyncCall
  start_reward touch_reward complete_reward : ℕ → SyncCall
  mark_carry consume_carry : SyncCall
  start_carry touch_carry complete_carry : ℕ → SyncCall

-- The first access of a call: the state after it, the stores still to make, and whether the call
-- starts a reward sync run.
unfoldable pub begin : SyncCall → SyncState → (SyncState × List SyncStore) × Bool
begin bump s = ((bump_generation_and_clear_schedulers s).0, false)
begin mark_reward s = ((mark_reward_sync_rerun_requested s, []), false)
begin consume_reward s = (((consume_reward_sync_rerun_requested s).0, []), false)
begin (start_reward now) s = try_start_reward_sync now s
begin (touch_reward now) s = ((touch_reward_sync_scheduled_since now s, []), false)
begin (complete_reward g) s = ((s, complete_reward_sync_run g s), false)
begin mark_carry s = ((mark_carry_weight_quick_resync_rerun_requested s, []), false)
begin consume_carry s = (((consume_carry_weight_quick_resync_rerun_requested s).0, []), false)
begin (start_carry now) s = ((try_start_carry_weight_quick_resync now s).0, false)
begin (touch_carry now) s = ((touch_carry_weight_quick_resync_scheduled_since now s, []), false)
begin (complete_carry g) s = ((s, complete_carry_weight_quick_resync_run g s), false)

-- The shared state, and of every call that began the stores still to make, the last call first.
pub record SyncThreads : Type 0 where
  pub state : SyncState
  pub pending : List (List SyncStore)

-- A thread begins a call, or the call at a position makes its next store.
pub data SyncEvent : Type 0 where
  begins : SyncCall → SyncEvent
  resumes : ℕ → SyncEvent

abbrev pub head_store : List SyncStore → Option SyncStore
head_store [] = none
head_store (store ∷ rest) = some store

abbrev pub tail_stores : List SyncStore → List SyncStore
tail_stores [] = []
tail_stores (store ∷ rest) = rest

unfoldable pub next_store : ℕ → List (List SyncStore) → Option SyncStore
next_store n [] = none
next_store n (call ∷ calls) = if n == 0 then head_store call else next_store (n - 1) calls

unfoldable pub drop_store : ℕ → List (List SyncStore) → List (List SyncStore)
drop_store n [] = []
drop_store n (call ∷ calls) =
    if n == 0 then tail_stores call ∷ calls else call ∷ drop_store (n - 1) calls

abbrev pub perform_next : Option SyncStore → SyncState → SyncState
perform_next none s = s
perform_next (some store) s = perform store s

-- The threads after an event, and whether it started a reward sync run.
unfoldable pub step : SyncEvent → SyncThreads → SyncThreads × Bool
step (begins call) c =
    let begun = begin call c.state in
    (record { state = begun.0.0; pending = begun.0.1 ∷ c.pending }, begun.1)
step (resumes n) c = (
  record {
    state = perform_next (next_store n c.pending) c.state;
    pending = drop_store n c.pending;
  },
  false,
)

-- Whether an event begins the end of a run: a bump, or a completion that names the current
-- generation.
unfoldable pub ends : SyncEvent → SyncState → Bool
ends (begins bump) s = true
ends (begins (complete_reward g)) s = g == s.generation
ends _ s = false

-- The store that makes the slot of the reward sync free.
abbrev pub is_freeing : Option SyncStore → Bool
is_freeing (some (store_scheduled reward_slot false)) = true
is_freeing _ = false

unfoldable pub frees : SyncEvent → SyncThreads → Bool
frees (begins call) c = false
frees (resumes n) c = is_freeing (next_store n c.pending)

abbrev pub one : Bool → ℕ
one true = 1
one false = 0

-- How many events have a property, in the states in which they come.
unfoldable pub count : (SyncEvent → SyncThreads → Bool) → List SyncEvent → SyncThreads → ℕ
count test [] c = 0
count test (e ∷ es) c = one (test e c) + count test es ((step e c).0)

unfoldable pub starts : List SyncEvent → SyncThreads → ℕ
starts = count (λ e c. (step e c).1)

unfoldable pub freeings : List SyncEvent → SyncThreads → ℕ
freeings = count frees

unfoldable pub endings : List SyncEvent → SyncThreads → ℕ
endings = count (λ e c. ends e c.state)

abbrev pub free : SyncState → ℕ
free s = one (not s.reward_sync.scheduled)

-- The freeing stores that calls which have begun will still make.
unfoldable pub freeings_of : List SyncStore → ℕ
freeings_of [] = 0
freeings_of (store ∷ rest) = one (is_freeing (some store)) + freeings_of rest

unfoldable pub pending_freeings : List (List SyncStore) → ℕ
pending_freeings [] = 0
pending_freeings (call ∷ calls) = freeings_of call + pending_freeings calls

-- The threads after a list of events.
unfoldable pub run : List SyncEvent → SyncThreads → SyncThreads
unfolding step
run [] c = c
run (e ∷ es) c = run es ((step e c).0)
