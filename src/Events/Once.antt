-- ===== src/Events/Once.antt =====
-- src/Events.cpp: an item is announced once, and messages keep their distance.
use codex_of_power_ng.Base.{
  ℕ, ◌+◌, ◌≡◌, ◌≢◌, ◌≤◌, ◌<◌, All, ◌⊎◌, inl, inr, true, false, List, [], ◌∷◌, arith, sym, subst, ap,
  ◌∙◌, Bool-cases,
}
use mathlib.Core.Bool.{true≢false as true-ne-false}
use codex_of_power_ng.Base.Word.{add64, u64_max}
use codex_of_power_ng.Base.Keyed.{member}
use codex_of_power_ng.State.{FormId}
use codex_of_power_ng.Events.{
  World, ContainerEvent, EventState, decide_loot_notify, contains_any, mark_pair, is_discoverable,
  get_register_key_id, notify_item, process_event, notify_throttle_ms,
}

-- The events that come after, each with the world in which it comes.
unfoldable pub run_events : List (World × ContainerEvent) → EventState → EventState
unfolding process_event
run_events [] s = s
run_events ((w, e) ∷ rest) s = run_events rest ((process_event w e s).0)

mark_pair-grows :
    (l : List FormId) (a b x : FormId) → member x l ≡ true → member x (mark_pair l a b) ≡ true
unfolding mark_pair
mark_pair-grows l a b x h = ground arith

mark_pair-second : (l : List FormId) (a b : FormId) → b ≢ 0 → member b (mark_pair l a b) ≡ true
unfolding mark_pair
mark_pair-second l a b h = ground arith

notify_inv :
    (w : World) (b : FormId) (s : EventState)
    → (notify_item w b s).1 ≡ true
    → let after = (notify_item w b s).0 in
      (w.game.is_form b ≡ true)
      × ((after.runtime.notified_items
            ≡ mark_pair s.runtime.notified_items (get_register_key_id w b) b)
          × ((after.last_notify_ms ≡ w.now_ms)
              × ((member b s.runtime.notified_items ≡ false)
                  × ((s.last_notify_ms ≡ 0)
                      ⊎ (add64 s.last_notify_ms notify_throttle_ms ≤ w.now_ms)))))
unfolding notify_item is_discoverable contains_any decide_loot_notify
notify_inv w b s h = ground arith

notify_item-grows :
    (w : World) (b x : FormId) (s : EventState)
    → member x s.runtime.notified_items ≡ true
    → member x ((notify_item w b s).0.runtime.notified_items) ≡ true
unfolding notify_item
notify_item-grows w b x s h =
    ground (arith, mark_pair-grows s.runtime.notified_items (get_register_key_id w b) b x h)

process_event-grows :
    (w : World) (e : ContainerEvent) (x : FormId) (s : EventState)
    → member x s.runtime.notified_items ≡ true
    → member x ((process_event w e s).0.runtime.notified_items) ≡ true
unfolding process_event
process_event-grows w e x s h = ground (arith, notify_item-grows w e.base_obj x s h)

run_events-grows :
    (later : List (World × ContainerEvent)) (x : FormId) (s : EventState)
    → member x s.runtime.notified_items ≡ true
    → member x ((run_events later s).runtime.notified_items) ≡ true
unfolding run_events
run_events-grows [] x s h = h
run_events-grows ((w, e) ∷ rest) x s h =
    run_events-grows rest x ((process_event w e s).0) (process_event-grows w e x s h)

-- Only the end of the handler shows a message.
process_event-notify_item :
    (w : World) (e : ContainerEvent) (s : EventState)
    → (process_event w e s).1 ≡ true
    → process_event w e s ≡ notify_item w e.base_obj s
unfolding process_event
process_event-notify_item w e s h = ground arith

known_stays_silent :
    (w : World) (e : ContainerEvent) (s : EventState)
    → member e.base_obj s.runtime.notified_items ≡ true
    → (process_event w e s).1 ≡ false
known_stays_silent w e s h = elim (Bool-cases ((process_event w e s).1)) [
  | inl t ↦
      let same = process_event-notify_item w e s t in
      let i = notify_inv w e.base_obj s (subst (λ p. p.1 ≡ true) same t) in ground arith
  | inr f ↦ f
]

-- Once a looted item was announced, no later event announces the same item again, whatever events
-- come in between and however the clock, the settings and the game change. The null id is no form.
pub announced_once :
    (w w' : World) (e e' : ContainerEvent) (later : List (World × ContainerEvent)) (s : EventState)
    → w.game.is_form 0 ≡ false
    → e'.base_obj ≡ e.base_obj
    → (process_event w e s).1 ≡ true
    → (process_event w' e' (run_events later ((process_event w e s).0))).1 ≡ false
announced_once w w' e e' later s z q t =
    let same = process_event-notify_item w e s t in
    let i = notify_inv w e.base_obj s (subst (λ p. p.1 ≡ true) same t) in
    let valid : e.base_obj ≢ 0 = λ n. true-ne-false (sym i.0 ∙ ap w.game.is_form n ∙ z) in
    let marked =
      mark_pair-second s.runtime.notified_items (get_register_key_id w e.base_obj) e.base_obj
        valid in
    let known : member e'.base_obj ((process_event w e s).0.runtime.notified_items) ≡ true =
      rw (same, i.1.0, q) marked in
    known_stays_silent w' e' (run_events later ((process_event w e s).0))
      (run_events-grows later e'.base_obj ((process_event w e s).0) known)

-- The recorded time is at least a given one, and not within 750 ms of the end of 64 bits.
abbrev pub IsPast : ℕ → ℕ → Type 0
IsPast since now = (since ≤ now) × (now + notify_throttle_ms ≤ u64_max)

-- An event leaves the time of the last message alone, or sets it to its own time.
process_event-last :
    (w : World) (e : ContainerEvent) (s : EventState)
    → let last = (process_event w e s).0.last_notify_ms in
      (last ≡ s.last_notify_ms) ⊎ (last ≡ w.now_ms)
unfolding process_event notify_item
process_event-last w e s = ground arith

process_event-IsPast :
    (since : ℕ) (w : World) (e : ContainerEvent) (s : EventState)
    → IsPast since w.now_ms
    → IsPast since s.last_notify_ms
    → IsPast since ((process_event w e s).0.last_notify_ms)
process_event-IsPast since w e s now h = elim (process_event-last w e s) [
  | inl same ↦ subst (IsPast since) (sym same) h
  | inr mine ↦ subst (IsPast since) (sym mine) now
]

run_events-IsPast :
    (since : ℕ) (later : List (World × ContainerEvent)) (s : EventState)
    → All (λ event. IsPast since event.0.now_ms) later
    → IsPast since s.last_notify_ms
    → IsPast since ((run_events later s).last_notify_ms)
unfolding run_events
run_events-IsPast since [] s times h = h
run_events-IsPast since ((w, e) ∷ rest) s times h =
    run_events-IsPast since rest ((process_event w e s).0) times.1
      (process_event-IsPast since w e s times.0 h)

spaced :
    (since last now : ℕ)
    → 0 < since
    → IsPast since last
    → (last ≡ 0) ⊎ (add64 last notify_throttle_ms ≤ now)
    → since + 750 ≤ now
spaced since last now z p (inl e) = absurd (omega (arith, p.0))
spaced since last now z p (inr h) = omega (arith, p.0, p.1, h)

-- Of two events that each show a message, with any events in between, the second comes at least
-- 750 ms after the first one: where the first one's time is not 0, no event in between has an
-- earlier time than the first one, and no time of these is within 750 ms of the end of 64 bits.
pub announced_apart :
    (w w' : World) (e e' : ContainerEvent) (later : List (World × ContainerEvent)) (s : EventState)
    → 0 < w.now_ms
    → w.now_ms + notify_throttle_ms ≤ u64_max
    → All (λ event. IsPast w.now_ms event.0.now_ms) later
    → (process_event w e s).1 ≡ true
    → (process_event w' e' (run_events later ((process_event w e s).0))).1 ≡ true
    → w.now_ms + 750 ≤ w'.now_ms
announced_apart w w' e e' later s started b times first second =
    let same = process_event-notify_item w e s first in
    let i = notify_inv w e.base_obj s (subst (λ p. p.1 ≡ true) same first) in
    let recorded : (process_event w e s).0.last_notify_ms ≡ w.now_ms = rw same i.1.1.0 in
    let before = run_events later ((process_event w e s).0) in
    let past : IsPast w.now_ms before.last_notify_ms =
      run_events-IsPast w.now_ms later ((process_event w e s).0) times
        (subst (IsPast w.now_ms) (sym recorded) (omega arith, b)) in
    let j =
      notify_inv w' e'.base_obj before
        (subst (λ p. p.1 ≡ true) (process_event-notify_item w' e' before second) second) in
    spaced w.now_ms before.last_notify_ms w'.now_ms started past j.1.1.1.1
