-- ===== src/Save/Loader/Undo.antt =====
-- src/SerializationLoad.cpp: the record of the undo history, in its versions 2, 3 and 4.
use codex_of_power_ng.Base.{
  ℕ, zero, suc, ◌+◌, ◌-◌, ◌*◌, ◌/◌, ◌%◌, max, min, not, Option, none, some, List, [], ◌∷◌, ◌++◌,
  ltb, leb, ◌==◌, ◌>>=◌, if◌then◌else◌,
}
use codex_of_power_ng.Base.Int.{ℤ, pos, scale}
use codex_of_power_ng.Base.Word.{add64}
use codex_of_power_ng.Build.Types.{BuildDiscipline}
use codex_of_power_ng.Registration.Store.{trim, pop_back}
use codex_of_power_ng.State.{FormId, UndoRecord, RewardDelta, BuildScoreContribution}
use codex_of_power_ng.State.Snapshot.{Snapshot}
use codex_of_power_ng.Save.Bytes.{Bytes, get32, get64, int_of_bits}
use codex_of_power_ng.Save.Format.{LoadEnv, max_serialized_undo_reward_deltas}
use codex_of_power_ng.Save.Loader.Entries.{is_supported_reward_actor_value}

abbrev pub legacy_points_per_record : BuildDiscipline → ℕ
legacy_points_per_record BuildDiscipline.attack = 60
legacy_points_per_record BuildDiscipline.defense = 35
legacy_points_per_record BuildDiscipline.utility = 10
legacy_points_per_record (BuildDiscipline.other n) = 0

abbrev pub legacy_undo_points_delta_for_discipline : BuildDiscipline → ℤ → ℤ
legacy_undo_points_delta_for_discipline discipline record_delta =
    scale (legacy_points_per_record discipline) record_delta

-- The cast to the enumeration keeps the lowest byte.
abbrev pub discipline_of_byte : ℕ → BuildDiscipline
discipline_of_byte n =
    if n == 0
    then BuildDiscipline.attack
    else if n == 1
    then BuildDiscipline.defense
    else if n == 2
    then BuildDiscipline.utility
    else BuildDiscipline.other n

-- The points are stored from version 4 on.
abbrev pub read_points_delta : ℕ → Bytes → Option (ℤ × Bytes)
read_points_delta version bytes =
    if leb 4 version
    then (do (bits, rest) ← get32 bytes; some (int_of_bits bits, rest))
    else some (pos 0, bytes)

abbrev pub contribution_of : ℕ → ℕ → BuildDiscipline → ℤ → ℤ → Option BuildScoreContribution
contribution_of version has_contribution d record_delta points =
    if has_contribution == 0
    then none
    else some (record {
      discipline = d;
      record_delta = record_delta;
      points_delta_centi =
          if version == 3 then legacy_undo_points_delta_for_discipline d record_delta else points;
    })

unfoldable pub read_contribution : ℕ → Bytes → Option (Option BuildScoreContribution × Bytes)
read_contribution version bytes =
    if leb 3 version
    then (do
      (has_contribution, r1) ← get32 bytes
      (raw, r2) ← get32 r1
      (delta, r3) ← get32 r2
      (points, r4) ← read_points_delta version r3
      some (
        contribution_of version has_contribution (discipline_of_byte (raw % 256))
            (int_of_bits delta) points,
        r4,
      ))
    else some (none, bytes)

-- The sizes of an entry's header: without its contribution, and with the reward count.
abbrev pub undo_header_base_size : ℕ
undo_header_base_size = 20

abbrev pub contribution_size : ℕ → ℕ
contribution_size version = if leb 3 version then if version == 3 then 12 else 16 else 0

abbrev pub undo_header_size : ℕ → ℕ
undo_header_size version = undo_header_base_size + contribution_size version + 4

-- `j` counts the deltas read; from the 64th on they are read and dropped.
abbrev pub keep_delta : LoadEnv → ℕ → ℕ → ℕ → List RewardDelta → List RewardDelta
keep_delta env j av delta deltas =
    if leb max_serialized_undo_reward_deltas j
    then deltas
    else if not (is_supported_reward_actor_value env.actor_values av)
    then deltas
    else deltas ++ (record { av = av; delta = delta } ∷ [])

unfoldable pub read_deltas :
    LoadEnv → ℕ → ℕ → Bytes → List RewardDelta → Option (List RewardDelta × Bytes)
read_deltas env zero j bytes deltas = some (deltas, bytes)
read_deltas env (suc n) j bytes deltas = do
  (av, rest) ← get32 bytes
  (delta, rest') ← get32 rest
  read_deltas env n (j + 1) rest' (keep_delta env j av delta deltas)

-- One entry: what is stored of it, before its forms are resolved; what remains; the bytes behind.
unfoldable pub read_undo_entry : LoadEnv → ℕ → ℕ → Bytes → Option (UndoRecord × (ℕ × Bytes))
unfolding read_contribution read_deltas
read_undo_entry env version remaining bytes = do
  (action_id, r1) ← get64 bytes
  (form_id, r2) ← get32 r1
  (reg_key, r3) ← get32 r2
  (group, r4) ← get32 r3
  (contribution, r5) ← read_contribution version r4
  (reward_count, r6) ← get32 r5
  let left = remaining - undo_header_size version
  let readable = min reward_count (left / 8)
  (deltas, r7) ← read_deltas env readable 0 r6 []
  some (
    record {
      action_id = action_id;
      form_id = form_id;
      reg_key = reg_key;
      group = group;
      build_contribution = contribution;
      reward_deltas = deltas;
    },
    (left - 8 * readable, r7),
  )

-- An entry with a form that the load order does not have is left out.
abbrev pub push_resolved :
    UndoRecord → Option FormId → Option FormId → List UndoRecord → List UndoRecord
push_resolved r (some reg_key) (some form_id) history =
    trim (history ++ (record r { reg_key = reg_key; form_id = form_id } ∷ []))
push_resolved r _ _ history = history

unfoldable pub read_undo_entries :
    LoadEnv → ℕ → ℕ → ℕ → Bytes → List UndoRecord → Option (List UndoRecord)
unfolding read_undo_entry
read_undo_entries env version zero remaining bytes history = some history
read_undo_entries env version (suc n) remaining bytes history =
    if ltb remaining (undo_header_size version) then some history else (do
      (r, (remaining', rest)) ← read_undo_entry env version remaining bytes
      read_undo_entries env version n remaining' rest
          (push_resolved r (env.resolve_form_id r.reg_key) (env.resolve_form_id r.form_id) history))

-- `back().actionId + 1`, or 1 for an empty history.
abbrev pub least_next_id : Option (List UndoRecord × UndoRecord) → ℕ
least_next_id none = 1
least_next_id (some (front, last)) = add64 last.action_id 1

unfoldable pub load_undo_history : LoadEnv → ℕ → ℕ → Bytes → Snapshot → Option Snapshot
unfolding read_undo_entries pop_back
load_undo_history env version length bytes s = if ltb length 12 then none else (do
  (count, r1) ← get32 bytes
  (next_action_id, r2) ← get64 r1
  history ← read_undo_entries env version count (length - 12) r2 []
  some (record s {
    undo_history = history;
    undo_next_action_id = max next_action_id (least_next_id (pop_back history));
  }))
