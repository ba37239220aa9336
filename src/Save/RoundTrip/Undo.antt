-- ===== src/Save/RoundTrip/Undo.antt =====
-- src/SerializationLoad.cpp: the entries of the undo history, read back from the bytes of the writer.
use mathlib.Core.List.{append_assoc, append-nil}
use codex_of_power_ng.Base.{
  ℕ, ◌+◌, ◌-◌, ◌*◌, ◌/◌, ◌%◌, ◌≡◌, ◌≤◌, ◌<◌, min, true, false, Option, none, some, List, [], ◌∷◌,
  ◌++◌, length, length-append, leb, refl, arith, ap, sym, ◌∙◌, All,
}
use codex_of_power_ng.Base.Int.{IsI32}
use codex_of_power_ng.Base.Word.{IsU32, IsU64}
use codex_of_power_ng.Build.Types.{BuildDiscipline}
use codex_of_power_ng.State.{UndoRecord, RewardDelta, BuildScoreContribution}
use codex_of_power_ng.Save.Bytes.{
  Bytes, put32, put64, get32-put32, get64-put64, bits_of_int, int-bits, bits_of_int-IsU32,
}
use codex_of_power_ng.Save.Format.{LoadEnv, max_serialized_undo_reward_deltas}
use codex_of_power_ng.Save.Writer.{
  size32, raw_discipline, contribution_chunks, delta_chunks, undo_entry_chunks,
}
use codex_of_power_ng.Save.Loader.Entries.{is_supported_reward_actor_value}
use codex_of_power_ng.Save.Loader.Undo.{
  discipline_of_byte, read_contribution, read_deltas, read_undo_entry,
}
use codex_of_power_ng.Save.RoundTrip.Chunks.{payload, payload-append}

-- What a cast of a byte can give.
abbrev pub IsDisciplineByte : BuildDiscipline → Type 0
IsDisciplineByte (BuildDiscipline.other n) = (2 < n) × (n < 256)
IsDisciplineByte _ = Unit

raw_discipline-IsU32 : (d : BuildDiscipline) → IsDisciplineByte d → IsU32 (raw_discipline d)
raw_discipline-IsU32 BuildDiscipline.attack h = omega arith
raw_discipline-IsU32 BuildDiscipline.defense h = omega arith
raw_discipline-IsU32 BuildDiscipline.utility h = omega arith
raw_discipline-IsU32 (BuildDiscipline.other n) h = omega (arith, h.1)

discipline-byte :
    (d : BuildDiscipline) → IsDisciplineByte d → discipline_of_byte (raw_discipline d % 256) ≡ d
discipline-byte BuildDiscipline.attack h = refl
discipline-byte BuildDiscipline.defense h = refl
discipline-byte BuildDiscipline.utility h = refl
discipline-byte (BuildDiscipline.other n) h =
    let e : n % 256 ≡ n = omega (arith, h.1) in rw e (ground arith)

abbrev pub IsContributionWords : Option BuildScoreContribution → Type 0
IsContributionWords none = Unit
IsContributionWords (some c) =
    IsDisciplineByte c.discipline × (IsI32 c.record_delta × IsI32 c.points_delta_centi)

read-contribution :
    (c : Option BuildScoreContribution) (rest : Bytes)
    → IsContributionWords c
    → read_contribution 4 (payload (contribution_chunks c) ++ rest) ≡ some (c, rest)
unfolding read_contribution
read-contribution none rest h =
    rw
      (
        get32-put32 0 (put32 0 ++ (put32 0 ++ (put32 0 ++ rest))) (omega arith),
        get32-put32 0 (put32 0 ++ (put32 0 ++ rest)) (omega arith),
        get32-put32 0 (put32 0 ++ rest) (omega arith),
        get32-put32 0 rest (omega arith),
      )
      refl
read-contribution (some c) rest h =
    let raw = raw_discipline c.discipline in
    let delta = bits_of_int c.record_delta in
    let points = bits_of_int c.points_delta_centi in
    rw
      (
        get32-put32 1 (put32 raw ++ (put32 delta ++ (put32 points ++ rest))) (omega arith),
        get32-put32 raw (put32 delta ++ (put32 points ++ rest))
            (raw_discipline-IsU32 c.discipline h.0),
        get32-put32 delta (put32 points ++ rest) (bits_of_int-IsU32 c.record_delta h.1.0),
        get32-put32 points rest (bits_of_int-IsU32 c.points_delta_centi h.1.1),
        discipline-byte c.discipline h.0,
        int-bits c.record_delta h.1.0,
        int-bits c.points_delta_centi h.1.1,
      )
      refl

abbrev pub IsKeptDelta : LoadEnv → RewardDelta → Type 0
IsKeptDelta env d =
    (IsU32 d.av × IsU32 d.delta) × (is_supported_reward_actor_value env.actor_values d.av ≡ true)

read-deltas :
    (env : LoadEnv) (ds acc : List RewardDelta) (j : ℕ) (rest : Bytes)
    → All (IsKeptDelta env) ds
    → j + length ds ≤ max_serialized_undo_reward_deltas
    → read_deltas env (length ds) j (payload (delta_chunks ds) ++ rest) acc ≡ some (acc ++ ds, rest)
unfolding read_deltas
read-deltas env [] acc j rest w l = ap (λ x. some (x, rest)) (sym (append-nil acc))
read-deltas env (d ∷ ds) acc j rest w l =
    let more = payload (delta_chunks ds) ++ rest in
    let room : leb max_serialized_undo_reward_deltas j ≡ false = ground arith in
    rw
      (
        get32-put32 d.av (put32 d.delta ++ more) w.0.0.0,
        get32-put32 d.delta more w.0.0.1,
        room,
        w.0.1,
      )
      (read-deltas env ds (acc ++ (d ∷ [])) (j + 1) rest w.1 (omega (arith, l))
        ∙ ap (λ x. some (x, rest)) (append_assoc acc (d ∷ []) ds))

abbrev pub IsStoredUndo : LoadEnv → UndoRecord → Type 0
IsStoredUndo env r =
    (IsU64 r.action_id × (IsU32 r.form_id × (IsU32 r.reg_key × IsU32 r.group)))
    × (IsContributionWords r.build_contribution
        × (All (IsKeptDelta env) r.reward_deltas
            × (length r.reward_deltas ≤ max_serialized_undo_reward_deltas)))

length-contribution :
    (c : Option BuildScoreContribution) → length (payload (contribution_chunks c)) ≡ 16
length-contribution none = refl
length-contribution (some c) = refl

length-deltas : (ds : List RewardDelta) → length (payload (delta_chunks ds)) ≡ 8 * length ds
length-deltas [] = refl
length-deltas (d ∷ ds) = omega (arith, length-deltas ds)

payload-undo_entry :
    (r : UndoRecord) (rest : Bytes)
    → length r.reward_deltas ≤ max_serialized_undo_reward_deltas
    → payload (undo_entry_chunks r) ++ rest
      ≡ put64 r.action_id
        ++ (put32 r.form_id
            ++ (put32 r.reg_key
                ++ (put32 r.group
                    ++ (payload (contribution_chunks r.build_contribution)
                        ++ (put32 (length r.reward_deltas)
                            ++ (payload (delta_chunks r.reward_deltas) ++ rest))))))
payload-undo_entry r rest l =
    let c = contribution_chunks r.build_contribution in
    let ds = r.reward_deltas in
    let whole : size32 ds ≡ length ds = omega (arith, l) in
    rw
      (
        whole,
        payload-append c (put32 (length ds) ∷ delta_chunks ds),
        append_assoc (payload c) (put32 (length ds) ++ payload (delta_chunks ds)) rest,
      )
      refl

pub length-undo_entry :
    (r : UndoRecord) → length (payload (undo_entry_chunks r)) ≡ 40 + 8 * length r.reward_deltas
length-undo_entry r =
    let c = contribution_chunks r.build_contribution in
    let ds = r.reward_deltas in
    let behind = put32 (size32 ds) ∷ delta_chunks ds in
    let split = ap length (payload-append c behind) ∙ length-append (payload c) (payload behind) in
    omega (arith, split, length-contribution r.build_contribution, length-deltas ds)

pub read-undo_entry :
    (env : LoadEnv) (r : UndoRecord) (remaining : ℕ) (rest : Bytes)
    → IsStoredUndo env r
    → read_undo_entry env 4
        (length (payload (undo_entry_chunks r)) + remaining)
        (payload (undo_entry_chunks r) ++ rest)
      ≡ some (r, (remaining, rest))
unfolding read_undo_entry
read-undo_entry env r remaining rest h =
    let ds = r.reward_deltas in
    let n = length ds in
    let deltas = payload (delta_chunks ds) ++ rest in
    let r6 = put32 n ++ deltas in
    let r5 = payload (contribution_chunks r.build_contribution) ++ r6 in
    let r3 = put32 r.group ++ r5 in
    let r2 = put32 r.reg_key ++ r3 in
    let r1 = put32 r.form_id ++ r2 in
    let readable : min n ((40 + 8 * n + remaining - 40) / 8) ≡ n = ground arith in
    let left : 40 + 8 * n + remaining - 40 - 8 * n ≡ remaining = omega arith in
    rw
      (
        payload-undo_entry r rest h.1.1.1,
        length-undo_entry r,
        get64-put64 r.action_id r1 h.0.0,
        get32-put32 r.form_id r2 h.0.1.0,
        get32-put32 r.reg_key r3 h.0.1.1.0,
        get32-put32 r.group r5 h.0.1.1.1,
        read-contribution r.build_contribution r6 h.1.0,
        get32-put32 n deltas (omega (arith, h.1.1.1)),
        readable,
        read-deltas env ds [] 0 rest h.1.1.0 (omega (arith, h.1.1.1)),
        left,
      )
      refl
