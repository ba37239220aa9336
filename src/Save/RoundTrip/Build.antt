-- ===== src/Save/RoundTrip/Build.antt =====
-- src/SerializationLoad.cpp: the scores, the slots and the migration, read back.
use codex_of_power_ng.Base.{
  ◌%◌, ◌≡◌, ◌<◌, Bool, true, false, not, some, [], ◌++◌, length, ◌==◌, refl, arith,
}
use codex_of_power_ng.Base.Word.{IsU32}
use codex_of_power_ng.Build.Types.{BuildMigrationState, not_started, pending_cleanup, complete}
use codex_of_power_ng.State.Snapshot.{Snapshot}
use codex_of_power_ng.Save.Bytes.{put8, put32, get8-put8, get32-put32}
use codex_of_power_ng.Save.Writer.{
  build_scores_chunks, build_migration_chunks, raw_migration_state, raw_flag,
}
use codex_of_power_ng.Save.Loader.Build.{
  load_build_scores, load_build_migration, migration_state_of_byte,
}
use codex_of_power_ng.Save.RoundTrip.Chunks.{payload}

-- The totals of a snapshot are words.
abbrev pub HasWordScores : Snapshot → Type 0
HasWordScores s =
    (IsU32 s.attack_score × (IsU32 s.defense_score × IsU32 s.utility_score))
    × (IsU32 s.attack_build_points_centi
        × (IsU32 s.defense_build_points_centi × IsU32 s.utility_build_points_centi))

pub load-scores :
    (s t : Snapshot)
    → HasWordScores s
    → load_build_scores 2
        (length (payload (build_scores_chunks s)))
        (payload (build_scores_chunks s))
        t
      ≡ some (record t {
        attack_score = s.attack_score;
        defense_score = s.defense_score;
        utility_score = s.utility_score;
        attack_build_points_centi = s.attack_build_points_centi;
        defense_build_points_centi = s.defense_build_points_centi;
        utility_build_points_centi = s.utility_build_points_centi;
      })
unfolding load_build_scores
load-scores s t h =
    rw
      (
        get32-put32 s.attack_score
            (put32 s.defense_score
              ++ (put32 s.utility_score
                  ++ (put32 s.attack_build_points_centi
                      ++ (put32 s.defense_build_points_centi
                          ++ (put32 s.utility_build_points_centi ++ [])))))
            h.0.0,
        get32-put32 s.defense_score
            (put32 s.utility_score
              ++ (put32 s.attack_build_points_centi
                  ++ (put32 s.defense_build_points_centi
                      ++ (put32 s.utility_build_points_centi ++ []))))
            h.0.1.0,
        get32-put32 s.utility_score
            (put32 s.attack_build_points_centi
              ++ (put32 s.defense_build_points_centi ++ (put32 s.utility_build_points_centi ++ [])))
            h.0.1.1,
        get32-put32 s.attack_build_points_centi
            (put32 s.defense_build_points_centi ++ (put32 s.utility_build_points_centi ++ []))
            h.1.0,
        get32-put32 s.defense_build_points_centi (put32 s.utility_build_points_centi ++ []) h.1.1.0,
        get32-put32 s.utility_build_points_centi [] h.1.1.1,
      )
      refl

-- What a cast of a byte can give.
abbrev pub IsMigrationByte : BuildMigrationState → Type 0
IsMigrationByte (BuildMigrationState.other n) = (2 < n) × (n < 256)
IsMigrationByte _ = Unit

migration_state-byte :
    (st : BuildMigrationState)
    → IsMigrationByte st
    → migration_state_of_byte (raw_migration_state st % 256) ≡ st
migration_state-byte not_started h = refl
migration_state-byte pending_cleanup h = refl
migration_state-byte complete h = refl
migration_state-byte (BuildMigrationState.other n) h =
    let e : n % 256 ≡ n = omega (arith, h.1) in rw e (ground arith)

raw_migration_state-IsU32 :
    (st : BuildMigrationState) → IsMigrationByte st → IsU32 (raw_migration_state st)
raw_migration_state-IsU32 not_started h = omega arith
raw_migration_state-IsU32 pending_cleanup h = omega arith
raw_migration_state-IsU32 complete h = omega arith
raw_migration_state-IsU32 (BuildMigrationState.other n) h = omega (arith, h.1)

flag-byte : (b : Bool) → not (raw_flag b == 0) ≡ b
flag-byte true = refl
flag-byte false = refl

raw_flag-byte : (b : Bool) → raw_flag b < 256
raw_flag-byte true = omega arith
raw_flag-byte false = omega arith

pub load-migration :
    (s t : Snapshot)
    → IsU32 s.build_migration_version
    → IsMigrationByte s.build_migration_state
    → IsU32 s.build_migration_notice.unresolved_historical_registrations
    → load_build_migration 1
        (length (payload (build_migration_chunks s)))
        (payload (build_migration_chunks s))
        t
      ≡ some (record t {
        build_migration_version = s.build_migration_version;
        build_migration_state = s.build_migration_state;
        build_migration_notice = s.build_migration_notice;
      })
unfolding load_build_migration
load-migration s t v m u =
    let raw = raw_migration_state s.build_migration_state in
    let needs = raw_flag s.build_migration_notice.needs_notice in
    let migrated = raw_flag s.build_migration_notice.legacy_rewards_migrated in
    let n = s.build_migration_notice.unresolved_historical_registrations in
    rw
      (
        get32-put32 s.build_migration_version
            (put32 raw ++ (put8 needs ++ (put8 migrated ++ (put32 n ++ [])))) v,
        get32-put32 raw (put8 needs ++ (put8 migrated ++ (put32 n ++ [])))
            (raw_migration_state-IsU32 s.build_migration_state m),
        get8-put8 needs (put8 migrated ++ (put32 n ++ []))
            (raw_flag-byte s.build_migration_notice.needs_notice),
        get8-put8 migrated (put32 n ++ [])
            (raw_flag-byte s.build_migration_notice.legacy_rewards_migrated),
        get32-put32 n [] u,
        migration_state-byte s.build_migration_state m,
        flag-byte s.build_migration_notice.needs_notice,
        flag-byte s.build_migration_notice.legacy_rewards_migrated,
      )
      refl
