-- ===== src/Save/RoundTrip/Chunks.antt =====
-- src/SerializationSave.cpp: what is in the file when the save reports success.
use codex_of_power_ng.Base.{
  ℕ, ◌+◌, ◌≡◌, Bool, true, false, List, [], ◌∷◌, ◌++◌, length, length-append, refl, arith, ap, sym,
  subst, ◌∙◌, Bool-cases, inl, inr,
}
use mathlib.Core.Bool.{true≢false}
use mathlib.Core.List.{append_assoc, append-nil}
use codex_of_power_ng.State.Snapshot.{Snapshot}
use codex_of_power_ng.Save.Bytes.{Bytes}
use codex_of_power_ng.Save.Format.{
  SavedRecord, TextCodec, serialization_version, undo_record_version, record_registered_items,
  record_blocked_items, record_notified_items, record_rewards, record_undo_history,
  record_build_scores, record_build_slots, record_build_migration, record_build_applied_effects,
}
use codex_of_power_ng.Save.Writer.{
  CoSave, extend, extend_last, open_record, write_data, write_chunks, write_record, and_then_write,
  save, registered_chunks, blocked_chunks, notified_chunks, build_scores_chunks, build_slots_chunks,
  build_migration_chunks, build_applied_effects_chunks, rewards_chunks, undo_chunks,
}

abbrev pub payload : List Bytes → Bytes
payload [] = []
payload (c ∷ cs) = c ++ payload cs

pub payload-append : (xs ys : List Bytes) → payload (xs ++ ys) ≡ payload xs ++ payload ys
payload-append [] ys = refl
payload-append (c ∷ xs) ys =
    ap (λ t. c ++ t) (payload-append xs ys) ∙ sym (append_assoc c (payload xs) (payload ys))

-- A record with all its bytes.
abbrev pub whole_record : ℕ → ℕ → List Bytes → SavedRecord
whole_record t v chunks = record {
  record_type = t;
  version = v;
  announced = length (payload chunks);
  content = payload chunks;
}

-- The file that a save means to write.
abbrev pub saved_records : TextCodec → Snapshot → List SavedRecord
saved_records codec s =
    whole_record record_registered_items serialization_version (registered_chunks s)
    ∷ whole_record record_blocked_items serialization_version (blocked_chunks s)
    ∷ whole_record record_notified_items serialization_version (notified_chunks s)
    ∷ whole_record record_build_scores 2 (build_scores_chunks s)
    ∷ whole_record record_build_slots 1 (build_slots_chunks codec s)
    ∷ whole_record record_build_migration 1 (build_migration_chunks s)
    ∷ whole_record record_build_applied_effects 1 (build_applied_effects_chunks s)
    ∷ whole_record record_rewards serialization_version (rewards_chunks s)
    ∷ whole_record record_undo_history undo_record_version (undo_chunks s)
    ∷ []

extend_last-append :
    (rs : List SavedRecord) (r : SavedRecord) (b : Bytes)
    → extend_last (rs ++ (r ∷ [])) b ≡ rs ++ (extend r b ∷ [])
extend_last-append [] r b = refl
extend_last-append (x ∷ []) r b = refl
extend_last-append (x ∷ y ∷ rs) r b = ap (λ l. x ∷ l) (extend_last-append (y ∷ rs) r b)

extend-extend : (r : SavedRecord) (a b : Bytes) → extend (extend r a) b ≡ extend r (a ++ b)
extend-extend r a b =
    let l : r.announced + length a + length b ≡ r.announced + length (a ++ b) =
      omega (arith, length-append a b) in
    rw (l, append_assoc r.content a b) refl

extend-nil : (r : SavedRecord) → extend r [] ≡ r
extend-nil r =
    let l : r.announced + 0 ≡ r.announced = omega arith in rw (l, append-nil r.content) refl

module _ (accepts : ℕ → Bool) where
  write_chunks-closed :
      (chunks : List Bytes) (w : CoSave) → (write_chunks accepts chunks (w, false)).1 ≡ false
  unfolding write_chunks
  write_chunks-closed [] w = refl
  write_chunks-closed (c ∷ cs) w = refl

  write_data-accepted :
      (c : Bytes) (w : CoSave)
      → accepts w.calls ≡ true
      → write_data accepts c w
        ≡ (record { records = extend_last w.records c; calls = w.calls + 1 }, true)
  unfolding write_data
  write_data-accepted c w t = rw t refl

  write_data-refused :
      (c : Bytes) (w : CoSave)
      → accepts w.calls ≡ false
      → write_data accepts c w ≡ (record w { calls = w.calls + 1 }, false)
  unfolding write_data
  write_data-refused c w t = rw t refl

  write_chunks_complete :
      (chunks : List Bytes) (w : CoSave) (rs : List SavedRecord) (r : SavedRecord)
      → w.records ≡ rs ++ (r ∷ [])
      → (write_chunks accepts chunks (w, true)).1 ≡ true
      → (write_chunks accepts chunks (w, true)).0.records ≡ rs ++ (extend r (payload chunks) ∷ [])
  unfolding write_chunks
  write_chunks_complete [] w rs r e h = e ∙ ap (λ x. rs ++ (x ∷ [])) (sym (extend-nil r))
  write_chunks_complete (c ∷ cs) w rs r e h = elim (Bool-cases (accepts w.calls)) [
    | inl t ↦
        let d = write_data-accepted c w t in
        let w' : CoSave = record { records = extend_last w.records c; calls = w.calls + 1 } in
        ap (λ p. (write_chunks accepts cs p).0.records) d
        ∙ write_chunks_complete cs w' rs (extend r c)
            (ap (λ l. extend_last l c) e ∙ extend_last-append rs r c)
            (subst (λ p. (write_chunks accepts cs p).1 ≡ true) d h)
        ∙ ap (λ x. rs ++ (x ∷ [])) (extend-extend r c (payload cs))
    | inr f ↦
        let d = write_data-refused c w f in
        let closed = write_chunks-closed cs (record w { calls = w.calls + 1 }) in
        absurd (true≢false (sym h ∙ ap (λ p. (write_chunks accepts cs p).1) d ∙ closed))
  ]

  abbrev opened : ℕ → ℕ → CoSave → CoSave
  opened t v w = record {
    records =
        w.records ++ (record { record_type = t; version = v; announced = 0; content = [] } ∷ []);
    calls = w.calls + 1;
  }

  open_record-accepted :
      (t v : ℕ) (w : CoSave)
      → accepts w.calls ≡ true
      → open_record accepts t v w ≡ (opened t v w, true)
  unfolding open_record
  open_record-accepted t v w a = rw a refl

  open_record-refused :
      (t v : ℕ) (w : CoSave)
      → accepts w.calls ≡ false
      → open_record accepts t v w ≡ (record w { calls = w.calls + 1 }, false)
  unfolding open_record
  open_record-refused t v w a = rw a refl

  write_record_complete :
      (t v : ℕ) (chunks : List Bytes) (w : CoSave)
      → (write_record accepts t v chunks w).1 ≡ true
      → (write_record accepts t v chunks w).0.records ≡ w.records ++ (whole_record t v chunks ∷ [])
  unfolding write_record
  write_record_complete t v chunks w h = elim (Bool-cases (accepts w.calls)) [
    | inl a ↦
        let d = open_record-accepted t v w a in
        let empty : SavedRecord = record {
          record_type = t;
          version = v;
          announced = 0;
          content = [];
        } in
        let n : 0 + length (payload chunks) ≡ length (payload chunks) = omega arith in
        ap (λ p. (write_chunks accepts chunks p).0.records) d
        ∙ write_chunks_complete chunks (opened t v w) w.records empty refl
            (subst (λ p. (write_chunks accepts chunks p).1 ≡ true) d h)
        ∙ ap
            (λ k.
              w.records
              ++ (record { record_type = t; version = v; announced = k; content = payload chunks }
                  ∷ []))
            n
    | inr f ↦
        let d = open_record-refused t v w f in
        let closed = write_chunks-closed chunks (record w { calls = w.calls + 1 }) in
        absurd (true≢false (sym h ∙ ap (λ p. (write_chunks accepts chunks p).1) d ∙ closed))
  ]

  and_then-all_ok :
      (t v : ℕ) (chunks : List Bytes) (acc : CoSave × Bool)
      → (and_then_write accepts t v chunks acc).1 ≡ true
      → acc.1 ≡ true
  unfolding and_then_write
  and_then-all_ok t v chunks acc h = ground arith

  and_then_complete :
      (t v : ℕ) (chunks : List Bytes) (acc : CoSave × Bool) (rs : List SavedRecord)
      → acc.0.records ≡ rs
      → (and_then_write accepts t v chunks acc).1 ≡ true
      → (and_then_write accepts t v chunks acc).0.records ≡ rs ++ (whole_record t v chunks ∷ [])
  unfolding and_then_write
  and_then_complete t v chunks acc rs e h =
      let ok : (write_record accepts t v chunks (acc.0)).1 ≡ true = ground arith in
      write_record_complete t v chunks (acc.0) ok ∙ ap (λ l. l ++ (whole_record t v chunks ∷ [])) e

  -- Whatever calls the interface refuses: if the save reports no failure, then the file holds
  -- all nine records, each of them whole.
  pub save_complete :
      (codec : TextCodec) (s : Snapshot)
      → (save accepts codec s).1 ≡ true
      → (save accepts codec s).0.records ≡ saved_records codec s
  unfolding save
  save_complete codec s h =
      let start : CoSave × Bool = (record { records = []; calls = 0 }, true) in
      let w1 =
        and_then_write accepts record_registered_items serialization_version (registered_chunks s)
          start in
      let w2 =
        and_then_write accepts record_blocked_items serialization_version (blocked_chunks s) w1 in
      let w3 =
        and_then_write accepts record_notified_items serialization_version (notified_chunks s) w2 in
      let w4 = and_then_write accepts record_build_scores 2 (build_scores_chunks s) w3 in
      let w5 = and_then_write accepts record_build_slots 1 (build_slots_chunks codec s) w4 in
      let w6 = and_then_write accepts record_build_migration 1 (build_migration_chunks s) w5 in
      let w7 =
        and_then_write accepts record_build_applied_effects 1 (build_applied_effects_chunks s) w6 in
      let w8 = and_then_write accepts record_rewards serialization_version (rewards_chunks s) w7 in
      let w9 = and_then_write accepts record_undo_history undo_record_version (undo_chunks s) w8 in
      let h8 = and_then-all_ok record_undo_history undo_record_version (undo_chunks s) w8 h in
      let h7 = and_then-all_ok record_rewards serialization_version (rewards_chunks s) w7 h8 in
      let h6 =
        and_then-all_ok record_build_applied_effects 1 (build_applied_effects_chunks s) w6 h7 in
      let h5 = and_then-all_ok record_build_migration 1 (build_migration_chunks s) w5 h6 in
      let h4 = and_then-all_ok record_build_slots 1 (build_slots_chunks codec s) w4 h5 in
      let h3 = and_then-all_ok record_build_scores 2 (build_scores_chunks s) w3 h4 in
      let h2 =
        and_then-all_ok record_notified_items serialization_version (notified_chunks s) w2 h3 in
      let h1 =
        and_then-all_ok record_blocked_items serialization_version (blocked_chunks s) w1 h2 in
      let e1 =
        and_then_complete record_registered_items serialization_version (registered_chunks s) start
          _ refl h1 in
      let e2 =
        and_then_complete record_blocked_items serialization_version (blocked_chunks s) w1 _ e1
          h2 in
      let e3 =
        and_then_complete record_notified_items serialization_version (notified_chunks s) w2 _ e2
          h3 in
      let e4 = and_then_complete record_build_scores 2 (build_scores_chunks s) w3 _ e3 h4 in
      let e5 = and_then_complete record_build_slots 1 (build_slots_chunks codec s) w4 _ e4 h5 in
      let e6 = and_then_complete record_build_migration 1 (build_migration_chunks s) w5 _ e5 h6 in
      let e7 =
        and_then_complete record_build_applied_effects 1 (build_applied_effects_chunks s) w6 _ e6
          h7 in
      let e8 =
        and_then_complete record_rewards serialization_version (rewards_chunks s) w7 _ e7 h8 in
      and_then_complete record_undo_history undo_record_version (undo_chunks s) w8 _ e8 h
