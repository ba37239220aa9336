-- ===== src/Save/RoundTrip/History.antt =====
-- src/SerializationLoad.cpp: the record of the undo history, read back as a whole.
use mathlib.Core.List.{append_assoc, append-nil}
use codex_of_power_ng.Base.{
  ℕ, suc, ◌+◌, ◌-◌, ◌≡◌, ◌≤◌, ◌<◌, max, false, some, List, [], ◌∷◌, ◌++◌, length, length-append,
  ltb, refl, arith, ap, sym, subst, ◌∙◌, All,
}
use codex_of_power_ng.Base.Word.{IsU64}
use codex_of_power_ng.Registration.Store.{pop_back}
use codex_of_power_ng.Registration.Store.History.{trim_short}
use codex_of_power_ng.State.{FormId, UndoRecord, undo_history_limit}
use codex_of_power_ng.State.Snapshot.{Snapshot}
use codex_of_power_ng.Save.Bytes.{Bytes, put32, put64, get32, get64, get32-put32, get64-put64}
use codex_of_power_ng.Save.Format.{LoadEnv}
use codex_of_power_ng.Save.Writer.{size32, undo_entry_chunks, undo_entries_chunks, undo_chunks}
use codex_of_power_ng.Save.Loader.Undo.{
  read_undo_entry, read_undo_entries, push_resolved, undo_header_size, load_undo_history,
  least_next_id,
}
use codex_of_power_ng.Save.RoundTrip.Chunks.{payload, payload-append}
use codex_of_power_ng.Save.RoundTrip.Undo.{IsStoredUndo, length-undo_entry, read-undo_entry}

module _ (env : LoadEnv) (same : (id : FormId) → env.resolve_form_id id ≡ some id) where
  push-same :
      (r : UndoRecord) (history : List UndoRecord)
      → length history < undo_history_limit
      → push_resolved r (env.resolve_form_id r.reg_key) (env.resolve_form_id r.form_id) history
        ≡ history ++ (r ∷ [])
  push-same r history l =
      rw (same r.reg_key, same r.form_id)
        (trim_short (history ++ (r ∷ [])) (omega (arith, l, length-append history (r ∷ []))))

  read_undo_entries-step :
      (n remaining remaining' : ℕ) (bytes rest : Bytes) (r : UndoRecord) (history : List UndoRecord)
      → ltb remaining (undo_header_size 4) ≡ false
      → read_undo_entry env 4 remaining bytes ≡ some (r, (remaining', rest))
      → read_undo_entries env 4 (suc n) remaining bytes history
        ≡ read_undo_entries env 4 n remaining' rest (
            push_resolved r (env.resolve_form_id r.reg_key) (env.resolve_form_id r.form_id) history)
  unfolding read_undo_entries
  read_undo_entries-step n remaining remaining' bytes rest r history l e = rw (l, e) refl

  read-undo_entries :
      (rs history : List UndoRecord)
      → All (IsStoredUndo env) rs
      → length history + length rs ≤ undo_history_limit
      → read_undo_entries env 4
          (length rs)
          (length (payload (undo_entries_chunks rs)))
          (payload (undo_entries_chunks rs))
          history
        ≡ some (history ++ rs)
  unfolding read_undo_entries
  read-undo_entries [] history w l = ap some (sym (append-nil history))
  read-undo_entries (r ∷ rs) history w l =
      let body = payload (undo_entries_chunks rs) in
      let entry = payload (undo_entry_chunks r) in
      let split = payload-append (undo_entry_chunks r) (undo_entries_chunks rs) in
      let room : ltb (length entry + length body) (undo_header_size 4) ≡ false =
        ground (arith, length-undo_entry r) in
      ap (λ b. read_undo_entries env 4 (suc (length rs)) (length b) b history) split
      ∙ ap (λ n. read_undo_entries env 4 (suc (length rs)) n (entry ++ body) history)
          (length-append entry body)
      ∙ read_undo_entries-step (length rs) (length entry + length body) (length body)
          (entry ++ body) body r history room (read-undo_entry env r (length body) body w.0)
      ∙ ap (read_undo_entries env 4 (length rs) (length body) body)
          (push-same r history (omega (arith, l)))
      ∙ read-undo_entries rs (history ++ (r ∷ [])) w.1
          (omega (arith, l, length-append history (r ∷ [])))
      ∙ ap some (append_assoc history (r ∷ []) rs)

  -- A history as the store keeps it: at most ten records, whose ids are below the next one.
  undo-by_parts :
      (bytes r1 r2 : Bytes) (n next : ℕ) (t : Snapshot) (history : List UndoRecord)
      → ltb (length bytes) 12 ≡ false
      → get32 bytes ≡ some (n, r1)
      → get64 r1 ≡ some (next, r2)
      → read_undo_entries env 4 n (length bytes - 12) r2 [] ≡ some history
      → max next (least_next_id (pop_back history)) ≡ next
      → load_undo_history env 4 (length bytes) bytes t
        ≡ some (record t { undo_history = history; undo_next_action_id = next })
  unfolding load_undo_history
  undo-by_parts bytes r1 r2 n next t history l c d e m = rw (l, c, d, e, m) refl

  pub load-undo_history :
      (s t : Snapshot)
      → length s.undo_history ≤ undo_history_limit
      → All (IsStoredUndo env) s.undo_history
      → IsU64 s.undo_next_action_id
      → least_next_id (pop_back s.undo_history) ≤ s.undo_next_action_id
      → load_undo_history env 4 (length (payload (undo_chunks s))) (payload (undo_chunks s)) t
        ≡ some (record t {
          undo_history = s.undo_history;
          undo_next_action_id = s.undo_next_action_id;
        })
  load-undo_history s t l w n m =
      let rs = s.undo_history in
      let next = s.undo_next_action_id in
      let body = payload (undo_entries_chunks rs) in
      let bytes = put32 (length rs) ++ (put64 next ++ body) in
      let whole : size32 rs ≡ length rs = omega (arith, l) in
      let left : length bytes - 12 ≡ length body = omega arith in
      subst
        (λ k.
          load_undo_history env 4 (length (put32 k ++ (put64 next ++ body)))
            (put32 k ++ (put64 next ++ body)) t
          ≡ some (record t { undo_history = rs; undo_next_action_id = next }))
        (sym whole)
        (undo-by_parts bytes (put64 next ++ body) body (length rs) next t rs (ground arith)
          (get32-put32 (length rs) (put64 next ++ body) (omega (arith, l)))
          (get64-put64 next body n)
          (subst (λ k. read_undo_entries env 4 (length rs) k body [] ≡ some rs) (sym left)
            (read-undo_entries rs [] w (omega (arith, l))))
          (omega (arith, m)))
