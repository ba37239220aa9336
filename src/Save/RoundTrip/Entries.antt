-- ===== src/Save/RoundTrip/Entries.antt =====
-- src/SerializationLoad.cpp: the records that are lists, read back from the bytes of the writers.
use mathlib.Core.List.{reverse_aux, append_assoc, append-nil}
use codex_of_power_ng.Base.{
  ℕ, ◌*◌, ◌≡◌, ◌≤◌, Bool, true, false, none, some, List, [], ◌∷◌, ◌++◌, length, ltb, ◌==◌, refl,
  arith, ap, sym, subst, ◌∙◌, All,
}
use codex_of_power_ng.Base.Word.{IsU32}
use codex_of_power_ng.Base.Keyed.{NoRepeat, lookup, assign, member, Distinct}
use codex_of_power_ng.Rewards.Caps.{clamp_reward_total}
use codex_of_power_ng.State.{FormId, ActorValue, Float32}
use codex_of_power_ng.Save.Bytes.{Bytes, put32, get32-put32}
use codex_of_power_ng.Save.Format.{LoadEnv}
use codex_of_power_ng.Save.Writer.{pair_chunks, id_chunks}
use codex_of_power_ng.Save.Loader.Entries.{read_count, read_registered_v2, read_ids, read_totals}
use codex_of_power_ng.Save.RoundTrip.Chunks.{payload}

abbrev pub IsWordPair : ℕ × ℕ → Type 0
IsWordPair (a, b) = IsU32 a × IsU32 b

pub length-pair_chunks : (xs : List (ℕ × ℕ)) → length (payload (pair_chunks xs)) ≡ 8 * length xs
length-pair_chunks [] = refl
length-pair_chunks ((a, b) ∷ xs) = omega (arith, length-pair_chunks xs)

pub length-id_chunks : (xs : List ℕ) → length (payload (id_chunks xs)) ≡ 4 * length xs
length-id_chunks [] = refl
length-id_chunks (a ∷ xs) = omega (arith, length-id_chunks xs)

pub read-count :
    (len n : ℕ) (rest : Bytes)
    → 4 ≤ len
    → IsU32 n
    → read_count len (put32 n ++ rest) ≡ some (n, rest)
unfolding read_count
read-count len n rest l h =
    let fits : ltb len 4 ≡ false = ground arith in rw (fits, get32-put32 n rest h) refl

-- A container that is filled one entry after the other.
Distinct-later : (xs ys : List (ℕ × ℕ)) → Distinct (reverse_aux xs ys) → Distinct ys
Distinct-later [] ys d = d
Distinct-later (x ∷ xs) ys d = (Distinct-later xs (x ∷ ys) d).1

pub NoRepeat-later : (xs ys : List ℕ) → NoRepeat (reverse_aux xs ys) → NoRepeat ys
NoRepeat-later [] ys d = d
NoRepeat-later (x ∷ xs) ys d = (NoRepeat-later xs (x ∷ ys) d).1

module _ (env : LoadEnv) (same : (id : FormId) → env.resolve_form_id id ≡ some id) where
  pub read-registered :
      (items acc : List (FormId × ℕ)) (rest : Bytes)
      → All IsWordPair items
      → Distinct (reverse_aux items acc)
      → read_registered_v2 env (length items) (payload (pair_chunks items) ++ rest) acc
        ≡ some (reverse_aux items acc)
  unfolding read_registered_v2
  read-registered [] acc rest w d = refl
  read-registered ((k, g) ∷ items) acc rest w d =
      let fresh : lookup k acc ≡ none = (Distinct-later items ((k, g) ∷ acc) d).0 in
      let tail = put32 g ++ (payload (pair_chunks items) ++ rest) in
      rw
        (
          get32-put32 k tail w.0.0,
          get32-put32 g (payload (pair_chunks items) ++ rest) w.0.1,
          same k,
          fresh,
        )
        (read-registered items ((k, g) ∷ acc) rest w.1 d)

  pub read-ids :
      (ids acc : List FormId) (rest : Bytes)
      → All IsU32 ids
      → NoRepeat (reverse_aux ids acc)
      → read_ids env (length ids) (payload (id_chunks ids) ++ rest) acc ≡ some (reverse_aux ids acc)
  unfolding read_ids
  read-ids [] acc rest w d = refl
  read-ids (k ∷ ids) acc rest w d =
      let fresh : member k acc ≡ false = (NoRepeat-later ids (k ∷ acc) d).0 in
      rw (get32-put32 k (payload (id_chunks ids) ++ rest) w.0, same k, fresh)
        (read-ids ids (k ∷ acc) rest w.1 d)

pub assign_fresh :
    (k v : ℕ) (m : List (ℕ × ℕ)) → lookup k m ≡ none → assign k v m ≡ m ++ ((k, v) ∷ [])
assign_fresh k v [] h = refl
assign_fresh k v ((j, w) ∷ m) h = ground (arith, assign_fresh k v m)

-- The totals that a load takes over unchanged: supported and within their caps.
abbrev pub IsKept : LoadEnv → (ActorValue → Bool) → ActorValue × Float32 → Type 0
IsKept env supported (av, total) =
    (IsU32 av × IsU32 total)
    × ((supported av ≡ true) × (clamp_reward_total env.actor_values env.float_ops av total ≡ total))

lookup-later :
    (j k v : ℕ) (acc rest : List (ℕ × ℕ))
    → lookup j (acc ++ ((k, v) ∷ rest)) ≡ none
    → (k == j) ≡ false
lookup-later j k v [] rest e = ground arith
lookup-later j k v ((i, w) ∷ acc) rest e = ground (arith, lookup-later j k v acc rest)

-- What is behind the entries of a map has other keys.
Distinct-fresh :
    (acc : List (ℕ × ℕ)) (k v : ℕ) (rest : List (ℕ × ℕ))
    → Distinct (acc ++ ((k, v) ∷ rest))
    → lookup k acc ≡ none
Distinct-fresh [] k v rest d = refl
Distinct-fresh ((j, w) ∷ acc) k v rest d =
    ground (arith, lookup-later j k v acc rest d.0, Distinct-fresh acc k v rest d.1)

pub read-totals :
    (env : LoadEnv) (supported : ActorValue → Bool) (totals acc : List (ActorValue × Float32))
    (rest : Bytes)
    → All (IsKept env supported) totals
    → Distinct (acc ++ totals)
    → read_totals env supported (length totals) (payload (pair_chunks totals) ++ rest) acc
      ≡ some (acc ++ totals)
unfolding read_totals
read-totals env supported [] acc rest w d = ap some (sym (append-nil acc))
read-totals env supported ((k, t) ∷ totals) acc rest w d =
    let tail = put32 t ++ (payload (pair_chunks totals) ++ rest) in
    let assoc = append_assoc acc ((k, t) ∷ []) totals in
    rw
      (
        get32-put32 k tail w.0.0.0,
        get32-put32 t (payload (pair_chunks totals) ++ rest) w.0.0.1,
        w.0.1.0,
        w.0.1.1,
        assign_fresh k t acc (Distinct-fresh acc k t totals d),
      )
      (read-totals env supported totals (acc ++ ((k, t) ∷ [])) rest w.1
          (subst Distinct (sym assoc) d)
        ∙ ap some assoc)
