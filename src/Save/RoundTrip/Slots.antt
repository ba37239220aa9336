-- ===== src/Save/RoundTrip/Slots.antt =====
-- src/SerializationLoad.cpp: the texts of the active slots, read back.
use mathlib.Core.List.{append-nil}
use codex_of_power_ng.Base.{
  ℕ, suc, ◌+◌, ◌-◌, ◌≡◌, ◌≤◌, false, none, some, List, [], ◌∷◌, ◌++◌, length, length-append,
  take-append, drop-append, String, ltb, ◌==◌, if◌then◌else◌, refl, arith, ap, sym, subst, ◌∙◌,
}
use codex_of_power_ng.Build.Slots.{Slots, no_slots}
use codex_of_power_ng.State.Snapshot.{Snapshot}
use codex_of_power_ng.Save.Bytes.{Bytes, put32, get32-put32}
use codex_of_power_ng.Save.Format.{LoadEnv, TextCodec, max_serialized_build_slot_string_length}
use codex_of_power_ng.Save.Writer.{size32, string_chunks, build_slots_chunks}
use codex_of_power_ng.Save.Loader.Entries.{read_count}
use codex_of_power_ng.Save.Loader.Build.{
  load_build_slots, read_text, read_string, read_slots, set_index, cut,
}
use codex_of_power_ng.Save.RoundTrip.Chunks.{payload, payload-append}
use codex_of_power_ng.Save.RoundTrip.Entries.{read-count}

-- A text that the record holds without being cut, and that its bytes give back.
abbrev pub IsStored : TextCodec → String → Type 0
IsStored codec t =
    (codec.decode (codec.encode t) ≡ t)
    × (length (codec.encode t) ≤ max_serialized_build_slot_string_length)

payload-string_chunks :
    (b : Bytes)
    → length b ≤ max_serialized_build_slot_string_length
    → payload (string_chunks b) ≡ put32 (length b) ++ b
payload-string_chunks [] l = refl
payload-string_chunks (x ∷ b) l =
    let whole : size32 (x ∷ b) ≡ length (x ∷ b) = omega (arith, l) in
    ap (λ t. put32 (size32 (x ∷ b)) ++ (x ∷ t)) (append-nil b) ∙ ap (λ n. put32 n ++ (x ∷ b)) whole

cut-short : (b : Bytes) → length b ≤ max_serialized_build_slot_string_length → cut (length b) b ≡ b
cut-short b l =
    let s : ltb max_serialized_build_slot_string_length (length b) ≡ false = ground arith in
    rw (s) refl

read_text-whole :
    (codec : TextCodec) (b : Bytes) (remaining : ℕ) (rest : Bytes)
    → length b ≤ max_serialized_build_slot_string_length
    → read_text codec (4 + length b + remaining) (length b) (b ++ rest)
      ≡ some (codec.decode b, (remaining, rest))
read_text-whole codec b remaining rest l =
    let fits : ltb (length (b ++ rest)) (length b) ≡ false = ground (arith, length-append b rest) in
    let left : 4 + length b + remaining - 4 - length b ≡ remaining = omega arith in
    rw (fits, take-append b rest, drop-append b rest, cut-short b l, left) refl

read-bytes :
    (codec : TextCodec) (b : Bytes) (remaining : ℕ) (rest : Bytes)
    → length b ≤ max_serialized_build_slot_string_length
    → read_string codec (4 + length b + remaining) (payload (string_chunks b) ++ rest)
      ≡ some (codec.decode b, (remaining, rest))
unfolding read_string
read-bytes codec b remaining rest l =
    let short : ltb (4 + length b + remaining) 4 ≡ false = ground arith in
    let fits : ltb (4 + length b + remaining - 4) (length b) ≡ false = ground arith in
    rw (payload-string_chunks b l, short, get32-put32 (length b) (b ++ rest) (omega (arith, l)))
      (let step : (if ltb (4 + length b + remaining - 4) (length b)
              then none
              else read_text codec (4 + length b + remaining) (length b) (b ++ rest))
            ≡ some (codec.decode b, (remaining, rest)) =
          rw (fits) (read_text-whole codec b remaining rest l) in
        step)

length-bytes :
    (b : Bytes)
    → length b ≤ max_serialized_build_slot_string_length
    → length (payload (string_chunks b)) ≡ 4 + length b
length-bytes b l = ap length (payload-string_chunks b l) ∙ omega arith

-- One round of the loop over the slots.
read-slot :
    (codec : TextCodec) (t : String) (n i remaining : ℕ) (rest : Bytes) (slots : Slots)
    → IsStored codec t
    → read_slots codec
        (suc n)
        i
        (length (payload (string_chunks (codec.encode t))) + remaining)
        (payload (string_chunks (codec.encode t)) ++ rest)
        slots
      ≡ read_slots codec n (i + 1) remaining rest (set_index i t slots)
unfolding read_slots
read-slot codec t n i remaining rest slots h =
    let b = codec.encode t in
    let some_left : ((4 + length b + remaining) == 0) ≡ false = ground arith in
    rw (length-bytes b h.1, some_left, read-bytes codec b remaining rest h.1, h.0) refl

abbrev slot_bytes : TextCodec → String → Bytes
slot_bytes codec t = payload (string_chunks (codec.encode t))

read_slots-done :
    (codec : TextCodec) (i remaining : ℕ) (rest : Bytes) (slots : Slots)
    → read_slots codec 0 i remaining rest slots ≡ some slots
unfolding read_slots
read_slots-done codec i remaining rest slots = refl

-- The six texts one after the other, with their lengths.
read-six_slots :
    (codec : TextCodec) (a b c d e f : String)
    → IsStored codec a
    → IsStored codec b
    → IsStored codec c
    → IsStored codec d
    → IsStored codec e
    → IsStored codec f
    → let at : String → ℕ = λ t. length (slot_bytes codec t) in
      let text = slot_bytes codec in
      read_slots codec 6 0
        (at a + (at b + (at c + (at d + (at e + (at f + 0))))))
        (text a ++ (text b ++ (text c ++ (text d ++ (text e ++ (text f ++ []))))))
        no_slots
      ≡ some (record { at0 = a; at1 = b; at2 = c; at3 = d; at4 = e; at5 = f })
read-six_slots codec a b c d e f ha hb hc hd he hf =
    let at : String → ℕ = λ t. length (slot_bytes codec t) in
    let text = slot_bytes codec in
    let s0 : Slots = no_slots in
    let s1 = set_index 0 a s0 in
    let s2 = set_index 1 b s1 in
    let s3 = set_index 2 c s2 in
    let s4 = set_index 3 d s3 in
    let s5 = set_index 4 e s4 in
    read-slot codec a 5 0 (at b + (at c + (at d + (at e + (at f + 0)))))
      (text b ++ (text c ++ (text d ++ (text e ++ (text f ++ []))))) s0 ha
    ∙ read-slot codec b 4 1 (at c + (at d + (at e + (at f + 0))))
        (text c ++ (text d ++ (text e ++ (text f ++ [])))) s1 hb
    ∙ read-slot codec c 3 2 (at d + (at e + (at f + 0))) (text d ++ (text e ++ (text f ++ []))) s2
        hc
    ∙ read-slot codec d 2 3 (at e + (at f + 0)) (text e ++ (text f ++ [])) s3 hd
    ∙ read-slot codec e 1 4 (at f + 0) (text f ++ []) s4 he
    ∙ read-slot codec f 0 5 0 [] s5 hf
    ∙ read_slots-done codec 6 0 [] (set_index 5 f s5)

abbrev pub IsStoredSlots : TextCodec → Slots → Type 0
IsStoredSlots codec s =
    (IsStored codec s.at0 × (IsStored codec s.at1 × IsStored codec s.at2))
    × (IsStored codec s.at3 × (IsStored codec s.at4 × IsStored codec s.at5))

payload-slots :
    (codec : TextCodec) (s : Snapshot)
    → let text = slot_bytes codec in
      let v = s.active_build_slots in
      payload (build_slots_chunks codec s)
      ≡ put32 6
        ++ (text v.at0
            ++ (text v.at1 ++ (text v.at2 ++ (text v.at3 ++ (text v.at4 ++ (text v.at5 ++ []))))))
payload-slots codec s =
    let chunks : String → List Bytes = λ t. string_chunks (codec.encode t) in
    let v = s.active_build_slots in
    let c5 = chunks v.at5 in
    let c4 = chunks v.at4 ++ c5 in
    let c3 = chunks v.at3 ++ c4 in
    let c2 = chunks v.at2 ++ c3 in
    let c1 = chunks v.at1 ++ c2 in
    rw
      (
        payload-append (chunks v.at0) c1,
        payload-append (chunks v.at1) c2,
        payload-append (chunks v.at2) c3,
        payload-append (chunks v.at3) c4,
        payload-append (chunks v.at4) c5,
        append-nil (payload c5),
      )
      refl

length-two : (xs ys : Bytes) (n : ℕ) → length ys ≡ n → length (xs ++ ys) ≡ length xs + n
length-two xs ys n e = length-append xs ys ∙ ap (λ k. length xs + k) e

length-slots :
    (codec : TextCodec) (a b c d e f : String)
    → let at : String → ℕ = λ t. length (slot_bytes codec t) in
      let text = slot_bytes codec in
      length (put32 6 ++ (text a ++ (text b ++ (text c ++ (text d ++ (text e ++ (text f ++ [])))))))
        - 4
      ≡ at a + (at b + (at c + (at d + (at e + (at f + 0)))))
length-slots codec a b c d e f =
    let text = slot_bytes codec in
    let lf = length-two (text f) [] 0 refl in
    let le = length-two (text e) _ _ lf in
    let ld = length-two (text d) _ _ le in
    let lc = length-two (text c) _ _ ld in
    let lb = length-two (text b) _ _ lc in omega (arith, length-two (text a) _ _ lb)

load_build_slots-by_parts :
    (env : LoadEnv) (len : ℕ) (bytes rest : Bytes) (slots : Slots) (t : Snapshot)
    → read_count len bytes ≡ some (6, rest)
    → read_slots env.codec 6 0 (len - 4) rest no_slots ≡ some slots
    → load_build_slots env 1 len bytes t ≡ some (record t { active_build_slots = slots })
unfolding load_build_slots
load_build_slots-by_parts env len bytes rest slots t c r = rw (c, r) refl

pub load-slots :
    (env : LoadEnv) (s t : Snapshot)
    → IsStoredSlots env.codec s.active_build_slots
    → load_build_slots env 1
        (length (payload (build_slots_chunks env.codec s)))
        (payload (build_slots_chunks env.codec s))
        t
      ≡ some (record t { active_build_slots = s.active_build_slots })
load-slots env s t h =
    let v = s.active_build_slots in
    let text = slot_bytes env.codec in
    let rest =
      text v.at0
      ++ (text v.at1 ++ (text v.at2 ++ (text v.at3 ++ (text v.at4 ++ (text v.at5 ++ []))))) in
    let whole = put32 6 ++ rest in
    let slots =
      read-six_slots env.codec v.at0 v.at1 v.at2 v.at3 v.at4 v.at5 h.0.0 h.0.1.0 h.0.1.1 h.1.0
        h.1.1.0 h.1.1.1 in
    let same = length-slots env.codec v.at0 v.at1 v.at2 v.at3 v.at4 v.at5 in
    subst
      (λ bytes.
        load_build_slots env 1 (length bytes) bytes t ≡ some (record t { active_build_slots = v }))
      (sym (payload-slots env.codec s))
      (load_build_slots-by_parts env (length whole) whole rest v t
        (read-count (length whole) 6 rest (ground arith) (omega arith))
        (subst (λ n. read_slots env.codec 6 0 n rest no_slots ≡ some v) (sym same) slots))
