-- ===== src/Save/Bytes.antt =====
-- The bytes of numbers as `WriteRecordData` and `ReadRecordData` copy them: little-endian, and a
-- signed word in two's complement. A byte is a number below 256.
use codex_of_power_ng.Base.{
  ℕ, ◌+◌, ◌-◌, ◌*◌, ◌/◌, ◌%◌, ◌<◌, ◌≡◌, Option, none, some, List, [], ◌∷◌, ◌++◌, ltb, if◌then◌else◌,
  arith, ap,
}
use codex_of_power_ng.Base.Int.{ℤ, pos, negsuc, IsI32}
use codex_of_power_ng.Base.Word.{IsU32, IsU64}

abbrev pub Bytes : Type 0
Bytes = List ℕ

abbrev pub put8 : ℕ → Bytes
put8 n = n % 256 ∷ []

abbrev pub put32 : ℕ → Bytes
put32 n = n % 256 ∷ n / 256 % 256 ∷ n / 65536 % 256 ∷ n / 16777216 % 256 ∷ []

abbrev pub put64 : ℕ → Bytes
put64 n = put32 (n % 0x1_0000_0000) ++ put32 (n / 0x1_0000_0000)

-- The bits of a signed word.
abbrev pub bits_of_int : ℤ → ℕ
bits_of_int (pos n) = n
bits_of_int (negsuc n) = 0xffff_ffff - n

abbrev pub int_of_bits : ℕ → ℤ
int_of_bits b = if ltb b 0x8000_0000 then pos b else negsuc (0xffff_ffff - b)

-- A read gives the value and what is behind it; none is a short read.
unfoldable pub get8 : Bytes → Option (ℕ × Bytes)
get8 [] = none
get8 (a ∷ rest) = some (a, rest)

unfoldable pub get32 : Bytes → Option (ℕ × Bytes)
get32 (a ∷ b ∷ c ∷ d ∷ rest) = some (a + 256 * b + 65536 * c + 16777216 * d, rest)
get32 _ = none

join64 : ℕ → Option (ℕ × Bytes) → Option (ℕ × Bytes)
join64 low none = none
join64 low (some (high, rest)) = some (low + 0x1_0000_0000 * high, rest)

then64 : Option (ℕ × Bytes) → Option (ℕ × Bytes)
unfolding get32 join64
then64 none = none
then64 (some (low, rest)) = join64 low (get32 rest)

unfoldable pub get64 : Bytes → Option (ℕ × Bytes)
unfolding get32 then64
get64 bytes = then64 (get32 bytes)

pub get8-put8 : (n : ℕ) (rest : Bytes) → n < 256 → get8 (put8 n ++ rest) ≡ some (n, rest)
unfolding get8
get8-put8 n rest h = ap (λ x. some (x, rest)) (omega (arith, h))

pub get32-put32 : (n : ℕ) (rest : Bytes) → IsU32 n → get32 (put32 n ++ rest) ≡ some (n, rest)
unfolding get32
get32-put32 n rest h = ap (λ x. some (x, rest)) (omega (arith, h))

pub get64-put64 : (n : ℕ) (rest : Bytes) → IsU64 n → get64 (put64 n ++ rest) ≡ some (n, rest)
unfolding get64 then64 join64
get64-put64 n rest h = ap (λ x. some (x, rest)) (omega (arith, h))

pub int-bits : (i : ℤ) → IsI32 i → int_of_bits (bits_of_int i) ≡ i
int-bits i h = ground arith

pub bits_of_int-IsU32 : (i : ℤ) → IsI32 i → IsU32 (bits_of_int i)
bits_of_int-IsU32 i h = ground arith
