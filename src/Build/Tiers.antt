-- ===== src/Build/Tiers.antt =====
-- src/BuildOptionCatalog.cpp: tiers of build points, in 32-bit arithmetic.
use codex_of_power_ng.Base.{ℕ, ◌+◌, ◌/◌, ◌%◌, ◌≤◌, ◌<◌, ◌≡◌, ◌↔◌, arith}
use codex_of_power_ng.Base.Word.{add32, mul32, sub32, IsU32}
use codex_of_power_ng.Build.Types.{build_points_per_tier_centi}

unfoldable pub get_build_points_tier : ℕ → ℕ
get_build_points_tier points_centi = points_centi / build_points_per_tier_centi

unfoldable pub get_next_build_points_threshold_centi : ℕ → ℕ
unfolding get_build_points_tier
get_next_build_points_threshold_centi points_centi =
    mul32 (add32 (get_build_points_tier points_centi) 1) build_points_per_tier_centi

unfoldable pub get_build_points_to_next_tier_centi : ℕ → ℕ
unfolding get_next_build_points_threshold_centi
get_build_points_to_next_tier_centi points_centi =
    sub32 (get_next_build_points_threshold_centi points_centi) points_centi

-- The largest multiple of a tier that 32 bits hold.
abbrev pub last_threshold : ℕ
last_threshold = 4294967200

-- Below the last multiple of a tier, the next threshold is a multiple of 800 above the points, and
-- the least one; adding what `to_next` says gets there, and that is between 1 and 800; and its tier
-- is the next one.
pub next_tier_correct :
    (p : ℕ)
    → p < last_threshold
    → let next = get_next_build_points_threshold_centi p in
      (p < next)
      × (next % 800 ≡ 0)
      × ((q : ℕ) → p < q → q % 800 ≡ 0 → next ≤ q)
      × (p + get_build_points_to_next_tier_centi p ≡ next)
      × (1 ≤ get_build_points_to_next_tier_centi p)
      × (get_build_points_to_next_tier_centi p ≤ 800)
      × (get_build_points_tier next ≡ get_build_points_tier p + 1)
unfolding get_build_points_to_next_tier_centi
next_tier_correct p h = (
  omega arith,
  omega arith,
  λ q above multiple. omega arith,
  omega arith,
  omega arith,
  omega arith,
  omega arith,
)

-- For a 32-bit total the next threshold lies above the points exactly below the last multiple of a
-- tier: from there on the product wraps round.
pub next_threshold_above_iff :
    (p : ℕ) → IsU32 p → (p < get_next_build_points_threshold_centi p) ↔ (p < last_threshold)
unfolding get_next_build_points_threshold_centi
next_threshold_above_iff p h = (λ q. omega arith, λ q. omega arith)
