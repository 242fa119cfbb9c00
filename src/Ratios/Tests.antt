-- ===== src/Ratios/Tests.antt =====
-- Runs of the ratios, and their theorems at concrete ones. A ratio is given by its ten thousandths.
use clmm_copybot.Common.{ℕ, ◌+◌, ◌*◌, ◌≤◌, ◌<◌, ◌≡◌, ◌⊎◌, refl, none, some, [], ◌∷◌, ◌==◌}
use clmm_copybot.Common.Dict.{dict}
use clmm_copybot.Ratios.{RatioOps, get_amount_ratio, scale_amount, compute_swap_cap_raw}
use clmm_copybot.Ratios.Bounds.{compute_swap_cap_raw_lem}

abbrev tenths : RatioOps ℕ
tenths = record { is_one = λ r. r == 10000; bps = λ r. r }

ratio_tests :
    (get_amount_ratio {R = ℕ} (("W", 500) ∷ []) 10000 (some "W") ≡ 500)
    × (get_amount_ratio {R = ℕ} (("W", 500) ∷ []) 10000 (some "") ≡ 10000)
    × (scale_amount tenths 12345 10000 ≡ 12345)
    × (scale_amount tenths 12345 500 ≡ 617)
    × (compute_swap_cap_raw tenths 19 500 ≡ none)
    × (compute_swap_cap_raw tenths 20 500 ≡ some 1)
unfolding dict get_amount_ratio scale_amount compute_swap_cap_raw
ratio_tests = (refl, refl, refl, refl, refl, refl)

compute_swap_cap_raw_lem_example :
    ((compute_swap_cap_raw tenths 20 500 ≡ none) × (20 * 500 < 10000))
    ⊎ ((cap : ℕ) × (compute_swap_cap_raw tenths 20 500 ≡ some cap)
        × (0 < cap)
        × (cap * 10000 ≤ 20 * 500)
        × (20 * 500 < cap * 10000 + 10000))
compute_swap_cap_raw_lem_example = compute_swap_cap_raw_lem tenths 20 500
