-- ===== src/Ratios/Bounds.antt =====
-- Bounds on scaled amounts (src/utils/ratio.ts).
use clmm_copybot.Common.{
  ℕ, ◌+◌, ◌*◌, ◌/◌, ◌≤◌, ◌<◌, ◌≡◌, ◌⊎◌, refl, none, some, arith, Bool-cases, inl, inr, ltb,
}
use clmm_copybot.Ratios.{RatioOps, scale_amount, compute_swap_cap_raw}

module _ {R : Type 0} (ops : RatioOps R) where
  -- A swap is skipped exactly if the target's amount, scaled, is below one raw unit; otherwise its
  -- cap is positive, and is the scaled amount rounded down.
  pub compute_swap_cap_raw_lem :
      (raw : ℕ) (ratio : R)
      → ((compute_swap_cap_raw ops raw ratio ≡ none) × (raw * ops.bps ratio < 10000))
        ⊎ ((cap : ℕ) × (compute_swap_cap_raw ops raw ratio ≡ some cap)
            × (0 < cap)
            × (cap * 10000 ≤ raw * ops.bps ratio)
            × (raw * ops.bps ratio < cap * 10000 + 10000))
  unfolding compute_swap_cap_raw
  compute_swap_cap_raw_lem raw ratio =
      let scaled : ℕ = (raw * ops.bps ratio) / 10000 in
      elim (Bool-cases (ltb 0 scaled)) [
        | inl some_left ↦ inr (scaled, rw some_left refl, ground arith, omega arith, omega arith)
        | inr nothing ↦ inl (rw nothing refl, ground arith)
      ]

  -- An amount that is scaled in two parts comes to what it comes to as a whole, or to one raw
  -- unit less; and a ratio of at most 1 never scales an amount up.
  pub scale_amount_parts :
      (a b : ℕ) (ratio : R)
      → ops.bps ratio ≤ 10000
      → (scale_amount ops a ratio + scale_amount ops b ratio ≤ scale_amount ops (a + b) ratio)
        × (scale_amount ops (a + b) ratio ≤ scale_amount ops a ratio + scale_amount ops b ratio + 1)
        × (scale_amount ops a ratio ≤ a)
  unfolding scale_amount
  scale_amount_parts a b ratio small = elim (Bool-cases (ops.is_one ratio)) [
    | inl whole ↦ rw whole (omega arith, omega arith, omega arith)
    | inr part ↦
        let k : ℕ = ops.bps ratio in
        let both : (a + b) * k ≡ a * k + b * k = grind arith in
        let below : a * k ≤ a * 10000 = grind arith in
        rw part (rw both (omega arith, omega arith, omega arith))
  ]
