-- ===== src/Ratios.antt =====
-- The ratios by which a target's amounts are scaled: src/utils/ratio.ts.
-- `R` is JavaScript's number. A ratio enters an amount only as the whole number of its ten
-- thousandths, `Math.floor(ratio * 10000)`, which the configuration keeps from being negative.
pub mod Bounds
mod Tests
use clmm_copybot.Common.{
  ℕ, ◌*◌, ◌/◌, String, Bool, Option, none, some, List, ltb, if◌then◌else◌, is_text,
}
use clmm_copybot.Common.Dict.{lookup}

-- The operations on a number that the code uses: `x === 1.0` and `Math.floor(x * 10000)`.
pub record RatioOps (R : Type 0) : Type 0 where
  pub is_one : R → Bool
  pub bps : R → ℕ

abbrev pub or_global : {R : Type 0} → R → Option R → R
or_global amount_ratio none = amount_ratio
or_global amount_ratio (some r) = r

-- The ratio of a wallet, or that of all.
unfoldable pub get_amount_ratio : {R : Type 0} → List (String × R) → R → Option String → R
get_amount_ratio wallet_amount_ratios amount_ratio none = amount_ratio
get_amount_ratio wallet_amount_ratios amount_ratio (some wallet) =
    if is_text wallet
    then or_global amount_ratio (lookup wallet wallet_amount_ratios)
    else amount_ratio

module _ {R : Type 0} (ops : RatioOps R) where
  unfoldable pub scale_amount : ℕ → R → ℕ
  scale_amount amount ratio = if ops.is_one ratio then amount else (amount * ops.bps ratio) / 10000

  abbrev positive : ℕ → Option ℕ
  positive scaled = if ltb 0 scaled then some scaled else none

  -- `none`, null, says that the swap is to be skipped. A missing amount is 0.
  unfoldable pub compute_swap_cap_raw : ℕ → R → Option ℕ
  compute_swap_cap_raw input_amount_raw ratio =
      positive ((input_amount_raw * ops.bps ratio) / 10000)
