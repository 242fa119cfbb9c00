-- ===== src/Handler/Outcome/Swap.antt =====
-- What the handling of a swap does (src/index.ts, `handleEvent`, JUPITER_SWAP).
use clmm_copybot.Common.{
  ℕ, ◌<◌, ◌≡◌, refl, String, false, Option, none, some, [], ◌∷◌, arith, str_eq,
}
use clmm_copybot.Parser.{JupiterSwap}
use clmm_copybot.PendingSwaps.Executor.{usdc_mint}
use clmm_copybot.Ratios.{RatioOps, compute_swap_cap_raw}
use clmm_copybot.Handler.{Call, swap_token_to_usdc, called, Swapped, World, Env, Bot, start}
use clmm_copybot.Handler.Swap.{swapped, swap_capped, jupiter_swap_event}
use clmm_copybot.Handler.Shape.{silent, threw, copied, unreported, Has, if_rule, perform_rule}

module _ {S N R : Type 0} (env : Env S N R) (ops : RatioOps R) (wallet : String)
    (dex : Option String) (w : World S N R) (Asked : Call → Type 0) where
  abbrev Swaps : Bot S N R → Type 0
  Swaps = Has env w wallet dex none Asked

  answered :
      (e : JupiterSwap) (max_raw : ℕ) (pos : 0 < max_raw)
      (asked : Asked (swap_token_to_usdc e.input_mint max_raw)) (a : Option Swapped)
      (w' : World S N R)
      → (env (swap_token_to_usdc e.input_mint max_raw) w).0 ≡ some a
      → Swaps (
          swapped env ops wallet dex e a (record {
            world = w';
            effects = called (swap_token_to_usdc e.input_mint max_raw) ∷ [];
            thrown = false;
          }))
  answered e max_raw pos asked none w' h = record {
    shape = unreported (swap_token_to_usdc e.input_mint max_raw) w none [] pos asked h refl tt;
  }
  answered e max_raw pos asked (some r) w' h = record {
    shape =
        copied (swap_token_to_usdc e.input_mint max_raw) w (some r) _ _ pos asked h
          (refl, refl, refl) (refl, refl) (tt, (tt, tt));
  }

  capped :
      (e : JupiterSwap) (o : Option ℕ)
      → ((max_raw : ℕ) → o ≡ some max_raw → 0 < max_raw)
      → ((max_raw : ℕ) → Asked (swap_token_to_usdc e.input_mint max_raw))
      → Swaps (swap_capped env ops wallet dex e o (start w))
  capped e none h asked = record { shape = silent }
  capped e (some max_raw) h asked =
      perform_rule env Swaps (swap_token_to_usdc e.input_mint max_raw) (start w)
        (swapped env ops wallet dex e)
        (λ w' t. record { shape = threw _ w (h max_raw refl) (asked max_raw) t })
        (λ a w' t. answered e max_raw (h max_raw refl) (asked max_raw) a w' t)

  cap_pos :
      (raw : ℕ) (r : R) (max_raw : ℕ) → compute_swap_cap_raw ops raw r ≡ some max_raw → 0 < max_raw
  unfolding compute_swap_cap_raw
  cap_pos raw r max_raw h = ground arith

  pub jupiter_swap_event-Has :
      (e : JupiterSwap)
      → ((max_raw : ℕ) → Asked (swap_token_to_usdc e.input_mint max_raw))
      → Swaps (jupiter_swap_event env ops wallet dex e (start w))
  unfolding jupiter_swap_event
  jupiter_swap_event-Has e asked =
      if_rule Swaps (str_eq e.output_mint usdc_mint) _ _
        (λ usdc. capped e _ (cap_pos e.input_amount_raw _) asked)
        (λ other. record { shape = silent })
