-- ===== src/Handler/Swap.antt =====
-- A swap of the target on Jupiter (src/index.ts, `handleEvent`, JUPITER_SWAP).
use clmm_copybot.Common.{ℕ, String, true, Option, none, some, if◌then◌else◌, str_eq, concat}
use clmm_copybot.Common.Dict.{lookup}
use clmm_copybot.Parser.{JupiterSwap}
use clmm_copybot.PendingSwaps.Executor.{usdc_mint}
use clmm_copybot.Ratios.{RatioOps, compute_swap_cap_raw, or_global}
use clmm_copybot.Handler.{
  swap_token_to_usdc, Swapped, logged, swap_logged, caches_invalidated, Config, Env, Bot, emit,
  perform,
}

-- The ratio of the wallet at the first venue that has one, or that of all: a chain of `??`.
unfoldable pub wallet_ratio : {R : Type 0} → String → Config R → R
wallet_ratio wallet c =
    or_global
      (or_global
        (or_global
          (or_global (or_global c.amount_ratio (lookup wallet c.wallet_amount_ratios.byreal))
            (lookup wallet c.wallet_amount_ratios.dammv2))
          (lookup wallet c.wallet_amount_ratios.pcs))
        (lookup wallet c.wallet_amount_ratios.meteora))
      (lookup wallet c.wallet_amount_ratios.orca)

module _ {S N R : Type 0} (env : Env S N R) (ops : RatioOps R) (wallet : String)
    (dex : Option String) where
  -- `none`: there was no balance, or the token is a stable coin.
  abbrev pub swapped : JupiterSwap → Option Swapped → Bot S N R → Bot S N R
  swapped e none b = b
  swapped e (some r) b =
      let event =
        logged
          (record {
            ts = b.world.now;
            type = "SWAP";
            target_wallet = wallet;
            target_nft = none;
            our_nft = none;
            tx_sig = some r.sig;
            success = true;
            error = none;
            pool = some (concat e.input_mint (concat "/" usdc_mint));
            dex = none;
          })
          dex in
      let swap = swap_logged (record {
        ts = b.world.now;
        input_mint = e.input_mint;
        tx_sig = r.sig;
        input_amount_raw = some r.amount_raw;
        input_decimals = none;
        output_amount_raw = r.output_raw;
      }) in
      emit caches_invalidated (emit swap (emit event b))

  -- A cap that cannot be stated as a positive amount skips the swap.
  abbrev pub swap_capped : JupiterSwap → Option ℕ → Bot S N R → Bot S N R
  swap_capped e none b = b
  swap_capped e (some max_raw) b =
      perform env (swap_token_to_usdc e.input_mint max_raw) b (swapped e)

  unfoldable pub jupiter_swap_event : JupiterSwap → Bot S N R → Bot S N R
  jupiter_swap_event e b =
      if str_eq e.output_mint usdc_mint
      then swap_capped e
          (compute_swap_cap_raw ops e.input_amount_raw (wallet_ratio wallet b.world.config)) b
      else b
