-- ===== src/Handler/Pcs.antt =====
-- The events of PancakeSwap (src/index.ts, `handleEvent`, PCS_*).
use clmm_copybot.Common.{
  String, Bool, ◌||◌, Option, none, some, List, if◌then◌else◌, has, has_text, value_or, concat,
}
use clmm_copybot.Parser.{OpenPosition}
use clmm_copybot.PendingSwaps.Executor.{Received}
use clmm_copybot.Handler
use clmm_copybot.Handler.{
  Call, copy_open_position, copy_increase_liquidity, copy_decrease_liquidity, copy_close_position,
  copy_claim_fee, bot_received, Executor, World, Env, Bot, reset_skip, emit, has_mapping, pool_of,
  known_mints, cache_mints, cooling_down, blacklisted, perform, skip, record_copy, refresh_all,
  refresh_caches, record_reduced,
}

abbrev pub pcs_skip_reason : Option Executor → Option String
pcs_skip_reason none = none
pcs_skip_reason (some x) = x.last_skip_reason

abbrev pub pcs_reset : Option Executor → Option Executor
pcs_reset none = none
pcs_reset (some x) = some (reset_skip x)

module _ {S N R : Type 0} (env : Env S N R) (wallet : String) (dex : Option String) where
  abbrev pub reset_pcs_skip : Bot S N R → Bot S N R
  reset_pcs_skip b = record b { world = record (b.world) { pcs = pcs_reset b.world.pcs } }

  abbrev pub pcs_opened : String → Option String → Bot S N R → Bot S N R
  pcs_opened nft sig b =
      refresh_all sig (record_copy wallet dex "OPEN" nft sig (pool_of nft b.world) b)

  abbrev pub pcs_answered : String → Option String → Option String → Bot S N R → Bot S N R
  pcs_answered nft reason none b =
      if has_text reason
      then skip wallet dex nft (concat "PCS: " (value_or reason "")) (pool_of nft b.world) b
      else pcs_opened nft none b
  pcs_answered nft reason (some sig) b = pcs_opened nft (some sig) b

  abbrev pub pcs_open_known : OpenPosition → Bot S N R → Bot S N R
  pcs_open_known e b =
      let nft = e.position_nft_mint in
      if has_mapping nft b.world
      then skip wallet dex nft "PCS 重複目標" none b
      else perform env (copy_open_position Handler.pcs nft e.pool_id e.referer_position wallet) b
          (λ sig b. pcs_answered nft (pcs_skip_reason b.world.pcs) sig (reset_pcs_skip b))

  -- The cooldowns are shared with Byreal.
  abbrev pub pcs_open_cool : OpenPosition → Option String → Bool → Bot S N R → Bot S N R
  pcs_open_cool e pool cools b =
      if cools then skip wallet dex e.position_nft_mint "PCS 代幣冷靜期" pool b else pcs_open_known e b

  abbrev pub pcs_open_allowed : OpenPosition → Option String → Bot S N R → Bot S N R
  pcs_open_allowed e pool b =
      let (w, cools) = cooling_down pool b.world in
      pcs_open_cool e pool cools (record b { world = w })

  abbrev pub pcs_open_pool : OpenPosition → Option String → Bot S N R → Bot S N R
  pcs_open_pool e pool b =
      if blacklisted b.world.config.pcs_skip_sol pool b.world
      then skip wallet dex e.position_nft_mint "PCS 黑名單代幣" pool b
      else pcs_open_allowed e pool b

  abbrev pub pcs_cached : OpenPosition → Executor → Bot S N R → Bot S N R
  pcs_cached e x b =
      pcs_open_pool e (known_mints e.pool_id e.pool_mints x) (record b {
        world = record (b.world) { pcs = some (cache_mints e.pool_id e.pool_mints x) };
      })

  abbrev pub pcs_open_on : OpenPosition → Option Executor → Bot S N R → Bot S N R
  pcs_open_on e none b = b
  pcs_open_on e (some x) b =
      let nft = e.position_nft_mint in
      if x.drawdown_paused || x.sol_paused
      then skip wallet dex nft (concat "PCS: " (if x.sol_paused then "SOL 不足" else "資產跌幅暫停")) none b
      else if has wallet b.world.config.close_only_wallets.pcs
      then skip wallet dex nft "PCS close-only" none b
      else pcs_cached e x b

  unfoldable pub pcs_open : OpenPosition → Bot S N R → Bot S N R
  pcs_open e b = pcs_open_on e b.world.pcs b

  abbrev pub pcs_increase_on : String → Option Executor → Bot S N R → Bot S N R
  pcs_increase_on nft none b = b
  pcs_increase_on nft (some x) b =
      if x.sol_paused || x.drawdown_paused
      then skip wallet dex nft "PCS paused" none b
      else if has wallet b.world.config.close_only_wallets.pcs
      then b
      else if has_mapping nft b.world
      then perform env (copy_increase_liquidity Handler.pcs nft wallet) b
          (λ sig b. refresh_caches sig (record_copy wallet dex "INCREASE" nft sig none b))
      else skip wallet dex nft "PCS 無映射" none b

  unfoldable pub pcs_increase : String → Bot S N R → Bot S N R
  pcs_increase nft b = pcs_increase_on nft b.world.pcs b

  abbrev pub pcs_decrease_on : String → Option Executor → Bot S N R → Bot S N R
  pcs_decrease_on nft none b = b
  pcs_decrease_on nft (some x) b =
      if has_mapping nft b.world
      then perform env (copy_decrease_liquidity Handler.pcs nft) b (record_reduced wallet dex nft)
      else skip wallet dex nft "PCS 無映射" none b

  unfoldable pub pcs_decrease : String → Bot S N R → Bot S N R
  pcs_decrease nft b = pcs_decrease_on nft b.world.pcs b

  abbrev pub pcs_close_known : String → Option String → Bot S N R → Bot S N R
  pcs_close_known nft pool b =
      perform env (copy_close_position Handler.pcs nft) b
        (λ sig b. refresh_all sig (record_copy wallet dex "CLOSE" nft sig pool b))

  abbrev pub pcs_close_on : String → List Received → Option Executor → Bot S N R → Bot S N R
  pcs_close_on nft received none b = b
  pcs_close_on nft received (some x) b =
      if has_mapping nft b.world
      then pcs_close_known nft (pool_of nft b.world) (emit (bot_received received) b)
      else skip wallet dex nft "PCS 無映射" none (emit (bot_received received) b)

  unfoldable pub pcs_close : String → List Received → Bot S N R → Bot S N R
  pcs_close nft received b = pcs_close_on nft received b.world.pcs b
