-- ===== src/Handler/Dammv2.antt =====
-- The events of Meteora DAMM v2 (src/index.ts, `handleEvent`, DAMMV2_*).
use clmm_copybot.Common.{
  String, ◌||◌, Option, none, some, List, if◌then◌else◌, has, has_text, value_or, concat,
}
use clmm_copybot.PendingSwaps.Executor.{Received}
use clmm_copybot.Handler
use clmm_copybot.Handler.{
  Call, copy_open_position, copy_increase_liquidity, copy_decrease_liquidity, copy_close_position,
  copy_claim_fee, bot_received, Executor, World, Env, Bot, reset_skip, emit, has_mapping, pool_of,
  known_mints, cache_mints, cooling_down, blacklisted, perform, skip, record_copy, refresh_all,
  refresh_caches, record_reduced,
}

abbrev pub dammv2_skip_reason : Option Executor → Option String
dammv2_skip_reason none = none
dammv2_skip_reason (some x) = x.last_skip_reason

abbrev pub dammv2_reset : Option Executor → Option Executor
dammv2_reset none = none
dammv2_reset (some x) = some (reset_skip x)

module _ {S N R : Type 0} (env : Env S N R) (wallet : String) (dex : Option String) where
  abbrev pub reset_dammv2_skip : Bot S N R → Bot S N R
  reset_dammv2_skip b = record b {
    world = record (b.world) { dammv2 = dammv2_reset b.world.dammv2 };
  }

  abbrev pub dammv2_opened : String → Option String → Bot S N R → Bot S N R
  dammv2_opened nft sig b =
      refresh_all sig (record_copy wallet dex "OPEN" nft sig (pool_of nft b.world) b)

  abbrev pub dammv2_answered : String → Option String → Option String → Bot S N R → Bot S N R
  dammv2_answered nft reason none b =
      if has_text reason
      then skip wallet dex nft (concat "DAMMV2: " (value_or reason "")) none b
      else dammv2_opened nft none b
  dammv2_answered nft reason (some sig) b = dammv2_opened nft (some sig) b

  abbrev pub dammv2_open_on : String → String → Option Executor → Bot S N R → Bot S N R
  dammv2_open_on nft pool none b = b
  dammv2_open_on nft pool (some x) b =
      if x.drawdown_paused || x.sol_paused
      then skip wallet dex nft (concat "DAMMV2: " (if x.sol_paused then "SOL 不足" else "資產跌幅暫停"))
          none b
      else if has wallet b.world.config.close_only_wallets.dammv2
      then skip wallet dex nft "DAMMV2 close-only" none b
      else if has_mapping nft b.world
      then skip wallet dex nft "DAMMV2 重複目標" none b
      else perform env (copy_open_position Handler.dammv2 nft pool none wallet) b (λ sig b.
        dammv2_answered nft (dammv2_skip_reason b.world.dammv2) sig (reset_dammv2_skip b))

  unfoldable pub dammv2_open : String → String → Bot S N R → Bot S N R
  dammv2_open nft pool b = dammv2_open_on nft pool b.world.dammv2 b

  abbrev pub dammv2_add_on : String → Option Executor → Bot S N R → Bot S N R
  dammv2_add_on nft none b = b
  dammv2_add_on nft (some x) b =
      if x.sol_paused || x.drawdown_paused
      then skip wallet dex nft "DAMMV2 paused" none b
      else if has wallet b.world.config.close_only_wallets.dammv2
      then b
      else if has_mapping nft b.world
      then perform env (copy_increase_liquidity Handler.dammv2 nft wallet) b
          (λ sig b. refresh_caches sig (record_copy wallet dex "INCREASE" nft sig none b))
      else skip wallet dex nft "DAMMV2 無映射" none b

  unfoldable pub dammv2_add : String → Bot S N R → Bot S N R
  dammv2_add nft b = dammv2_add_on nft b.world.dammv2 b

  abbrev pub dammv2_remove_on : String → Option Executor → Bot S N R → Bot S N R
  dammv2_remove_on nft none b = b
  dammv2_remove_on nft (some x) b =
      if has_mapping nft b.world
      then perform env (copy_decrease_liquidity Handler.dammv2 nft) b
          (record_reduced wallet dex nft)
      else skip wallet dex nft "DAMMV2 無映射" none b

  unfoldable pub dammv2_remove : String → Bot S N R → Bot S N R
  dammv2_remove nft b = dammv2_remove_on nft b.world.dammv2 b

  abbrev pub dammv2_close_known : String → Option String → Bot S N R → Bot S N R
  dammv2_close_known nft pool b =
      perform env (copy_close_position Handler.dammv2 nft) b
        (λ sig b. refresh_all sig (record_copy wallet dex "CLOSE" nft sig pool b))

  abbrev pub dammv2_close_on : String → List Received → Option Executor → Bot S N R → Bot S N R
  dammv2_close_on nft received none b = b
  dammv2_close_on nft received (some x) b =
      if has_mapping nft b.world
      then dammv2_close_known nft (pool_of nft b.world) (emit (bot_received received) b)
      else skip wallet dex nft "DAMMV2 無映射" none (emit (bot_received received) b)

  unfoldable pub dammv2_close : String → List Received → Bot S N R → Bot S N R
  dammv2_close nft received b = dammv2_close_on nft received b.world.dammv2 b

  abbrev pub dammv2_claim_on : String → Option Executor → Bot S N R → Bot S N R
  dammv2_claim_on nft none b = b
  dammv2_claim_on nft (some x) b =
      if has_mapping nft b.world
      then perform env (copy_claim_fee nft) b refresh_caches
      else skip wallet dex nft "DAMMV2 無映射" none b

  unfoldable pub dammv2_claim : String → Bot S N R → Bot S N R
  dammv2_claim nft b = dammv2_claim_on nft b.world.dammv2 b
