-- ===== src/Handler/Meteora.antt =====
-- The events of Meteora DLMM (src/index.ts, `handleEvent`, METEORA_*).
use clmm_copybot.Common.{
  String, ◌||◌, Option, none, some, List, if◌then◌else◌, has, has_text, value_or, concat,
}
use clmm_copybot.PendingSwaps.Executor.{Received}
use clmm_copybot.Handler
use clmm_copybot.Handler.{
  Call, copy_open_position, copy_increase_liquidity, copy_decrease_liquidity, copy_close_position,
  copy_claim_fee, bot_received, Executor, World, Env, Bot, reset_skip, emit, has_mapping, pool_of,
  known_mints, cache_mints, cooling_down, blacklisted, perform, skip, record_copy, refresh_all,
  refresh_caches, record_reduced,
}

abbrev pub meteora_skip_reason : Option Executor → Option String
meteora_skip_reason none = none
meteora_skip_reason (some x) = x.last_skip_reason

abbrev pub meteora_reset : Option Executor → Option Executor
meteora_reset none = none
meteora_reset (some x) = some (reset_skip x)

module _ {S N R : Type 0} (env : Env S N R) (wallet : String) (dex : Option String) where
  abbrev pub reset_meteora_skip : Bot S N R → Bot S N R
  reset_meteora_skip b = record b {
    world = record (b.world) { meteora = meteora_reset b.world.meteora };
  }

  abbrev pub meteora_opened : String → Option String → Bot S N R → Bot S N R
  meteora_opened nft sig b =
      refresh_all sig (record_copy wallet dex "OPEN" nft sig (pool_of nft b.world) b)

  abbrev pub meteora_answered : String → Option String → Option String → Bot S N R → Bot S N R
  meteora_answered nft reason none b =
      if has_text reason
      then skip wallet dex nft (concat "Meteora: " (value_or reason "")) none b
      else meteora_opened nft none b
  meteora_answered nft reason (some sig) b = meteora_opened nft (some sig) b

  abbrev pub meteora_open_on : String → String → Option Executor → Bot S N R → Bot S N R
  meteora_open_on nft pool none b = b
  meteora_open_on nft pool (some x) b =
      if x.drawdown_paused || x.sol_paused
      then skip wallet dex nft (concat "Meteora: " (if x.sol_paused then "SOL 不足" else "資產跌幅暫停"))
          none b
      else if has wallet b.world.config.close_only_wallets.meteora
      then skip wallet dex nft "Meteora close-only" none b
      else if has_mapping nft b.world
      then skip wallet dex nft "Meteora 重複目標" none b
      else perform env (copy_open_position Handler.meteora nft pool none wallet) b (λ sig b.
        meteora_answered nft (meteora_skip_reason b.world.meteora) sig (reset_meteora_skip b))

  unfoldable pub meteora_open : String → String → Bot S N R → Bot S N R
  meteora_open nft pool b = meteora_open_on nft pool b.world.meteora b

  abbrev pub meteora_add_on : String → Option Executor → Bot S N R → Bot S N R
  meteora_add_on nft none b = b
  meteora_add_on nft (some x) b =
      if x.sol_paused || x.drawdown_paused
      then skip wallet dex nft "Meteora paused" none b
      else if has wallet b.world.config.close_only_wallets.meteora
      then b
      else if has_mapping nft b.world
      then perform env (copy_increase_liquidity Handler.meteora nft wallet) b
          (λ sig b. refresh_caches sig (record_copy wallet dex "INCREASE" nft sig none b))
      else skip wallet dex nft "Meteora 無映射" none b

  unfoldable pub meteora_add : String → Bot S N R → Bot S N R
  meteora_add nft b = meteora_add_on nft b.world.meteora b

  abbrev pub meteora_remove_on : String → Option Executor → Bot S N R → Bot S N R
  meteora_remove_on nft none b = b
  meteora_remove_on nft (some x) b =
      if has_mapping nft b.world
      then perform env (copy_decrease_liquidity Handler.meteora nft) b
          (record_reduced wallet dex nft)
      else skip wallet dex nft "Meteora 無映射" none b

  unfoldable pub meteora_remove : String → Bot S N R → Bot S N R
  meteora_remove nft b = meteora_remove_on nft b.world.meteora b

  abbrev pub meteora_closed : String → Option String → Option String → Bot S N R → Bot S N R
  meteora_closed nft pool sig b = refresh_all sig (record_copy wallet dex "CLOSE" nft sig pool b)

  abbrev pub meteora_close_answered :
      String → Option String → Option String → Option String → Bot S N R → Bot S N R
  meteora_close_answered nft pool reason none b =
      if has_text reason
      then skip wallet dex nft (concat "Meteora: " (value_or reason "")) none b
      else meteora_closed nft pool none b
  meteora_close_answered nft pool reason (some sig) b = meteora_closed nft pool (some sig) b

  abbrev pub meteora_close_known : String → Option String → Bot S N R → Bot S N R
  meteora_close_known nft pool b = perform env (copy_close_position Handler.meteora nft) b (λ sig b.
      meteora_close_answered nft pool (meteora_skip_reason b.world.meteora) sig
        (reset_meteora_skip b))

  abbrev pub meteora_close_on : String → List Received → Option Executor → Bot S N R → Bot S N R
  meteora_close_on nft received none b = b
  meteora_close_on nft received (some x) b =
      if has_mapping nft b.world
      then meteora_close_known nft (pool_of nft b.world) (emit (bot_received received) b)
      else skip wallet dex nft "Meteora 無映射" none (emit (bot_received received) b)

  unfoldable pub meteora_close : String → List Received → Bot S N R → Bot S N R
  meteora_close nft received b = meteora_close_on nft received b.world.meteora b
