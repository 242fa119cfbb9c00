-- ===== src/Handler/Orca.antt =====
-- The events of Orca (src/index.ts, `handleEvent`, ORCA_*).
use clmm_copybot.Common.{
  String, ◌||◌, Option, none, some, List, if◌then◌else◌, has, has_text, value_or, concat,
}
use clmm_copybot.PendingSwaps.Executor.{Received}
use clmm_copybot.Handler
use clmm_copybot.Handler.{
  Call, copy_open_position, copy_increase_liquidity, copy_decrease_liquidity, copy_close_position,
  copy_claim_fee, bot_received, Executor, World, Env, Bot, reset_skip, emit, has_mapping, pool_of,
  known_mints, cache_mints, cooling_down, blacklisted, perform, skip, record_copy, refresh_all,
  refresh_caches, record_reduced,
}

abbrev pub orca_skip_reason : Option Executor → Option String
orca_skip_reason none = none
orca_skip_reason (some x) = x.last_skip_reason

abbrev pub orca_reset : Option Executor → Option Executor
orca_reset none = none
orca_reset (some x) = some (reset_skip x)

module _ {S N R : Type 0} (env : Env S N R) (wallet : String) (dex : Option String) where
  abbrev pub reset_orca_skip : Bot S N R → Bot S N R
  reset_orca_skip b = record b { world = record (b.world) { orca = orca_reset b.world.orca } }

  abbrev pub orca_opened : String → Option String → Option String → Bot S N R → Bot S N R
  orca_opened nft pool_mints sig b = refresh_all sig (
      record_copy wallet dex "OPEN" nft sig
        (if has_text pool_mints then pool_mints else pool_of nft b.world) b)

  abbrev pub orca_answered :
      String → Option String → Option String → Option String → Bot S N R → Bot S N R
  orca_answered nft pool_mints reason none b =
      if has_text reason
      then skip wallet dex nft (concat "Orca: " (value_or reason "")) pool_mints b
      else orca_opened nft pool_mints none b
  orca_answered nft pool_mints reason (some sig) b = orca_opened nft pool_mints (some sig) b

  abbrev pub orca_open_on :
      String → String → Option String → Option Executor → Bot S N R → Bot S N R
  orca_open_on nft pool pool_mints none b = b
  orca_open_on nft pool pool_mints (some x) b =
      if x.drawdown_paused || x.sol_paused
      then skip wallet dex nft (concat "Orca: " (if x.sol_paused then "SOL 不足" else "資產跌幅暫停")) none
          b
      else if has wallet b.world.config.close_only_wallets.orca
      then skip wallet dex nft "Orca close-only" none b
      else if has_mapping nft b.world
      then skip wallet dex nft "Orca 重複目標" none b
      else perform env (copy_open_position Handler.orca nft pool none wallet) b (λ sig b.
        orca_answered nft pool_mints (orca_skip_reason b.world.orca) sig (reset_orca_skip b))

  unfoldable pub orca_open : String → String → Option String → Bot S N R → Bot S N R
  orca_open nft pool pool_mints b = orca_open_on nft pool pool_mints b.world.orca b

  abbrev pub orca_increase_on : String → Option Executor → Bot S N R → Bot S N R
  orca_increase_on nft none b = b
  orca_increase_on nft (some x) b =
      if x.sol_paused || x.drawdown_paused
      then skip wallet dex nft "Orca paused" none b
      else if has wallet b.world.config.close_only_wallets.orca
      then b
      else if has_mapping nft b.world
      then perform env (copy_increase_liquidity Handler.orca nft wallet) b
          (λ sig b. refresh_caches sig (record_copy wallet dex "INCREASE" nft sig none b))
      else skip wallet dex nft "Orca 無映射" none b

  unfoldable pub orca_increase : String → Bot S N R → Bot S N R
  orca_increase nft b = orca_increase_on nft b.world.orca b

  abbrev pub orca_decrease_on : String → Option Executor → Bot S N R → Bot S N R
  orca_decrease_on nft none b = b
  orca_decrease_on nft (some x) b =
      if has_mapping nft b.world
      then perform env (copy_decrease_liquidity Handler.orca nft) b (record_reduced wallet dex nft)
      else skip wallet dex nft "Orca 無映射" none b

  unfoldable pub orca_decrease : String → Bot S N R → Bot S N R
  orca_decrease nft b = orca_decrease_on nft b.world.orca b

  abbrev pub orca_close_known : String → Option String → Bot S N R → Bot S N R
  orca_close_known nft pool b =
      perform env (copy_close_position Handler.orca nft) b
        (λ sig b. refresh_all sig (record_copy wallet dex "CLOSE" nft sig pool b))

  abbrev pub orca_close_on : String → List Received → Option Executor → Bot S N R → Bot S N R
  orca_close_on nft received none b = b
  orca_close_on nft received (some x) b =
      if has_mapping nft b.world
      then orca_close_known nft (pool_of nft b.world) (emit (bot_received received) b)
      else skip wallet dex nft "Orca 無映射" none (emit (bot_received received) b)

  unfoldable pub orca_close : String → List Received → Bot S N R → Bot S N R
  orca_close nft received b = orca_close_on nft received b.world.orca b
