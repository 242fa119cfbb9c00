-- ===== src/Handler/Byreal.antt =====
-- The events of Byreal (src/index.ts, `handleEvent`, BYREAL_*).
use clmm_copybot.Common.{
  String, Bool, ◌&&◌, Option, none, some, List, if◌then◌else◌, has, has_text, value_or,
}
use clmm_copybot.OpenedReferers.{is_referer_duplicate}
use clmm_copybot.Parser.{OpenPosition}
use clmm_copybot.PendingSwaps.Executor.{Received}
use clmm_copybot.PositionMap.Queries.{get}
use clmm_copybot.Handler
use clmm_copybot.Handler.{
  Call, copy_open_position, copy_increase_liquidity, copy_decrease_liquidity, copy_close_position,
  bot_received, pnl_checked, World, Env, Bot, reset_skip, emit, has_mapping, pool_of, known_mints,
  cache_mints, cooling_down, blacklisted, perform, skip, record_copy, refresh_all, refresh_caches,
  record_reduced,
}

module _ {S N R : Type 0} (env : Env S N R) (wallet : String) (dex : Option String) where
  abbrev pub byreal_opened : String → Option String → Bot S N R → Bot S N R
  byreal_opened nft sig b =
      refresh_all sig (record_copy wallet dex "OPEN" nft sig (pool_of nft b.world) b)

  abbrev pub reset_byreal_skip : Bot S N R → Bot S N R
  reset_byreal_skip b = record b { world = record (b.world) { byreal = reset_skip b.world.byreal } }

  -- An executor that skips an opening says why, in a field that is reset.
  abbrev pub byreal_answered : String → Option String → Option String → Bot S N R → Bot S N R
  byreal_answered nft reason none b =
      if has_text reason
      then skip wallet dex nft (value_or reason "") (pool_of nft b.world) b
      else byreal_opened nft none b
  byreal_answered nft reason (some sig) b = byreal_opened nft (some sig) b

  abbrev pub byreal_open_known : OpenPosition → Bot S N R → Bot S N R
  byreal_open_known e b =
      let nft = e.position_nft_mint in
      if has_mapping nft b.world
      then skip wallet dex nft "重複目標" none b
      else if is_referer_duplicate e.referer_position wallet b.world.config.referer_policy
          b.world.referers
      then skip wallet dex nft "重複來源" none b
      else perform env (copy_open_position Handler.byreal nft e.pool_id e.referer_position wallet) b
          (λ sig b. byreal_answered nft b.world.byreal.last_skip_reason sig (reset_byreal_skip b))

  abbrev pub byreal_open_cool : OpenPosition → Option String → Bool → Bot S N R → Bot S N R
  byreal_open_cool e pool cools b =
      if cools
      then skip wallet dex e.position_nft_mint "代幣冷靜期" pool b
      else if blacklisted b.world.config.byreal_skip_sol pool b.world
      then skip wallet dex e.position_nft_mint "黑名單代幣" pool b
      else byreal_open_known e b

  abbrev pub byreal_open_pool : OpenPosition → Bot S N R → Bot S N R
  byreal_open_pool e b =
      let x = b.world.byreal in
      let pool = known_mints e.pool_id e.pool_mints x in
      let (w, cools) =
        cooling_down pool (record (b.world) { byreal = cache_mints e.pool_id e.pool_mints x }) in
      byreal_open_cool e pool cools (record b { world = w })

  unfoldable pub byreal_open : OpenPosition → Bot S N R → Bot S N R
  byreal_open e b =
      let nft = e.position_nft_mint in
      if b.world.byreal.sol_paused
      then skip wallet dex nft "SOL 不足" none b
      else if b.world.byreal.drawdown_paused
      then skip wallet dex nft "資產跌幅暫停" none b
      else if has wallet b.world.config.close_only_wallets.byreal
      then skip wallet dex nft "close-only" none b
      else byreal_open_pool e b

  unfoldable pub byreal_increase : String → Bot S N R → Bot S N R
  byreal_increase nft b =
      if b.world.byreal.sol_paused
      then skip wallet dex nft "SOL 不足" none b
      else if b.world.byreal.drawdown_paused
      then skip wallet dex nft "資產跌幅暫停" none b
      else if has wallet b.world.config.close_only_wallets.byreal
      then skip wallet dex nft "close-only" none b
      else if blacklisted b.world.config.byreal_skip_sol (pool_of nft b.world) b.world
      then skip wallet dex nft "黑名單代幣" (pool_of nft b.world) b
      else if has_mapping nft b.world
      then perform env (copy_increase_liquidity Handler.byreal nft wallet) b
          (λ sig b. refresh_caches sig (record_copy wallet dex "INCREASE" nft sig none b))
      else skip wallet dex nft "無映射" none b

  unfoldable pub byreal_decrease : String → Bot S N R → Bot S N R
  byreal_decrease nft b =
      if has_mapping nft b.world
      then perform env (copy_decrease_liquidity Handler.byreal nft) b
          (record_reduced wallet dex nft)
      else skip wallet dex nft "無映射" none b

  -- The result of the position is fetched where the pool and our NFT were known.
  abbrev pub check_pnl : Option String → Option String → Option String → Bot S N R → Bot S N R
  check_pnl sig pool our_nft b =
      if has_text sig && (has_text pool && has_text our_nft)
      then emit (pnl_checked (value_or pool "") (value_or our_nft "")) b
      else b

  abbrev pub byreal_close_known : String → Option String → Option String → Bot S N R → Bot S N R
  byreal_close_known nft pool our_nft b =
      perform env (copy_close_position Handler.byreal nft) b (λ sig b.
        check_pnl sig pool our_nft
          (refresh_all sig (record_copy wallet dex "CLOSE" nft sig pool b)))

  unfoldable pub byreal_close : String → List Received → Bot S N R → Bot S N R
  byreal_close nft received b =
      if has_mapping nft b.world
      then byreal_close_known nft (pool_of nft b.world) (get nft b.world.positions)
          (emit (bot_received received) b)
      else skip wallet dex nft "無映射" none (emit (bot_received received) b)
