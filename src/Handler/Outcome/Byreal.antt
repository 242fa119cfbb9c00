-- ===== src/Handler/Outcome/Byreal.antt =====
-- What the handling of the events of Byreal does (src/index.ts, `handleEvent`, BYREAL_*).
use clmm_copybot.Common.{
  ◌≡◌, refl, String, Bool, false, ◌||◌, ◌&&◌, Option, none, some, List, inl, inr, arith,
  if◌then◌else◌, has, has_text, value_or,
}
use clmm_copybot.OpenedReferers.{is_referer_duplicate}
use clmm_copybot.Parser.{OpenPosition}
use clmm_copybot.PendingSwaps.Executor.{Received}
use clmm_copybot.PositionMap.Queries.{get}
use clmm_copybot.Handler
use clmm_copybot.Handler.{
  Call, copy_open_position, copy_increase_liquidity, copy_decrease_liquidity, copy_close_position,
  bot_received, pnl_checked, emit, World, Env, Bot, start, has_mapping, pool_of, blacklisted, skip,
  record_copy, refresh_all, record_reduced, perform, refresh_caches, cooling_down, known_mints,
  cache_mints,
}
use clmm_copybot.Handler.Byreal.{
  byreal_answered, byreal_open_known, byreal_open_cool, byreal_open, byreal_increase,
  byreal_decrease, check_pnl, byreal_close,
}
use clmm_copybot.Handler.Shape.{MayAdd, Allowed, if_rule, perform_rule}
use clmm_copybot.Handler.Outcome.Leaves.{
  fresh, after, Does, skip-Has, entry_all-Has, entry_caches-Has, entry_skip-Has, threw-Has,
  reduce-Has, close-Has, closed-Has, closed_all-Has, cooling_down-has_mapping,
}

module _ {S N R : Type 0} (env : Env S N R) (wallet : String) (dex : Option String)
    (w : World S N R) (Asked : Call → Type 0) where
  may_add :
      (sol drawdown listed : Bool)
      → sol ≡ false
      → drawdown ≡ false
      → listed ≡ false
      → ((sol || drawdown) ≡ false) × (listed ≡ false)
  may_add sol drawdown listed a b c = ground arith

  module _ (e : OpenPosition)
      (asked : Asked (
        copy_open_position Handler.byreal e.position_nft_mint e.pool_id e.referer_position
          wallet)) where
    abbrev nft : String
    nft = e.position_nft_mint

    abbrev opening : Call
    opening = copy_open_position Handler.byreal nft e.pool_id e.referer_position wallet

    answered :
        (w' : World S N R) (reason sig : Option String) (w'' : World S N R)
        → Allowed w wallet opening
        → (env opening w').0 ≡ some sig
        → Does env w wallet dex nft Asked
            (byreal_answered env wallet dex nft reason sig (after opening w''))
    answered w' reason none w'' ok h =
        if_rule (Does env w wallet dex nft Asked) (has_text reason) _ _
          (λ skipped.
            entry_skip-Has env w wallet dex nft Asked opening w' ok asked none h
              (value_or reason "") _ w'' (λ e t. inr (refl, t)))
          (λ failed.
            entry_all-Has env w wallet dex nft Asked opening w' ok asked none h "OPEN" none _ w''
              (λ e s. inl s))
    answered w' reason (some sig) w'' ok h =
        entry_all-Has env w wallet dex nft Asked opening w' ok asked (some sig) h "OPEN" (some sig)
          _ w'' (λ e s. inl s)

    open_known :
        (w' : World S N R)
        → MayAdd w wallet Handler.byreal
        → has_mapping nft w' ≡ has_mapping nft w
        → Does env w wallet dex nft Asked (byreal_open_known env wallet dex e (fresh w'))
    open_known w' may same =
        if_rule (Does env w wallet dex nft Asked) (has_mapping nft w') _ _
          (λ mapped. skip-Has env w wallet dex nft Asked _ _ w')
          (λ unmapped.
            if_rule (Does env w wallet dex nft Asked)
              (is_referer_duplicate e.referer_position wallet w'.config.referer_policy w'.referers)
              _ _ (λ twice. skip-Has env w wallet dex nft Asked _ _ w')
              (λ once.
                let ok : Allowed w wallet opening = (may, (rw same at unmapped), refl) in
                perform_rule env (Does env w wallet dex nft Asked) opening (fresh w') _
                  (λ w'' t. threw-Has env w wallet dex nft Asked opening w' ok asked w'' t)
                  (λ sig w'' h. answered w' w''.byreal.last_skip_reason sig _ ok h)))

    open_cool :
        (pool : Option String) (cools : Bool) (w' : World S N R)
        → MayAdd w wallet Handler.byreal
        → has_mapping nft w' ≡ has_mapping nft w
        → Does env w wallet dex nft Asked (byreal_open_cool env wallet dex e pool cools (fresh w'))
    open_cool pool cools w' may same =
        if_rule (Does env w wallet dex nft Asked) cools _ _
          (λ cold. skip-Has env w wallet dex nft Asked _ _ w')
          (λ warm.
            if_rule (Does env w wallet dex nft Asked)
              (blacklisted w'.config.byreal_skip_sol pool w') _ _
              (λ listed. skip-Has env w wallet dex nft Asked _ _ w')
              (λ clear. open_known w' may same))

    pub byreal_open-Has : Does env w wallet dex nft Asked (byreal_open env wallet dex e (start w))
    unfolding byreal_open
    byreal_open-Has =
        if_rule (Does env w wallet dex nft Asked) w.byreal.sol_paused _ _
          (λ p. skip-Has env w wallet dex nft Asked _ _ w)
          (λ np.
            if_rule (Does env w wallet dex nft Asked) w.byreal.drawdown_paused _ _
              (λ p. skip-Has env w wallet dex nft Asked _ _ w)
              (λ nd.
                if_rule (Does env w wallet dex nft Asked)
                  (has wallet w.config.close_only_wallets.byreal) _ _
                  (λ p. skip-Has env w wallet dex nft Asked _ _ w)
                  (λ nc.
                    let pool = known_mints e.pool_id e.pool_mints w.byreal in
                    let cached : World S N R = record w {
                      byreal = cache_mints e.pool_id e.pool_mints w.byreal;
                    } in
                    let (w', cools) = cooling_down pool cached in
                    open_cool pool cools w' (may_add _ _ _ np nd nc)
                      (cooling_down-has_mapping pool nft cached))))

  module _ (nft : String) where
    pub byreal_increase-Has :
        Asked (copy_increase_liquidity Handler.byreal nft wallet)
        → Does env w wallet dex nft Asked (byreal_increase env wallet dex nft (start w))
    unfolding byreal_increase
    byreal_increase-Has asked =
        if_rule (Does env w wallet dex nft Asked) w.byreal.sol_paused _ _
          (λ p. skip-Has env w wallet dex nft Asked _ _ w)
          (λ np.
            if_rule (Does env w wallet dex nft Asked) w.byreal.drawdown_paused _ _
              (λ p. skip-Has env w wallet dex nft Asked _ _ w)
              (λ nd.
                if_rule (Does env w wallet dex nft Asked)
                  (has wallet w.config.close_only_wallets.byreal) _ _
                  (λ p. skip-Has env w wallet dex nft Asked _ _ w)
                  (λ nc. increase_clear (may_add _ _ _ np nd nc))))
      where
        increasing : Call
        increasing = copy_increase_liquidity Handler.byreal nft wallet

        increase_clear :
            MayAdd w wallet Handler.byreal
            → Does env w wallet dex nft Asked (
                if blacklisted w.config.byreal_skip_sol (pool_of nft w) w
                then skip wallet dex nft "黑名單代幣" (pool_of nft w) (start w)
                else if has_mapping nft w
                then perform env increasing
                    (start w)
                    (λ sig b. refresh_caches sig (record_copy wallet dex "INCREASE" nft sig none b))
                else skip wallet dex nft "無映射" none (start w))
        increase_clear may =
            if_rule (Does env w wallet dex nft Asked)
              (blacklisted w.config.byreal_skip_sol (pool_of nft w) w) _ _
              (λ listed. skip-Has env w wallet dex nft Asked _ _ w)
              (λ clear.
                if_rule (Does env w wallet dex nft Asked) (has_mapping nft w) _ _
                  (λ mapped.
                    perform_rule env (Does env w wallet dex nft Asked) increasing (start w) _
                      (λ w'' t.
                        threw-Has env w wallet dex nft Asked increasing w (may, mapped, refl) asked
                          w'' t)
                      (λ sig w'' h.
                        entry_caches-Has env w wallet dex nft Asked increasing w (may, mapped, refl)
                          asked sig h "INCREASE" sig none w'' (λ e s. s)))
                  (λ unmapped. skip-Has env w wallet dex nft Asked _ _ w))

    pub byreal_decrease-Has :
        Asked (copy_decrease_liquidity Handler.byreal nft)
        → Does env w wallet dex nft Asked (byreal_decrease env wallet dex nft (start w))
    unfolding byreal_decrease
    byreal_decrease-Has asked = reduce-Has env w wallet dex nft Asked Handler.byreal "無映射" asked

    pub byreal_close-Has :
        (rs : List Received)
        → Asked (copy_close_position Handler.byreal nft)
        → Does env w wallet dex nft Asked (byreal_close env wallet dex nft rs (start w))
    unfolding byreal_close
    byreal_close-Has rs asked =
        close-Has env w wallet dex nft Asked Handler.byreal rs "無映射"
          (λ sig b.
            check_pnl env wallet dex sig (pool_of nft w) (get nft w.positions)
              (refresh_all sig (record_copy wallet dex "CLOSE" nft sig (pool_of nft w) b)))
          asked
          (λ sig mapped h w''.
            let pool = pool_of nft w in
            let our_nft = get nft w.positions in
            if_rule (Does env w wallet dex nft Asked)
              (has_text sig && (has_text pool && has_text our_nft)) _ _
              (λ known.
                if_rule
                  (λ b.
                    Does env w wallet dex nft Asked
                      (emit (pnl_checked (value_or pool "") (value_or our_nft "")) b))
                  (has_text sig) _ _
                  (λ there. record {
                    shape =
                        closed-Has env w wallet dex nft Asked Handler.byreal rs sig _ _ asked mapped
                          h (refl, refl, refl) (inl (refl, refl)) (tt, (tt, (tt, tt)));
                  })
                  (λ lacks. record {
                    shape =
                        closed-Has env w wallet dex nft Asked Handler.byreal rs sig _ _ asked mapped
                          h (refl, refl, refl) (inl (refl, refl)) (tt, tt);
                  }))
              (λ unknown_pool.
                closed_all-Has env w wallet dex nft Asked Handler.byreal rs sig pool w'' asked
                  mapped h))
