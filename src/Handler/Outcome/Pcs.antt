-- ===== src/Handler/Outcome/Pcs.antt =====
-- What the handling of the events of PancakeSwap does (src/index.ts, `handleEvent`, PCS_*).
use clmm_copybot.Common.{
  ◌≡◌, refl, ◌∙◌, String, Bool, false, ◌||◌, Option, none, some, List, inl, inr, arith, has,
  has_text,
}
use clmm_copybot.Parser.{OpenPosition}
use clmm_copybot.PendingSwaps.Executor.{Received}
use clmm_copybot.Handler
use clmm_copybot.Handler.{
  Call, copy_open_position, copy_increase_liquidity, copy_decrease_liquidity, copy_close_position,
  copy_claim_fee, Executor, bot_received, emit, World, Env, Bot, start, has_mapping, pool_of,
  blacklisted, skip, record_copy, refresh_all, record_reduced, perform, refresh_caches,
  cooling_down, known_mints, cache_mints,
}
use clmm_copybot.Handler.Pcs.{
  pcs_skip_reason, pcs_answered, pcs_open_known, pcs_open_allowed, pcs_open_on, pcs_open,
  pcs_increase_on, pcs_increase, pcs_decrease_on, pcs_decrease, pcs_close_on, pcs_close,
}
use clmm_copybot.Handler.Shape.{is_paused, MayAdd, Allowed, silent, if_rule, perform_rule}
use clmm_copybot.Handler.Outcome.Leaves.{
  fresh, after, Does, skip-Has, entry_all-Has, entry_caches-Has, entry_skip-Has, threw-Has,
  reduce-Has, close-Has, closed_all-Has, cooling_down-has_mapping,
}

module _ {S N R : Type 0} (env : Env S N R) (wallet : String) (dex : Option String)
    (w : World S N R) (Asked : Call → Type 0) where
  may_add :
      (o : Option Executor) (x : Executor) (listed : Bool)
      → o ≡ some x
      → (x.drawdown_paused || x.sol_paused) ≡ false
      → listed ≡ false
      → (is_paused o ≡ false) × (listed ≡ false)
  may_add o x listed e a b = (rw e (ground arith), b)

  module _ (e : OpenPosition)
      (asked : Asked (
        copy_open_position Handler.pcs e.position_nft_mint e.pool_id e.referer_position
          wallet)) where
    abbrev nft : String
    nft = e.position_nft_mint

    abbrev opening : Call
    opening = copy_open_position Handler.pcs nft e.pool_id e.referer_position wallet

    answered :
        (w' : World S N R) (reason sig : Option String) (w'' : World S N R)
        → Allowed w wallet opening
        → (env opening w').0 ≡ some sig
        → Does env w wallet dex nft Asked
            (pcs_answered env wallet dex nft reason sig (after opening w''))
    answered w' reason none w'' ok h =
        if_rule (Does env w wallet dex nft Asked) (has_text reason) _ _
          (λ skipped.
            entry_skip-Has env w wallet dex nft Asked opening w' ok asked none h _ _ w''
              (λ e t. inr (refl, t)))
          (λ failed.
            entry_all-Has env w wallet dex nft Asked opening w' ok asked none h "OPEN" none _ w''
              (λ e s. inl s))
    answered w' reason (some sig) w'' ok h =
        entry_all-Has env w wallet dex nft Asked opening w' ok asked (some sig) h "OPEN" (some sig)
          _ w'' (λ e s. inl s)

    open_known :
        (w' : World S N R)
        → MayAdd w wallet Handler.pcs
        → has_mapping nft w' ≡ has_mapping nft w
        → Does env w wallet dex nft Asked (pcs_open_known env wallet dex e (fresh w'))
    open_known w' may same =
        if_rule (Does env w wallet dex nft Asked) (has_mapping nft w') _ _
          (λ mapped. skip-Has env w wallet dex nft Asked _ _ w')
          (λ unmapped.
            let ok : Allowed w wallet opening = (may, (rw same at unmapped), refl) in
            perform_rule env (Does env w wallet dex nft Asked) opening (fresh w') _
              (λ w'' t. threw-Has env w wallet dex nft Asked opening w' ok asked w'' t)
              (λ sig w'' h. answered w' (pcs_skip_reason w''.pcs) sig _ ok h))

    open_allowed :
        (pool : Option String) (w' : World S N R)
        → MayAdd w wallet Handler.pcs
        → has_mapping nft w' ≡ has_mapping nft w
        → Does env w wallet dex nft Asked (pcs_open_allowed env wallet dex e pool (fresh w'))
    open_allowed pool w' may same =
        let (cooled, cools) = cooling_down pool w' in
        if_rule (Does env w wallet dex nft Asked) cools _ _
          (λ cold. skip-Has env w wallet dex nft Asked _ _ cooled)
          (λ warm. open_known cooled may (cooling_down-has_mapping pool nft w' ∙ same))

    open_on :
        (o : Option Executor)
        → w.pcs ≡ o
        → Does env w wallet dex nft Asked (pcs_open_on env wallet dex e o (start w))
    open_on none h = record { shape = silent }
    open_on (some x) h =
        if_rule (Does env w wallet dex nft Asked) (x.drawdown_paused || x.sol_paused) _ _
          (λ p. skip-Has env w wallet dex nft Asked _ _ w)
          (λ np.
            if_rule (Does env w wallet dex nft Asked) (has wallet w.config.close_only_wallets.pcs) _
              _ (λ p. skip-Has env w wallet dex nft Asked _ _ w)
              (λ nc.
                let pool = known_mints e.pool_id e.pool_mints x in
                let cached : World S N R = record w {
                  pcs = some (cache_mints e.pool_id e.pool_mints x);
                } in
                if_rule (Does env w wallet dex nft Asked)
                  (blacklisted w.config.pcs_skip_sol pool cached) _ _
                  (λ listed. skip-Has env w wallet dex nft Asked _ _ cached)
                  (λ clear. open_allowed pool cached (may_add w.pcs x _ h np nc) refl)))

    pub pcs_open-Has : Does env w wallet dex nft Asked (pcs_open env wallet dex e (start w))
    unfolding pcs_open
    pcs_open-Has = open_on w.pcs refl

  module _ (nft : String) where
    increase_on :
        (o : Option Executor)
        → w.pcs ≡ o
        → Asked (copy_increase_liquidity Handler.pcs nft wallet)
        → Does env w wallet dex nft Asked (pcs_increase_on env wallet dex nft o (start w))
    increase_on none h asked = record { shape = silent }
    increase_on (some x) h asked =
        if_rule (Does env w wallet dex nft Asked) (x.sol_paused || x.drawdown_paused) _ _
          (λ p. skip-Has env w wallet dex nft Asked _ _ w)
          (λ np.
            if_rule (Does env w wallet dex nft Asked) (has wallet w.config.close_only_wallets.pcs) _
              _ (λ p. record { shape = silent })
              (λ nc.
                if_rule (Does env w wallet dex nft Asked) (has_mapping nft w) _ _
                  (λ mapped.
                    let increasing = copy_increase_liquidity Handler.pcs nft wallet in
                    let ok : Allowed w wallet increasing =
                      (may_add w.pcs x _ h (ground arith) nc, mapped, refl) in
                    perform_rule env (Does env w wallet dex nft Asked) increasing (start w) _
                      (λ w'' t. threw-Has env w wallet dex nft Asked increasing w ok asked w'' t)
                      (λ sig w'' h.
                        entry_caches-Has env w wallet dex nft Asked increasing w ok asked sig h
                          "INCREASE" sig none w'' (λ e s. s)))
                  (λ unmapped. skip-Has env w wallet dex nft Asked _ _ w)))

    pub pcs_increase-Has :
        Asked (copy_increase_liquidity Handler.pcs nft wallet)
        → Does env w wallet dex nft Asked (pcs_increase env wallet dex nft (start w))
    unfolding pcs_increase
    pcs_increase-Has asked = increase_on w.pcs refl asked

    decrease_on :
        (o : Option Executor)
        → Asked (copy_decrease_liquidity Handler.pcs nft)
        → Does env w wallet dex nft Asked (pcs_decrease_on env wallet dex nft o (start w))
    decrease_on none asked = record { shape = silent }
    decrease_on (some x) asked = reduce-Has env w wallet dex nft Asked Handler.pcs _ asked

    pub pcs_decrease-Has :
        Asked (copy_decrease_liquidity Handler.pcs nft)
        → Does env w wallet dex nft Asked (pcs_decrease env wallet dex nft (start w))
    unfolding pcs_decrease
    pcs_decrease-Has asked = decrease_on w.pcs asked

    close_on :
        (rs : List Received) (o : Option Executor)
        → Asked (copy_close_position Handler.pcs nft)
        → Does env w wallet dex nft Asked (pcs_close_on env wallet dex nft rs o (start w))
    close_on rs none asked = record { shape = silent }
    close_on rs (some x) asked =
        close-Has env w wallet dex nft Asked Handler.pcs rs _ _ asked (λ sig mapped h w''.
          closed_all-Has env w wallet dex nft Asked Handler.pcs rs sig (pool_of nft w) w'' asked
            mapped h)

    pub pcs_close-Has :
        (rs : List Received)
        → Asked (copy_close_position Handler.pcs nft)
        → Does env w wallet dex nft Asked (pcs_close env wallet dex nft rs (start w))
    unfolding pcs_close
    pcs_close-Has rs asked = close_on rs w.pcs asked
