-- ===== src/Handler/Outcome/Meteora.antt =====
-- What the handling of the events of Meteora DLMM does (src/index.ts, `handleEvent`, METEORA_*).
use clmm_copybot.Common.{
  ◌≡◌, refl, String, Bool, true, false, ◌||◌, Option, none, some, List, [], inl, inr, arith, has,
  has_text,
}
use clmm_copybot.PendingSwaps.Executor.{Received}
use clmm_copybot.Handler
use clmm_copybot.Handler.{
  Call, copy_open_position, copy_increase_liquidity, copy_decrease_liquidity, copy_close_position,
  copy_claim_fee, Executor, bot_received, emit, World, Env, Bot, start, has_mapping, pool_of,
  blacklisted, skip, record_copy, refresh_all, record_reduced, perform, refresh_caches,
  cooling_down, known_mints, cache_mints,
}
use clmm_copybot.Handler.Meteora.{
  meteora_skip_reason, meteora_answered, meteora_open_on, meteora_open, meteora_add_on, meteora_add,
  meteora_remove_on, meteora_remove, meteora_close_answered, meteora_close_on, meteora_close,
}
use clmm_copybot.Handler.Shape.{is_paused, Allowed, silent, if_rule, perform_rule}
use clmm_copybot.Handler.Outcome.Leaves.{
  after, Does, skip-Has, entry_all-Has, entry_caches-Has, entry_skip-Has, threw-Has, reduce-Has,
  close-Has, closed-Has, closed_all-Has, closed_after,
}

module _ {S N R : Type 0} (env : Env S N R) (wallet : String) (dex : Option String)
    (w : World S N R) (Asked : Call → Type 0) where
  may_add :
      (o : Option Executor) (x : Executor) (listed : Bool)
      → o ≡ some x
      → (x.drawdown_paused || x.sol_paused) ≡ false
      → listed ≡ false
      → (is_paused o ≡ false) × (listed ≡ false)
  may_add o x listed e a b = (rw e (ground arith), b)

  module _ (nft : String) where
    answered :
        (pool : String) (reason sig : Option String) (w'' : World S N R)
        → Allowed w wallet (copy_open_position Handler.meteora nft pool none wallet)
        → Asked (copy_open_position Handler.meteora nft pool none wallet)
        → (env (copy_open_position Handler.meteora nft pool none wallet) w).0 ≡ some sig
        → Does env w wallet dex nft Asked (
            meteora_answered env wallet dex nft reason sig
              (after (copy_open_position Handler.meteora nft pool none wallet) w''))
    answered pool reason none w'' ok asked h =
        if_rule (Does env w wallet dex nft Asked) (has_text reason) _ _
          (λ skipped.
            entry_skip-Has env w wallet dex nft Asked _ w ok asked none h _ _ w''
              (λ e t. inr (refl, t)))
          (λ failed.
            entry_all-Has env w wallet dex nft Asked _ w ok asked none h "OPEN" none _ w''
              (λ e s. inl s))
    answered pool reason (some sig) w'' ok asked h =
        entry_all-Has env w wallet dex nft Asked _ w ok asked (some sig) h "OPEN" (some sig) _ w''
          (λ e s. inl s)

    open_on :
        (pool : String) (o : Option Executor)
        → w.meteora ≡ o
        → Asked (copy_open_position Handler.meteora nft pool none wallet)
        → Does env w wallet dex nft Asked (meteora_open_on env wallet dex nft pool o (start w))
    open_on pool none h asked = record { shape = silent }
    open_on pool (some x) h asked =
        if_rule (Does env w wallet dex nft Asked) (x.drawdown_paused || x.sol_paused) _ _
          (λ p. skip-Has env w wallet dex nft Asked _ _ w)
          (λ np.
            if_rule (Does env w wallet dex nft Asked)
              (has wallet w.config.close_only_wallets.meteora) _ _
              (λ p. skip-Has env w wallet dex nft Asked _ _ w)
              (λ nc.
                if_rule (Does env w wallet dex nft Asked) (has_mapping nft w) _ _
                  (λ mapped. skip-Has env w wallet dex nft Asked _ _ w)
                  (λ unmapped.
                    let opening = copy_open_position Handler.meteora nft pool none wallet in
                    let ok : Allowed w wallet opening =
                      (may_add w.meteora x _ h np nc, unmapped, refl) in
                    perform_rule env (Does env w wallet dex nft Asked) opening (start w) _
                      (λ w'' t. threw-Has env w wallet dex nft Asked opening w ok asked w'' t)
                      (λ sig w'' h.
                        answered pool (meteora_skip_reason w''.meteora) sig _ ok asked h))))

    pub meteora_open-Has :
        (pool : String)
        → Asked (copy_open_position Handler.meteora nft pool none wallet)
        → Does env w wallet dex nft Asked (meteora_open env wallet dex nft pool (start w))
    unfolding meteora_open
    meteora_open-Has pool asked = open_on pool w.meteora refl asked

    add_on :
        (o : Option Executor)
        → w.meteora ≡ o
        → Asked (copy_increase_liquidity Handler.meteora nft wallet)
        → Does env w wallet dex nft Asked (meteora_add_on env wallet dex nft o (start w))
    add_on none h asked = record { shape = silent }
    add_on (some x) h asked =
        if_rule (Does env w wallet dex nft Asked) (x.sol_paused || x.drawdown_paused) _ _
          (λ p. skip-Has env w wallet dex nft Asked _ _ w)
          (λ np.
            if_rule (Does env w wallet dex nft Asked)
              (has wallet w.config.close_only_wallets.meteora) _ _ (λ p. record { shape = silent })
              (λ nc.
                if_rule (Does env w wallet dex nft Asked) (has_mapping nft w) _ _
                  (λ mapped.
                    let increasing = copy_increase_liquidity Handler.meteora nft wallet in
                    let ok : Allowed w wallet increasing =
                      (may_add w.meteora x _ h (ground arith) nc, mapped, refl) in
                    perform_rule env (Does env w wallet dex nft Asked) increasing (start w) _
                      (λ w'' t. threw-Has env w wallet dex nft Asked increasing w ok asked w'' t)
                      (λ sig w'' h.
                        entry_caches-Has env w wallet dex nft Asked increasing w ok asked sig h
                          "INCREASE" sig none w'' (λ e s. s)))
                  (λ unmapped. skip-Has env w wallet dex nft Asked _ _ w)))

    pub meteora_add-Has :
        Asked (copy_increase_liquidity Handler.meteora nft wallet)
        → Does env w wallet dex nft Asked (meteora_add env wallet dex nft (start w))
    unfolding meteora_add
    meteora_add-Has asked = add_on w.meteora refl asked

    remove_on :
        (o : Option Executor)
        → Asked (copy_decrease_liquidity Handler.meteora nft)
        → Does env w wallet dex nft Asked (meteora_remove_on env wallet dex nft o (start w))
    remove_on none asked = record { shape = silent }
    remove_on (some x) asked = reduce-Has env w wallet dex nft Asked Handler.meteora _ asked

    pub meteora_remove-Has :
        Asked (copy_decrease_liquidity Handler.meteora nft)
        → Does env w wallet dex nft Asked (meteora_remove env wallet dex nft (start w))
    unfolding meteora_remove
    meteora_remove-Has asked = remove_on w.meteora asked

    close_answered :
        (rs : List Received) (reason sig : Option String) (w'' : World S N R)
        → Asked (copy_close_position Handler.meteora nft)
        → has_mapping nft w ≡ true
        → (env (copy_close_position Handler.meteora nft) w).0 ≡ some sig
        → Does env w wallet dex nft Asked (
            meteora_close_answered env wallet dex nft
              (pool_of nft w)
              reason
              sig
              (closed_after Handler.meteora nft rs w''))
    close_answered rs reason none w'' asked mapped h =
        if_rule (Does env w wallet dex nft Asked) (has_text reason) _ _
          (λ skipped. record {
            shape =
                closed-Has env w wallet dex nft Asked Handler.meteora rs none _ [] asked mapped h
                  (refl, refl, refl) (inr (refl, refl)) tt;
          })
          (λ failed.
            closed_all-Has env w wallet dex nft Asked Handler.meteora rs none (pool_of nft w) w''
              asked mapped h)
    close_answered rs reason (some sig) w'' asked mapped h =
        closed_all-Has env w wallet dex nft Asked Handler.meteora rs (some sig) (pool_of nft w) w''
          asked mapped h

    close_on :
        (rs : List Received) (o : Option Executor)
        → Asked (copy_close_position Handler.meteora nft)
        → Does env w wallet dex nft Asked (meteora_close_on env wallet dex nft rs o (start w))
    close_on rs none asked = record { shape = silent }
    close_on rs (some x) asked =
        close-Has env w wallet dex nft Asked Handler.meteora rs _ _ asked (λ sig mapped h w''.
          close_answered rs (meteora_skip_reason w''.meteora) sig _ asked mapped h)

    pub meteora_close-Has :
        (rs : List Received)
        → Asked (copy_close_position Handler.meteora nft)
        → Does env w wallet dex nft Asked (meteora_close env wallet dex nft rs (start w))
    unfolding meteora_close
    meteora_close-Has rs asked = close_on rs w.meteora asked
