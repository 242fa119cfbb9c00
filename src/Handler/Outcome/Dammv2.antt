-- ===== src/Handler/Outcome/Dammv2.antt =====
-- What the handling of the events of Meteora DAMM v2 does (src/index.ts, `handleEvent`, DAMMV2_*).
use clmm_copybot.Common.{
  ◌≡◌, refl, String, Bool, true, false, ◌||◌, Option, none, some, List, [], inl, inr, arith, has,
  has_text,
}
use clmm_copybot.PendingSwaps.Executor.{Received}
use clmm_copybot.Handler
use clmm_copybot.Handler.{
  Call, copy_open_position, copy_increase_liquidity, copy_decrease_liquidity, copy_close_position,
  copy_claim_fee, Executor, bot_received, emit, World, Env, Bot, start, has_mapping, pool_of,
  blacklisted, skip, record_copy, refresh_all, record_reduced, perform, refresh_caches,
  cooling_down, known_mints, cache_mints,
}
use clmm_copybot.Handler.Dammv2.{
  dammv2_skip_reason, dammv2_answered, dammv2_open_on, dammv2_open, dammv2_add_on, dammv2_add,
  dammv2_remove_on, dammv2_remove, dammv2_close_on, dammv2_close, dammv2_claim_on, dammv2_claim,
}
use clmm_copybot.Handler.Shape.{is_paused, Allowed, silent, unreported, if_rule, perform_rule}
use clmm_copybot.Handler.Outcome.Leaves.{
  after, Does, skip-Has, entry_all-Has, entry_caches-Has, entry_skip-Has, threw-Has, reduce-Has,
  close-Has, closed_all-Has,
}

module _ {S N R : Type 0} (env : Env S N R) (wallet : String) (dex : Option String)
    (w : World S N R) (Asked : Call → Type 0) where
  may_add :
      (o : Option Executor) (x : Executor) (listed : Bool)
      → o ≡ some x
      → (x.drawdown_paused || x.sol_paused) ≡ false
      → listed ≡ false
      → (is_paused o ≡ false) × (listed ≡ false)
  may_add o x listed e a b = (rw e (ground arith), b)

  module _ (nft : String) where
    answered :
        (pool : String) (reason sig : Option String) (w'' : World S N R)
        → Allowed w wallet (copy_open_position Handler.dammv2 nft pool none wallet)
        → Asked (copy_open_position Handler.dammv2 nft pool none wallet)
        → (env (copy_open_position Handler.dammv2 nft pool none wallet) w).0 ≡ some sig
        → Does env w wallet dex nft Asked (
            dammv2_answered env wallet dex nft reason sig
              (after (copy_open_position Handler.dammv2 nft pool none wallet) w''))
    answered pool reason none w'' ok asked h =
        if_rule (Does env w wallet dex nft Asked) (has_text reason) _ _
          (λ skipped.
            entry_skip-Has env w wallet dex nft Asked _ w ok asked none h _ _ w''
              (λ e t. inr (refl, t)))
          (λ failed.
            entry_all-Has env w wallet dex nft Asked _ w ok asked none h "OPEN" none _ w''
              (λ e s. inl s))
    answered pool reason (some sig) w'' ok asked h =
        entry_all-Has env w wallet dex nft Asked _ w ok asked (some sig) h "OPEN" (some sig) _ w''
          (λ e s. inl s)

    open_on :
        (pool : String) (o : Option Executor)
        → w.dammv2 ≡ o
        → Asked (copy_open_position Handler.dammv2 nft pool none wallet)
        → Does env w wallet dex nft Asked (dammv2_open_on env wallet dex nft pool o (start w))
    open_on pool none h asked = record { shape = silent }
    open_on pool (some x) h asked =
        if_rule (Does env w wallet dex nft Asked) (x.drawdown_paused || x.sol_paused) _ _
          (λ p. skip-Has env w wallet dex nft Asked _ _ w)
          (λ np.
            if_rule (Does env w wallet dex nft Asked)
              (has wallet w.config.close_only_wallets.dammv2) _ _
              (λ p. skip-Has env w wallet dex nft Asked _ _ w)
              (λ nc.
                if_rule (Does env w wallet dex nft Asked) (has_mapping nft w) _ _
                  (λ mapped. skip-Has env w wallet dex nft Asked _ _ w)
                  (λ unmapped.
                    let opening = copy_open_position Handler.dammv2 nft pool none wallet in
                    let ok : Allowed w wallet opening =
                      (may_add w.dammv2 x _ h np nc, unmapped, refl) in
                    perform_rule env (Does env w wallet dex nft Asked) opening (start w) _
                      (λ w'' t. threw-Has env w wallet dex nft Asked opening w ok asked w'' t)
                      (λ sig w'' h.
                        answered pool (dammv2_skip_reason w''.dammv2) sig _ ok asked h))))

    pub dammv2_open-Has :
        (pool : String)
        → Asked (copy_open_position Handler.dammv2 nft pool none wallet)
        → Does env w wallet dex nft Asked (dammv2_open env wallet dex nft pool (start w))
    unfolding dammv2_open
    dammv2_open-Has pool asked = open_on pool w.dammv2 refl asked

    add_on :
        (o : Option Executor)
        → w.dammv2 ≡ o
        → Asked (copy_increase_liquidity Handler.dammv2 nft wallet)
        → Does env w wallet dex nft Asked (dammv2_add_on env wallet dex nft o (start w))
    add_on none h asked = record { shape = silent }
    add_on (some x) h asked =
        if_rule (Does env w wallet dex nft Asked) (x.sol_paused || x.drawdown_paused) _ _
          (λ p. skip-Has env w wallet dex nft Asked _ _ w)
          (λ np.
            if_rule (Does env w wallet dex nft Asked)
              (has wallet w.config.close_only_wallets.dammv2) _ _ (λ p. record { shape = silent })
              (λ nc.
                if_rule (Does env w wallet dex nft Asked) (has_mapping nft w) _ _
                  (λ mapped.
                    let increasing = copy_increase_liquidity Handler.dammv2 nft wallet in
                    let ok : Allowed w wallet increasing =
                      (may_add w.dammv2 x _ h (ground arith) nc, mapped, refl) in
                    perform_rule env (Does env w wallet dex nft Asked) increasing (start w) _
                      (λ w'' t. threw-Has env w wallet dex nft Asked increasing w ok asked w'' t)
                      (λ sig w'' h.
                        entry_caches-Has env w wallet dex nft Asked increasing w ok asked sig h
                          "INCREASE" sig none w'' (λ e s. s)))
                  (λ unmapped. skip-Has env w wallet dex nft Asked _ _ w)))

    pub dammv2_add-Has :
        Asked (copy_increase_liquidity Handler.dammv2 nft wallet)
        → Does env w wallet dex nft Asked (dammv2_add env wallet dex nft (start w))
    unfolding dammv2_add
    dammv2_add-Has asked = add_on w.dammv2 refl asked

    remove_on :
        (o : Option Executor)
        → Asked (copy_decrease_liquidity Handler.dammv2 nft)
        → Does env w wallet dex nft Asked (dammv2_remove_on env wallet dex nft o (start w))
    remove_on none asked = record { shape = silent }
    remove_on (some x) asked = reduce-Has env w wallet dex nft Asked Handler.dammv2 _ asked

    pub dammv2_remove-Has :
        Asked (copy_decrease_liquidity Handler.dammv2 nft)
        → Does env w wallet dex nft Asked (dammv2_remove env wallet dex nft (start w))
    unfolding dammv2_remove
    dammv2_remove-Has asked = remove_on w.dammv2 asked

    close_on :
        (rs : List Received) (o : Option Executor)
        → Asked (copy_close_position Handler.dammv2 nft)
        → Does env w wallet dex nft Asked (dammv2_close_on env wallet dex nft rs o (start w))
    close_on rs none asked = record { shape = silent }
    close_on rs (some x) asked =
        close-Has env w wallet dex nft Asked Handler.dammv2 rs _ _ asked (λ sig mapped h w''.
          closed_all-Has env w wallet dex nft Asked Handler.dammv2 rs sig (pool_of nft w) w'' asked
            mapped h)

    pub dammv2_close-Has :
        (rs : List Received)
        → Asked (copy_close_position Handler.dammv2 nft)
        → Does env w wallet dex nft Asked (dammv2_close env wallet dex nft rs (start w))
    unfolding dammv2_close
    dammv2_close-Has rs asked = close_on rs w.dammv2 asked

    -- A claim, which leaves no entry.
    claimed :
        (sig : Option String) (w'' : World S N R)
        → Asked (copy_claim_fee nft)
        → has_mapping nft w ≡ true
        → (env (copy_claim_fee nft) w).0 ≡ some sig
        → Does env w wallet dex nft Asked (refresh_caches sig (after (copy_claim_fee nft) w''))
    claimed sig w'' asked mapped h =
        if_rule (Does env w wallet dex nft Asked) (has_text sig) _ _
          (λ there. record { shape = unreported _ w sig _ mapped asked h tt (tt, tt) })
          (λ lacks. record { shape = unreported _ w sig [] mapped asked h tt tt })

    claim_on :
        (o : Option Executor)
        → Asked (copy_claim_fee nft)
        → Does env w wallet dex nft Asked (dammv2_claim_on env wallet dex nft o (start w))
    claim_on none asked = record { shape = silent }
    claim_on (some x) asked =
        if_rule (Does env w wallet dex nft Asked) (has_mapping nft w) _ _
          (λ mapped.
            perform_rule env (Does env w wallet dex nft Asked) (copy_claim_fee nft) (start w) _
              (λ w'' t.
                threw-Has env w wallet dex nft Asked (copy_claim_fee nft) w mapped asked w'' t)
              (λ sig w'' h. claimed sig w'' asked mapped h))
          (λ unmapped. skip-Has env w wallet dex nft Asked _ _ w)

    pub dammv2_claim-Has :
        Asked (copy_claim_fee nft)
        → Does env w wallet dex nft Asked (dammv2_claim env wallet dex nft (start w))
    unfolding dammv2_claim
    dammv2_claim-Has asked = claim_on w.dammv2 asked
