-- ===== src/Handler/Outcome/Orca.antt =====
-- What the handling of the events of Orca does (src/index.ts, `handleEvent`, ORCA_*).
use clmm_copybot.Common.{
  ◌≡◌, refl, String, Bool, false, ◌||◌, Option, none, some, List, inl, inr, arith, has, has_text,
}
use clmm_copybot.PendingSwaps.Executor.{Received}
use clmm_copybot.Handler
use clmm_copybot.Handler.{
  Call, copy_open_position, copy_increase_liquidity, copy_decrease_liquidity, copy_close_position,
  copy_claim_fee, Executor, bot_received, emit, World, Env, Bot, start, has_mapping, pool_of,
  blacklisted, skip, record_copy, refresh_all, record_reduced, perform, refresh_caches,
  cooling_down, known_mints, cache_mints,
}
use clmm_copybot.Handler.Orca.{
  orca_skip_reason, orca_answered, orca_open_on, orca_open, orca_increase_on, orca_increase,
  orca_decrease_on, orca_decrease, orca_close_on, orca_close,
}
use clmm_copybot.Handler.Shape.{is_paused, Allowed, silent, if_rule, perform_rule}
use clmm_copybot.Handler.Outcome.Leaves.{
  after, Does, skip-Has, entry_all-Has, entry_caches-Has, entry_skip-Has, threw-Has, reduce-Has,
  close-Has, closed_all-Has,
}

module _ {S N R : Type 0} (env : Env S N R) (wallet : String) (dex : Option String)
    (w : World S N R) (Asked : Call → Type 0) where
  may_add :
      (o : Option Executor) (x : Executor) (listed : Bool)
      → o ≡ some x
      → (x.drawdown_paused || x.sol_paused) ≡ false
      → listed ≡ false
      → (is_paused o ≡ false) × (listed ≡ false)
  may_add o x listed e a b = (rw e (ground arith), b)

  module _ (nft : String) where
    answered :
        (pool : String) (pool_mints : Option String) (reason sig : Option String)
        (w'' : World S N R)
        → Allowed w wallet (copy_open_position Handler.orca nft pool none wallet)
        → Asked (copy_open_position Handler.orca nft pool none wallet)
        → (env (copy_open_position Handler.orca nft pool none wallet) w).0 ≡ some sig
        → Does env w wallet dex nft Asked (
            orca_answered env wallet dex nft pool_mints reason sig
              (after (copy_open_position Handler.orca nft pool none wallet) w''))
    answered pool pool_mints reason none w'' ok asked h =
        if_rule (Does env w wallet dex nft Asked) (has_text reason) _ _
          (λ skipped.
            entry_skip-Has env w wallet dex nft Asked _ w ok asked none h _ _ w''
              (λ e t. inr (refl, t)))
          (λ failed.
            entry_all-Has env w wallet dex nft Asked _ w ok asked none h "OPEN" none _ w''
              (λ e s. inl s))
    answered pool pool_mints reason (some sig) w'' ok asked h =
        entry_all-Has env w wallet dex nft Asked _ w ok asked (some sig) h "OPEN" (some sig) _ w''
          (λ e s. inl s)

    open_on :
        (pool : String) (pool_mints : Option String) (o : Option Executor)
        → w.orca ≡ o
        → Asked (copy_open_position Handler.orca nft pool none wallet)
        → Does env w wallet dex nft Asked
            (orca_open_on env wallet dex nft pool pool_mints o (start w))
    open_on pool pool_mints none h asked = record { shape = silent }
    open_on pool pool_mints (some x) h asked =
        if_rule (Does env w wallet dex nft Asked) (x.drawdown_paused || x.sol_paused) _ _
          (λ p. skip-Has env w wallet dex nft Asked _ _ w)
          (λ np.
            if_rule (Does env w wallet dex nft Asked) (has wallet w.config.close_only_wallets.orca)
              _ _ (λ p. skip-Has env w wallet dex nft Asked _ _ w)
              (λ nc.
                if_rule (Does env w wallet dex nft Asked) (has_mapping nft w) _ _
                  (λ mapped. skip-Has env w wallet dex nft Asked _ _ w)
                  (λ unmapped.
                    let opening = copy_open_position Handler.orca nft pool none wallet in
                    let ok : Allowed w wallet opening =
                      (may_add w.orca x _ h np nc, unmapped, refl) in
                    perform_rule env (Does env w wallet dex nft Asked) opening (start w) _
                      (λ w'' t. threw-Has env w wallet dex nft Asked opening w ok asked w'' t)
                      (λ sig w'' h.
                        answered pool pool_mints (orca_skip_reason w''.orca) sig _ ok asked h))))

    pub orca_open-Has :
        (pool : String) (pool_mints : Option String)
        → Asked (copy_open_position Handler.orca nft pool none wallet)
        → Does env w wallet dex nft Asked (orca_open env wallet dex nft pool pool_mints (start w))
    unfolding orca_open
    orca_open-Has pool pool_mints asked = open_on pool pool_mints w.orca refl asked

    increase_on :
        (o : Option Executor)
        → w.orca ≡ o
        → Asked (copy_increase_liquidity Handler.orca nft wallet)
        → Does env w wallet dex nft Asked (orca_increase_on env wallet dex nft o (start w))
    increase_on none h asked = record { shape = silent }
    increase_on (some x) h asked =
        if_rule (Does env w wallet dex nft Asked) (x.sol_paused || x.drawdown_paused) _ _
          (λ p. skip-Has env w wallet dex nft Asked _ _ w)
          (λ np.
            if_rule (Does env w wallet dex nft Asked) (has wallet w.config.close_only_wallets.orca)
              _ _ (λ p. record { shape = silent })
              (λ nc.
                if_rule (Does env w wallet dex nft Asked) (has_mapping nft w) _ _
                  (λ mapped.
                    let increasing = copy_increase_liquidity Handler.orca nft wallet in
                    let ok : Allowed w wallet increasing =
                      (may_add w.orca x _ h (ground arith) nc, mapped, refl) in
                    perform_rule env (Does env w wallet dex nft Asked) increasing (start w) _
                      (λ w'' t. threw-Has env w wallet dex nft Asked increasing w ok asked w'' t)
                      (λ sig w'' h.
                        entry_caches-Has env w wallet dex nft Asked increasing w ok asked sig h
                          "INCREASE" sig none w'' (λ e s. s)))
                  (λ unmapped. skip-Has env w wallet dex nft Asked _ _ w)))

    pub orca_increase-Has :
        Asked (copy_increase_liquidity Handler.orca nft wallet)
        → Does env w wallet dex nft Asked (orca_increase env wallet dex nft (start w))
    unfolding orca_increase
    orca_increase-Has asked = increase_on w.orca refl asked

    decrease_on :
        (o : Option Executor)
        → Asked (copy_decrease_liquidity Handler.orca nft)
        → Does env w wallet dex nft Asked (orca_decrease_on env wallet dex nft o (start w))
    decrease_on none asked = record { shape = silent }
    decrease_on (some x) asked = reduce-Has env w wallet dex nft Asked Handler.orca _ asked

    pub orca_decrease-Has :
        Asked (copy_decrease_liquidity Handler.orca nft)
        → Does env w wallet dex nft Asked (orca_decrease env wallet dex nft (start w))
    unfolding orca_decrease
    orca_decrease-Has asked = decrease_on w.orca asked

    close_on :
        (rs : List Received) (o : Option Executor)
        → Asked (copy_close_position Handler.orca nft)
        → Does env w wallet dex nft Asked (orca_close_on env wallet dex nft rs o (start w))
    close_on rs none asked = record { shape = silent }
    close_on rs (some x) asked =
        close-Has env w wallet dex nft Asked Handler.orca rs _ _ asked (λ sig mapped h w''.
          closed_all-Has env w wallet dex nft Asked Handler.orca rs sig (pool_of nft w) w'' asked
            mapped h)

    pub orca_close-Has :
        (rs : List Received)
        → Asked (copy_close_position Handler.orca nft)
        → Does env w wallet dex nft Asked (orca_close env wallet dex nft rs (start w))
    unfolding orca_close
    orca_close-Has rs asked = close_on rs w.orca asked
