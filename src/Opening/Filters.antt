-- ===== src/Opening/Filters.antt =====
-- The filters of an opening (src/executor/byreal-position.ts, `copyOpenPosition`, 2a to 2e).
use clmm_copybot.Common.{
  ℕ, ◌*◌, ◌-◌, ◌/◌, String, Bool, true, ◌&&◌, ◌||◌, not, Option, none, some, List, if◌then◌else◌,
  ltb, is_text, has, includes, concat, str_eq,
}
use clmm_copybot.Opening.{
  PumpFilterMode, off, full, discord, OpenConfig, Numerals, PositionInfo, get_pool_info,
  check_token_liquidity, check_concentration, get_token_symbol, Net, Opener, Result, ok, and_then,
  ask, pass_over,
}
use clmm_copybot.PendingSwaps.Executor.{usdc_mint, usdt_mint, usdt_t22}
use clmm_copybot.PositionMap.Queries.{has_duplicate_tick_range}
use clmm_copybot.PumpPending
use clmm_copybot.PumpPending.{is_pump_approved, is_pump_rejected, is_pump_pending, add_pump_pending}

abbrev pub pool_label : PositionInfo → String
pool_label p = concat p.mint_a (concat "/" p.mint_b)

-- The mint of the pair that is one of pump.fun's.
abbrev pub pump_mint : (String → String) → PositionInfo → Option String
pump_mint lower p =
    if includes (lower p.mint_a) "pump"
    then some p.mint_a
    else if includes (lower p.mint_b) "pump"
    then some p.mint_b
    else none

abbrev pub is_pool_age_whitelisted : String → String → List String → Bool
is_pool_age_whitelisted mint_a mint_b whitelist = has mint_a whitelist || has mint_b whitelist

-- The pool opened less than the days ago; a pool that opens in the future has no age at all.
abbrev pub is_too_new : ℕ → ℕ → ℕ → Bool
is_too_new days now open_time = ltb (now / 1000 - open_time) (days * 86400)

-- `STABLE_MINTS`.
abbrev pub is_stable : String → Bool
is_stable mint = str_eq mint usdc_mint || (str_eq mint usdt_mint || str_eq mint usdt_t22)

module _ {R N : Type 0} (c : OpenConfig R N) (f : Numerals R N) where
  abbrev pub too_little : Option N → Bool
  too_little none = true
  too_little (some tvl) = f.is_below tvl c.min_pool_tvl

  abbrev pub tvl_text : Option N → String
  tvl_text none = "?"
  tvl_text (some tvl) = f.to_fixed tvl

module _ {S R N : Type 0} (c : OpenConfig R N) (f : Numerals R N) (net : Net N) (wallet : String)
    (p : PositionInfo) where
  abbrev pub same_range : Opener S → Bool
  same_range s =
      c.skip_same_tick_range
      && (is_text wallet
          && has_duplicate_tick_range wallet (pool_label p) p.tick_lower p.tick_upper s.positions)

  unfoldable pub filter_range : Opener S → Result Unit × Opener S
  filter_range s = if same_range s then pass_over "重複 tick 範圍" s else (ok tt, s)

  abbrev pub await_approval : String → Opener S → Result Unit × Opener S
  await_approval mint s =
      if is_pump_pending s.now mint s.pump
      then pass_over "Pump 代幣等待確認" s
      else and_then (ask net (get_token_symbol mint) s) (λ symbol s.
        pass_over "Pump 代幣等待確認" (record s {
          pump =
              add_pump_pending
                (record {
                  mint = mint;
                  symbol = symbol;
                  pool = pool_label p;
                  target_wallet = wallet;
                  detected_at = s.now;
                  status = PumpPending.pending;
                  notified_at = none;
                  resolved_at = none;
                })
                s.pump;
        }))

  abbrev pub unapproved : PumpFilterMode → String → Opener S → Result Unit × Opener S
  unapproved off mint s = (ok tt, s)
  unapproved full mint s = pass_over "Pump 代幣過濾" s
  unapproved discord mint s =
      if is_pump_rejected mint s.pump then pass_over "Pump 代幣已拒絕" s else await_approval mint s

  abbrev pub filter_pump_mint : PumpFilterMode → Option String → Opener S → Result Unit × Opener S
  filter_pump_mint off mint s = (ok tt, s)
  filter_pump_mint mode none s = (ok tt, s)
  filter_pump_mint mode (some mint) s =
      if is_pump_approved mint s.pump then (ok tt, s) else unapproved mode mint s

  unfoldable pub filter_pump : Opener S → Result Unit × Opener S
  filter_pump s = filter_pump_mint c.pump_filter_mode (pump_mint f.to_lower_case p) s

  abbrev pub check_age : Option ℕ → Opener S → Result Unit × Opener S
  check_age none s = (ok tt, s)
  check_age (some open_time) s =
      if ltb 0 open_time && is_too_new c.min_pool_age_days s.now open_time
      then pass_over
          (concat "池子太新 (" (
            concat (f.age_days (s.now / 1000) open_time)
              (concat "d < " (concat (f.decimal c.min_pool_age_days) "d)"))))
          s
      else (ok tt, s)

  unfoldable pub filter_age : Opener S → Result Unit × Opener S
  filter_age s =
      if ltb 0 c.min_pool_age_days
        && not (is_pool_age_whitelisted p.mint_a p.mint_b c.pool_age_whitelist)
      then and_then (ask net (get_pool_info p.mint_a) s) check_age
      else (ok tt, s)

  abbrev pub check_tvl : String → Option N → Opener S → Result Unit × Opener S
  check_tvl label tvl s =
      if too_little c f tvl
      then pass_over
          (concat "TVL 不足 (" (
            concat label (
              concat " $" (
                concat (tvl_text c f tvl)
                  (concat " < $" (concat (f.to_text c.min_pool_tvl) ")"))))))
          s
      else (ok tt, s)

  abbrev pub filter_mint_tvl : String → String → Opener S → Result Unit × Opener S
  filter_mint_tvl mint label s =
      if has mint c.pool_tvl_whitelist || is_stable mint
      then (ok tt, s)
      else and_then (ask net (check_token_liquidity mint) s) (check_tvl label)

  unfoldable pub filter_tvl : Opener S → Result Unit × Opener S
  filter_tvl s =
      if f.is_positive c.min_pool_tvl
      then and_then (filter_mint_tvl p.mint_a "mintA" s) (λ u s. filter_mint_tvl p.mint_b "mintB" s)
      else (ok tt, s)

  abbrev pub check_limit : Option String → Opener S → Result Unit × Opener S
  check_limit none s = (ok tt, s)
  check_limit (some reason) s = if is_text reason then pass_over reason s else (ok tt, s)

  unfoldable pub filter_concentration : Opener S → Result Unit × Opener S
  filter_concentration s =
      and_then (ask net (check_concentration p.mint_a p.mint_b wallet) s) check_limit

  unfoldable pub filters : Opener S → Result Unit × Opener S
  unfolding filter_range filter_pump filter_age filter_tvl filter_concentration
  filters s =
      and_then
        (and_then
          (and_then (and_then (filter_range s) (λ u s. filter_pump s)) (λ u s. filter_age s))
          (λ u s. filter_tvl s))
        (λ u s. filter_concentration s)
