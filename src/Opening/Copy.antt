-- ===== src/Opening/Copy.antt =====
-- The opening itself (src/executor/byreal-position.ts, `copyOpenPosition`): its guards, the lock, the
-- two attempts to send it, and what is recorded of it.
use clmm_copybot.Common.{
  ℕ, String, Bool, true, false, ◌&&◌, ◌||◌, not, Option, none, some, if◌then◌else◌, ltb, leb, ◌==◌,
  is_text, has_text, or_none, includes, concat, value_or,
}
use clmm_copybot.Common.Dict.{insert}
use clmm_copybot.Opening.{
  OpenConfig, Numerals, PositionInfo, Deposit, Sent, retry_get_position, get_token_balance,
  send_open, Net, Opener, Result, ok, returned, threw, and_then, ask,
}
use clmm_copybot.Opening.Filters.{pool_label, filters}
use clmm_copybot.Opening.Funding.{fund_a, fund_b, deposit}
use clmm_copybot.OpenedReferers.{add_opened_referer, is_referer_duplicate}
use clmm_copybot.PositionMap.{set, set_locked_sol, set_target_liquidity}
use clmm_copybot.PositionMap.Queries.{get, get_byreal_open_count}
use clmm_copybot.Ratios.{scale_amount, get_amount_ratio}

-- `isRetryableSimError`, and the test for too little SOL.
abbrev pub lacks_lamports : (String → String) → String → Bool
lacks_lamports lower message = includes (lower message) "insufficient lamports"

abbrev pub is_retryable_sim_error : (String → String) → String → Bool
is_retryable_sim_error lower message =
    (includes (lower message) "simulation failed" || includes (lower message) "insufficient funds")
    && not (lacks_lamports lower message)

abbrev pub is_cap_reached : ℕ → ℕ → Bool
is_cap_reached cap current = ltb 0 cap && leb cap current

module _ {R N : Type 0} (c : OpenConfig R N) (f : Numerals R N) where
  abbrev pub scaled : String → ℕ → ℕ
  scaled wallet amount =
      scale_amount f.ratios amount
        (get_amount_ratio c.wallet_amount_ratios c.amount_ratio (some wallet))

  abbrev pub cap_reason : ℕ → String
  cap_reason current =
      concat "Byreal position cap reached (" (
        concat (f.decimal current)
          (concat "/" (concat (f.decimal c.byreal_max_open_positions) ")")))

module _ {S R N : Type 0} (c : OpenConfig R N) (f : Numerals R N) (net : Net N)
    (nft pool_id : String) (referer : Option String) (wallet : String) where
  abbrev pub save_mapping : PositionInfo → String → Opener S → Opener S
  save_mapping p address s = record s {
    positions = set_target_liquidity nft p.liquidity (
        set_locked_sol nft s.rent_per_position (
          set nft address (some (pool_label p)) (some wallet) (some p.tick_lower)
            (some p.tick_upper) none s.now s.positions));
    pool_id_to_mints = insert pool_id (pool_label p) s.pool_id_to_mints;
  }

  abbrev pub track_referer : String → Opener S → Opener S
  track_referer address s =
      if has_text referer
      then record s {
        referers = add_opened_referer (value_or referer "") nft address wallet s.now s.referers;
      }
      else s

  -- Saved before the confirmation, which may time out though the transaction lands.
  unfoldable pub record_sent : PositionInfo → Sent → Opener S → Opener S
  record_sent p sent s =
      track_referer sent.nft_address
        (if is_text sent.nft_address then save_mapping p sent.nft_address s else s)

  abbrev pub send : PositionInfo → Deposit → Opener S → Result Sent × Opener S
  send p d s = ask net (send_open p d (or_none referer)) s

  -- Another attempt after an error that may be retried.
  abbrev pub or_retry :
      (Opener S → Result Sent × Opener S) → Result Sent × Opener S → Result Sent × Opener S
  or_retry again (ok sent, s) = (ok sent, s)
  or_retry again (returned r, s) = (returned r, s)
  or_retry again (threw message, s) =
      if is_retryable_sim_error f.to_lower_case message then again s else (threw message, s)

  -- The second attempt, which is the last, reads the balances again.
  abbrev pub send_again : PositionInfo → ℕ → ℕ → Opener S → Result Sent × Opener S
  send_again p target_a target_b s = and_then (ask net (get_token_balance p.mint_a) s) (λ a s.
      and_then (ask net (get_token_balance p.mint_b) s)
        (λ b s. send p (deposit target_a target_b a b) s))

  unfoldable pub send_attempts : PositionInfo → ℕ → ℕ → ℕ → ℕ → Opener S → Result Sent × Opener S
  unfolding deposit
  send_attempts p target_a target_b a b s =
      or_retry (send_again p target_a target_b) (send p (deposit target_a target_b a b) s)

  abbrev pub sent_open : PositionInfo → Sent → Opener S → Result Unit × Opener S
  sent_open p sent s = (returned (some sent.tx_sig), record_sent p sent s)

  abbrev pub open_with : PositionInfo → ℕ → ℕ → Opener S → Result Unit × Opener S
  open_with p a b s =
      if (a == 0) && (b == 0)
      then (returned none, s)
      else and_then
          (send_attempts p (scaled c f wallet p.amount_a) (scaled c f wallet p.amount_b) a b s)
          (sent_open p)

  unfoldable pub fund_and_open : PositionInfo → Opener S → Result Unit × Opener S
  unfolding fund_a fund_b send_attempts record_sent
  fund_and_open p s = and_then (ask net (get_token_balance p.mint_a) s) (λ a s.
      and_then (ask net (get_token_balance p.mint_b) s) (λ b s.
        and_then (fund_a net p (scaled c f wallet p.amount_a) a b s) (λ a s.
          and_then (fund_b net p (scaled c f wallet p.amount_b) a b s) (λ b s. open_with p a b s))))

  abbrev pub open_read : Option PositionInfo → Opener S → Result Unit × Opener S
  open_read none s = (returned none, s)
  open_read (some p) s = and_then (filters c f net wallet p s) (λ u s. fund_and_open p s)

  -- What the `try` encloses.
  unfoldable pub open_locked : Opener S → Result Unit × Opener S
  unfolding filters fund_and_open
  open_locked s = and_then (ask net (retry_get_position nft) s) open_read

  abbrev pub release : Opener S → Opener S
  release s = record s { busy = false }

  abbrev pub caught : String → Opener S → Opener S
  caught message s =
      if lacks_lamports f.to_lower_case message
      then record s { sol_paused = true; sol_paused_at = some s.now }
      else s

  -- The `catch` and the `finally`.
  abbrev pub closed : Result Unit × Opener S → Option String × Opener S
  closed (ok u, s) = (none, release s)
  closed (returned r, s) = (r, release s)
  closed (threw message, s) = (none, release (caught message s))

  abbrev pub acquire : Opener S → Opener S
  acquire s = record s { busy = true }

  unfoldable pub open_unlocked : Opener S → Option String × Opener S
  unfolding open_locked
  open_unlocked s = if s.busy then (none, s) else closed (open_locked (acquire s))

  unfoldable pub copy_open_position : Opener S → Option String × Opener S
  unfolding open_unlocked
  copy_open_position s =
      let current = get_byreal_open_count s.positions in
      if has_text (get nft s.positions)
      then (none, s)
      else if has_text referer && is_referer_duplicate referer wallet c.referer_policy s.referers
      then (none, s)
      else if is_cap_reached c.byreal_max_open_positions current
      then (none, record s { last_skip_reason = some (cap_reason c f current) })
      else if c.dry_run
      then (some "dry-run-open-position", s)
      else open_unlocked s
