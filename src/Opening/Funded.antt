-- ===== src/Opening/Funded.antt =====
-- What holds of the funding and the sending of an opening (src/executor/byreal-position.ts,
-- `copyOpenPosition`).
use clmm_copybot.Common.{
  ℕ, ◌≤◌, ◌-◌, String, Bool, true, false, Option, none, some, ltb, ◌==◌, arith, Bool-cases, inl,
  inr, has_text, or_none, str_eq, value_or,
}
use clmm_copybot.Handler.Shape.{if_rule}
use clmm_copybot.Opening.{
  OpenConfig, Numerals, PositionInfo, Deposit, Sent, get_token_balance, swap_for_token,
  swap_via_byreal_pool, get_actual_swap_output, send_open, Net, Opener, Result, ok, returned, threw,
  ask,
}
use clmm_copybot.Opening.Copy
use clmm_copybot.Opening.Copy.{is_retryable_sim_error, send_attempts}
use clmm_copybot.Opening.Funding
use clmm_copybot.Opening.Funding.{is_short, fund_a, fund_b, deposit}
use clmm_copybot.Opening.Rules.{
  Quiet, Ends, goes_on, gives_up, then_rule, Any, Answered, ask_rule, ask_then, forget, weaken,
}
use clmm_copybot.PendingSwaps.Executor.{usdc_mint, native_mint}

module _ {S N : Type 0} (net : Net N) (s : Opener S) where
  swap_usdc-Ends :
      (mint : String) (deficit : ℕ) (s' : Opener S)
      → Quiet s s'
      → Ends Any s (Funding.swap_usdc net mint deficit s')
  swap_usdc-Ends mint deficit s' q =
      if_rule (Ends Any s) (str_eq mint usdc_mint) _ _ (λ same. goes_on Any s none s' tt q)
        (λ other. forget _ s _ (ask_rule net s (swap_for_token usdc_mint mint deficit) s' q))

  or_else-Ends :
      (sig : Option String) (try : Opener S → Result (Option String) × Opener S) (s' : Opener S)
      → Quiet s s'
      → Ends Any s (try s')
      → Ends Any s (Funding.or_else net sig try s')
  or_else-Ends sig try s' q h =
      if_rule (Ends Any s) (has_text sig) _ _ (λ there. goes_on Any s sig s' tt q) (λ lacks. h)

  swap_pair-Ends :
      (from to : String) (deficit : ℕ) (s' : Opener S)
      → Quiet s s'
      → Ends Any s (Funding.swap_pair net from to deficit s')
  swap_pair-Ends from to deficit s' q =
      ask_then net s Any (swap_for_token from to deficit) s' _ q (λ sig s'' h r.
        or_else-Ends sig (ask net (swap_via_byreal_pool from to deficit)) s'' r
          (forget _ s _ (ask_rule net s (swap_via_byreal_pool from to deficit) s'' r)))

  swap_for_a-Ends :
      (p : PositionInfo) (deficit b : ℕ) (s' : Opener S)
      → Quiet s s'
      → Ends Any s (Funding.swap_for_a net p deficit b s')
  swap_for_a-Ends p deficit b s' q =
      if_rule (Ends Any s) (str_eq p.mint_a native_mint) _ _
        (λ sol. swap_usdc-Ends p.mint_a deficit s' q)
        (λ other.
          then_rule Any Any s _ _
            (if_rule (Ends Any s) (b == 0) _ _ (λ empty. goes_on Any s none s' tt q)
              (λ held. swap_pair-Ends p.mint_b p.mint_a deficit s' q))
            (λ sig s'' h r.
              or_else-Ends sig (Funding.swap_usdc net p.mint_a deficit) s'' r
                (swap_usdc-Ends p.mint_a deficit s'' r)))

  swap_for_b-Ends :
      (p : PositionInfo) (deficit a : ℕ) (s' : Opener S)
      → Quiet s s'
      → Ends Any s (Funding.swap_for_b net p deficit a s')
  swap_for_b-Ends p deficit a s' q =
      if_rule (Ends Any s) (str_eq p.mint_b native_mint) _ _
        (λ sol. swap_usdc-Ends p.mint_b deficit s' q)
        (λ other. then_rule Any Any s _ _ (swap_usdc-Ends p.mint_b deficit s' q) (λ sig s'' h r.
          if_rule (Ends Any s) (has_text sig) _ _ (λ there. goes_on Any s sig s'' tt r)
            (λ lacks.
              if_rule (Ends Any s) (a == 0) _ _ (λ empty. goes_on Any s sig s'' tt r)
                (λ held. swap_pair-Ends p.mint_a p.mint_b deficit s'' r))))

  balance_after-Ends :
      (mint : String) (held : ℕ) (added : Option ℕ) (s' : Opener S)
      → Quiet s s'
      → Ends Any s (Funding.balance_after net mint held added s')
  balance_after-Ends mint held none s' q =
      forget _ s _ (ask_rule net s (get_token_balance mint) s' q)
  balance_after-Ends mint held (some n) s' q = goes_on Any s _ s' tt q

  after_swap-Ends :
      (mint : String) (held : ℕ) (sig : Option String) (s' : Opener S)
      → Quiet s s'
      → Ends Any s (Funding.after_swap net mint held sig s')
  after_swap-Ends mint held sig s' q =
      if_rule (Ends Any s) (has_text sig) _ _
        (λ there.
          ask_then net s Any (get_actual_swap_output (value_or sig "") mint) s' _ q
            (λ added s'' h r. balance_after-Ends mint held added s'' r))
        (λ lacks. gives_up Any s s' q)

  pub fund_a-Ends :
      (p : PositionInfo) (target a b : ℕ) (s' : Opener S)
      → Quiet s s'
      → Ends Any s (fund_a net p target a b s')
  unfolding fund_a
  fund_a-Ends p target a b s' q =
      if_rule (Ends Any s) (is_short a target) _ _
        (λ short.
          then_rule Any Any s _ _ (swap_for_a-Ends p (target - a) b s' q)
            (λ sig s'' h r. after_swap-Ends p.mint_a a sig s'' r))
        (λ enough. goes_on Any s a s' tt q)

  pub fund_b-Ends :
      (p : PositionInfo) (target a b : ℕ) (s' : Opener S)
      → Quiet s s'
      → Ends Any s (fund_b net p target a b s')
  unfolding fund_b
  fund_b-Ends p target a b s' q =
      if_rule (Ends Any s) (is_short b target) _ _
        (λ short.
          then_rule Any Any s _ _ (swap_for_b-Ends p (target - b) a s' q)
            (λ sig s'' h r. after_swap-Ends p.mint_b b sig s'' r))
        (λ enough. goes_on Any s b s' tt q)

-- A deposit of at most the two targets.
abbrev pub IsWithin : Bool → ℕ → ℕ → ℕ → ℕ → Type 0
IsWithin true base other target_a target_b = (base ≤ target_a) × (other ≤ target_b)
IsWithin false base other target_a target_b = (base ≤ target_b) × (other ≤ target_a)

abbrev pub Within : ℕ → ℕ → Deposit → Type 0
Within target_a target_b d = IsWithin d.base_is_a d.base_amount d.other_amount_max target_a target_b

deposit-Within :
    (target_a target_b a b : ℕ) → Within target_a target_b (deposit target_a target_b a b)
unfolding deposit
deposit-Within target_a target_b a b = elim (Bool-cases (ltb 0 target_a)) [
  | inl some_a ↦ rw some_a (omega arith, omega arith)
  | inr no_a ↦ rw no_a (omega arith, omega arith)
]

module _ {S R N : Type 0} (c : OpenConfig R N) (f : Numerals R N) (net : Net N)
    (nft pool_id : String) (referer : Option String) (wallet : String) (p : PositionInfo)
    (target_a target_b : ℕ) (s : Opener S) where
  -- The transaction was sent, with a deposit of at most the targets.
  abbrev pub WasSent : Sent → Opener S → Type 0
  WasSent sent s' =
      (d : Deposit) × Answered net (send_open p d (or_none referer)) sent
      × Within target_a target_b d

  send-Ends :
      (a b : ℕ) (s' : Opener S)
      → Quiet s s'
      → Ends WasSent s
          (Copy.send c f net nft pool_id referer wallet p (deposit target_a target_b a b) s')
  send-Ends a b s' q =
      let d = deposit target_a target_b a b in
      weaken _ WasSent s _ (ask_rule net s (send_open p d (or_none referer)) s' q)
        (λ sent s'' h. (d, h, deposit-Within target_a target_b a b))

  or_retry-Ends :
      (again : Opener S → Result Sent × Opener S) (x : Result Sent × Opener S)
      → Ends WasSent s x
      → ((s' : Opener S) → Quiet s s' → Ends WasSent s (again s'))
      → Ends WasSent s (Copy.or_retry c f net nft pool_id referer wallet again x)
  or_retry-Ends again (ok sent, s') h g = h
  or_retry-Ends again (returned r, s') h g = h
  or_retry-Ends again (threw m, s') h g =
      if_rule (Ends WasSent s) (is_retryable_sim_error f.to_lower_case m) _ _
        (λ transient. g s' h.ends) (λ lasting. h)

  pub send_attempts-Ends :
      (a b : ℕ) (s' : Opener S)
      → Quiet s s'
      → Ends WasSent s (send_attempts c f net nft pool_id referer wallet p target_a target_b a b s')
  unfolding send_attempts
  send_attempts-Ends a b s' q = or_retry-Ends _ _ (send-Ends a b s' q) (λ s'' r.
      ask_then net s WasSent (get_token_balance p.mint_a) s'' _ r (λ a2 t h r2.
        ask_then net s WasSent (get_token_balance p.mint_b) t _ r2
          (λ b2 u h2 r3. send-Ends a2 b2 u r3)))
