-- ===== src/Opening/Passed.antt =====
-- What holds of an opening that the filters let pass (src/executor/byreal-position.ts,
-- `copyOpenPosition`).
use clmm_copybot.Common.{
  ℕ, ◌≡◌, refl, String, Bool, true, false, ◌&&◌, not, Option, none, some, if◌then◌else◌, ltb, has,
  ◌||◌,
}
use clmm_copybot.Handler.Shape.{if_rule}
use clmm_copybot.Opening.{
  PumpFilterMode, off, full, discord, OpenConfig, Numerals, PositionInfo, get_pool_info,
  check_token_liquidity, check_concentration, get_token_symbol, Net, Opener, Result, ok, returned,
  threw, and_then, pass_over,
}
use clmm_copybot.Opening.Filters
use clmm_copybot.Opening.Filters.{
  pool_label, pump_mint, same_range, filters, filter_range, filter_pump, filter_age, filter_tvl,
  filter_concentration,
}
use clmm_copybot.Opening.Rules.{
  Quiet, Quiet-refl, Ends, goes_on, gives_up, then_rule, Any, ask_then,
}
use clmm_copybot.PumpPending.{Pump, is_pump_approved, is_pump_rejected, is_pump_pending}

-- A pump.fun token is approved wherever the filter is on.
abbrev pub IsCleared : PumpFilterMode → Option String → Pump → Type 0
IsCleared off mint pump = Unit
IsCleared mode none pump = Unit
IsCleared mode (some mint) pump = is_pump_approved mint pump ≡ true

module _ {S R N : Type 0} (c : OpenConfig R N) (f : Numerals R N) (net : Net N) (wallet : String)
    (p : PositionInfo) (s : Opener S) where
  with_fact :
      {A : Type 0} (F : Type 0) (x : Result A × Opener S) → F → Ends Any s x → Ends (λ a s'. F) s x
  with_fact F (ok a, s') fact h = record { ends = (fact, h.ends.1) }
  with_fact F (returned r, s') fact h = record { ends = h.ends }
  with_fact F (threw m, s') fact h = record { ends = h.ends }

  pass_over_rule :
      (P : Unit {0} → Opener S → Type 0) (reason : String) (s' : Opener S)
      → Quiet s s'
      → Ends P s (pass_over reason s')
  pass_over_rule P reason s' q = gives_up P s _ (record {
    positions_same = q.positions_same;
    referers_same = q.referers_same;
    now_same = q.now_same;
    rent_same = q.rent_same;
  })

  abbrev InOrder : Unit {0} → Opener S → Type 0
  InOrder u s' = (s' ≡ s) × (same_range c f net wallet p s ≡ false)

  filter_range-Ends : Ends InOrder s (filter_range c f net wallet p s)
  unfolding filter_range
  filter_range-Ends =
      if_rule (Ends InOrder s) (same_range c f net wallet p s) _ _
        (λ same. pass_over_rule InOrder _ s (Quiet-refl s))
        (λ other. goes_on InOrder s tt s (refl, other) (Quiet-refl s))

  abbrev pub Cleared : Unit {0} → Opener S → Type 0
  Cleared u s' =
      (same_range c f net wallet p s ≡ false)
      × IsCleared c.pump_filter_mode (pump_mint f.to_lower_case p) s.pump

  module _ (fresh : same_range c f net wallet p s ≡ false) where
    filter_pump_mint-Ends :
        (mode : PumpFilterMode) (mint : Option String)
        → Ends
            (λ u s'. (same_range c f net wallet p s ≡ false) × IsCleared mode mint s.pump)
            s
            (Filters.filter_pump_mint c f net wallet p mode mint s)
    filter_pump_mint-Ends off mint = goes_on _ s tt s (fresh, tt) (Quiet-refl s)
    filter_pump_mint-Ends full none = goes_on _ s tt s (fresh, tt) (Quiet-refl s)
    filter_pump_mint-Ends discord none = goes_on _ s tt s (fresh, tt) (Quiet-refl s)
    filter_pump_mint-Ends full (some mint) =
        if_rule (Ends _ s) (is_pump_approved mint s.pump) _ _
          (λ approved. goes_on _ s tt s (fresh, approved) (Quiet-refl s))
          (λ other. pass_over_rule _ _ s (Quiet-refl s))
    filter_pump_mint-Ends discord (some mint) =
        if_rule (Ends _ s) (is_pump_approved mint s.pump) _ _
          (λ approved. goes_on _ s tt s (fresh, approved) (Quiet-refl s))
          (λ other.
            if_rule (Ends _ s) (is_pump_rejected mint s.pump) _ _
              (λ refused. pass_over_rule _ _ s (Quiet-refl s))
              (λ undecided.
                if_rule (Ends _ s) (is_pump_pending s.now mint s.pump) _ _
                  (λ waits. pass_over_rule _ _ s (Quiet-refl s))
                  (λ new.
                    ask_then net s _ (get_token_symbol mint) s _ (Quiet-refl s) (λ symbol s' h q.
                      gives_up _ s _ (record {
                        positions_same = q.positions_same;
                        referers_same = q.referers_same;
                        now_same = q.now_same;
                        rent_same = q.rent_same;
                      })))))

    filter_pump-Ends : Ends Cleared s (filter_pump c f net wallet p s)
    unfolding filter_pump
    filter_pump-Ends = filter_pump_mint-Ends c.pump_filter_mode (pump_mint f.to_lower_case p)

  -- The filters that follow change nothing, and nothing is said of what they let pass.
  module _ (s' : Opener S) (q : Quiet s s') where
    passes :
        (reason : String) (b : Bool) → Ends Any s (if b then pass_over reason s' else (ok tt, s'))
    passes reason b =
        if_rule (Ends Any s) b _ _ (λ bad. pass_over_rule Any reason s' q)
          (λ fine. goes_on Any s tt s' tt q)

    check_age-Ends :
        (open_time : Option ℕ) → Ends Any s (Filters.check_age c f net wallet p open_time s')
    check_age-Ends none = goes_on Any s tt s' tt q
    check_age-Ends (some t) = passes _ _

    check_tvl-Ends :
        (label : String) (tvl : Option N)
        → Ends Any s (Filters.check_tvl c f net wallet p label tvl s')
    check_tvl-Ends label tvl = passes _ _

    check_limit-Ends :
        (reason : Option String) → Ends Any s (Filters.check_limit c f net wallet p reason s')
    check_limit-Ends none = goes_on Any s tt s' tt q
    check_limit-Ends (some reason) = passes _ _

  filter_age-Ends : (s' : Opener S) → Quiet s s' → Ends Any s (filter_age c f net wallet p s')
  unfolding filter_age
  filter_age-Ends s' q =
      if_rule (Ends Any s)
        (ltb 0 c.min_pool_age_days
          && not (Filters.is_pool_age_whitelisted p.mint_a p.mint_b c.pool_age_whitelist))
        _ _
        (λ on.
          ask_then net s Any (get_pool_info p.mint_a) s' _ q (λ t s'' h r. check_age-Ends s'' r t))
        (λ off. goes_on Any s tt s' tt q)

  filter_mint_tvl-Ends :
      (mint label : String) (s' : Opener S)
      → Quiet s s'
      → Ends Any s (Filters.filter_mint_tvl c f net wallet p mint label s')
  filter_mint_tvl-Ends mint label s' q =
      if_rule (Ends Any s) (has mint c.pool_tvl_whitelist || Filters.is_stable mint) _ _
        (λ exempt. goes_on Any s tt s' tt q)
        (λ other.
          ask_then net s Any (check_token_liquidity mint) s' _ q
            (λ tvl s'' h r. check_tvl-Ends s'' r label tvl))

  filter_tvl-Ends : (s' : Opener S) → Quiet s s' → Ends Any s (filter_tvl c f net wallet p s')
  unfolding filter_tvl
  filter_tvl-Ends s' q =
      if_rule (Ends Any s) (f.is_positive c.min_pool_tvl) _ _
        (λ on.
          then_rule Any Any s _ _ (filter_mint_tvl-Ends p.mint_a "mintA" s' q)
            (λ u s'' h r. filter_mint_tvl-Ends p.mint_b "mintB" s'' r))
        (λ off. goes_on Any s tt s' tt q)

  filter_concentration-Ends :
      (s' : Opener S) → Quiet s s' → Ends Any s (filter_concentration c f net wallet p s')
  unfolding filter_concentration
  filter_concentration-Ends s' q =
      ask_then net s Any (check_concentration p.mint_a p.mint_b wallet) s' _ q
        (λ reason s'' h r. check_limit-Ends s'' r reason)

  -- What has been shown is kept by a part that claims nothing.
  keep_rule :
      {A B : Type 0} (F : Type 0) (x : Result A × Opener S) (k : A → Opener S → Result B × Opener S)
      → Ends (λ a s'. F) s x
      → ((a : A) (s' : Opener S) → Quiet s s' → Ends Any s (k a s'))
      → Ends (λ b s'. F) s (and_then x k)
  keep_rule F x k h g =
      then_rule (λ a s'. F) (λ b s'. F) s x k h
        (λ a s' fact q. with_fact F (k a s') fact (g a s' q))

  pub filters-Ends : Ends Cleared s (filters c f net wallet p s)
  unfolding filters
  filters-Ends =
      keep_rule _ _ _
        (keep_rule _ _ _
          (keep_rule _ _ _
            (then_rule InOrder Cleared s _ _ filter_range-Ends
              (λ u s' h q. rw h.0 (filter_pump-Ends h.1)))
            (λ u s' q. filter_age-Ends s' q))
          (λ u s' q. filter_tvl-Ends s' q))
        (λ u s' q. filter_concentration-Ends s' q)
