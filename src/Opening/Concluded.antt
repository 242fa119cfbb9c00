-- ===== src/Opening/Concluded.antt =====
-- What ends what the `try` of `copyOpenPosition` encloses (src/executor/byreal-position.ts).
use clmm_copybot.Common.{
  List, ℕ, ◌≡◌, refl, sym, ap, ◌∙◌, ◌⊎◌, inl, inr, String, false, ◌&&◌, Option, none, some, ◌==◌,
  arith,
}
use clmm_copybot.Handler.Shape.{if_rule}
use clmm_copybot.Opening.{
  OpenConfig, Numerals, PositionInfo, Sent, Query, retry_get_position, get_token_balance, Net,
  Opener, Result, ok, returned, threw, and_then, replied,
}
use clmm_copybot.Opening.Copy
use clmm_copybot.Opening.Copy.{
  is_cap_reached, lacks_lamports, scaled, record_sent, fund_and_open, open_locked, open_unlocked,
  copy_open_position,
}
use clmm_copybot.Opening.Filters.{pump_mint, same_range}
use clmm_copybot.Opening.Funded.{WasSent, fund_a-Ends, fund_b-Ends, send_attempts-Ends}
use clmm_copybot.Opening.Passed.{IsCleared, Cleared, filters-Ends}
use clmm_copybot.Opening.Rules.{Quiet, Ends, Answered, ask_rule, rebase}

module _ {S R N : Type 0} (c : OpenConfig R N) (f : Numerals R N) (net : Net N)
    (nft pool_id : String) (referer : Option String) (wallet : String) where
  -- What is recorded depends on nothing that the code before it changes.
  record_sent-Quiet :
      (p : PositionInfo) (sent : Sent) (s s' : Opener S)
      → Quiet s s'
      → ((record_sent c f net nft pool_id referer wallet p sent s').positions
          ≡ (record_sent c f net nft pool_id referer wallet p sent s).positions)
        × ((record_sent c f net nft pool_id referer wallet p sent s').referers
            ≡ (record_sent c f net nft pool_id referer wallet p sent s).referers)
  unfolding record_sent
  record_sent-Quiet p sent s s' q =
      ground (arith, q.positions_same, q.referers_same, q.now_same, q.rent_same)

  module _ (s : Opener S) where
    -- The position that was read, what its owner's tokens were, and the transaction that was sent.
    pub record Opened (r : Option String) (s' : Opener S) : Type 0 where
      pub position : PositionInfo
      pub sent : Sent
      pub read : Answered net (retry_get_position nft) (some position)
      pub fresh : same_range c f net wallet position s ≡ false
      pub cleared : IsCleared c.pump_filter_mode (pump_mint f.to_lower_case position) s.pump
      pub was_sent :
          WasSent c f net nft pool_id referer wallet position
            (scaled c f wallet position.amount_a)
            (scaled c f wallet position.amount_b)
            s
            sent
            s'
      pub result : r ≡ some sent.tx_sig
      pub recorded :
          s'.positions ≡ (record_sent c f net nft pool_id referer wallet position sent s).positions
      pub claimed :
          s'.referers ≡ (record_sent c f net nft pool_id referer wallet position sent s).referers

    abbrev pub ConcludesIn : Result Unit × Opener S → Type 0
    ConcludesIn (ok u, s') = Quiet s s'
    ConcludesIn (returned r, s') = ((r ≡ none) × Quiet s s') ⊎ Opened r s'
    ConcludesIn (threw m, s') = Quiet s s'

    pub record Concludes (x : Result Unit × Opener S) : Type 0 where
      pub concludes : ConcludesIn x

    conclude_rule :
        {A : Type 0} (P : A → Opener S → Type 0) (x : Result A × Opener S)
        (k : A → Opener S → Result Unit × Opener S)
        → Ends P s x
        → ((a : A) (s' : Opener S) → P a s' → Quiet s s' → Concludes (k a s'))
        → Concludes (and_then x k)
    conclude_rule P (ok a, s') k h g = g a s' h.ends.0 h.ends.1
    conclude_rule P (returned r, s') k h g = record { concludes = inl h.ends }
    conclude_rule P (threw m, s') k h g = record { concludes = h.ends }

    module _ (p : PositionInfo) (read : Answered net (retry_get_position nft) (some p))
        (fresh : same_range c f net wallet p s ≡ false)
        (cleared : IsCleared c.pump_filter_mode (pump_mint f.to_lower_case p) s.pump) where
      open_with-Concludes :
          (a b : ℕ) (s' : Opener S)
          → Quiet s s'
          → Concludes (Copy.open_with c f net nft pool_id referer wallet p a b s')
      open_with-Concludes a b s' q =
          if_rule Concludes ((a == 0) && (b == 0)) _ _
            (λ empty. record { concludes = inl (refl, q) })
            (λ held.
              conclude_rule _ _ _
                (send_attempts-Ends c f net nft pool_id referer wallet p
                  (scaled c f wallet p.amount_a) (scaled c f wallet p.amount_b) s a b s' q)
                (λ sent s'' h r.
                  let (places, claims) = record_sent-Quiet p sent s s'' r in
                  record {
                    concludes = inr (record {
                      position = p;
                      sent = sent;
                      read = read;
                      fresh = fresh;
                      cleared = cleared;
                      was_sent = h;
                      result = refl;
                      recorded = places;
                      claimed = claims;
                    });
                  }))

      fund_and_open-Concludes :
          (s' : Opener S)
          → Quiet s s'
          → Concludes (fund_and_open c f net nft pool_id referer wallet p s')
      unfolding fund_and_open
      fund_and_open-Concludes s' q =
          conclude_rule _ _ _ (ask_rule net s (get_token_balance p.mint_a) s' q) (λ a s2 h2 q2.
            conclude_rule _ _ _ (ask_rule net s (get_token_balance p.mint_b) s2 q2) (λ b s3 h3 q3.
              conclude_rule _ _ _ (fund_a-Ends net s p (scaled c f wallet p.amount_a) a b s3 q3)
                (λ a4 s4 h4 q4.
                  conclude_rule _ _ _
                    (fund_b-Ends net s p (scaled c f wallet p.amount_b) a4 b s4 q4)
                    (λ b5 s5 h5 q5. open_with-Concludes a4 b5 s5 q5))))

    open_read-Concludes :
        (o : Option PositionInfo) (s' : Opener S)
        → Answered net (retry_get_position nft) o
        → Quiet s s'
        → s'.pump ≡ s.pump
        → Concludes (Copy.open_read c f net nft pool_id referer wallet o s')
    open_read-Concludes none s' h q same = record { concludes = inl (refl, q) }
    open_read-Concludes (some p) s' h q same =
        conclude_rule _ _ _
          (rebase (Cleared c f net wallet p s') s s' _ q (filters-Ends c f net wallet p s'))
          (λ u s'' fine r.
            fund_and_open-Concludes p h
              (ap (λ m. same_range c f net wallet p (record s { positions = m }))
                  (sym q.positions_same)
                ∙ fine.0)
              (rw (sym same) fine.1) s'' r)

    pub open_replied-Concludes :
        (x : String ⊎ Option PositionInfo) (past : List Query) (s' : Opener S)
        → net (retry_get_position nft) past ≡ x
        → Quiet s s'
        → s'.pump ≡ s.pump
        → Concludes (and_then (replied x s') (Copy.open_read c f net nft pool_id referer wallet))
    open_replied-Concludes (inl m) past s' e q same = record { concludes = q }
    open_replied-Concludes (inr o) past s' e q same = open_read-Concludes o s' (past, e) q same
