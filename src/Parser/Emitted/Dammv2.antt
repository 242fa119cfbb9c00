-- ===== src/Parser/Emitted/Dammv2.antt =====
-- The events of the parser of Meteora DAMM v2 (src/monitor/parser.ts).
use clmm_copybot.Common.{
  ℕ, ◌≡◌, refl, String, Bool, true, false, ◌&&◌, ◌||◌, not, Option, List, [], ◌∷◌, arith, All,
  All-append, All-if,
}
use clmm_copybot.PendingSwaps.Executor.{Received}
use clmm_copybot.Parser.{
  Instruction, Tx, ParsedEvent, dammv2_open_position, dammv2_add_liquidity, dammv2_remove_liquidity,
  dammv2_close_position, dammv2_claim_fee,
}
use clmm_copybot.Parser.Balances.{
  find_closed_nft_mints_from_tx, find_new_nft_mints_from_tx, first_nft, parse_bot_received_tokens,
}
use clmm_copybot.Parser.Dammv2.{
  find_all_dammv2_instructions, Dammv2Flags, no_flags, dammv2_flags, dammv2_opens, dammv2_added,
  dammv2_closes, dammv2_removed, dammv2_partial, dammv2_claimed, parse_dammv2_open_positions,
  parse_dammv2_add_liquidity, parse_dammv2_remove_or_close, parse_dammv2_operations,
}
use clmm_copybot.Parser.Emitted.{
  Before, After, new_After, closed_Before, closes-All, first-All, partial-All,
}

module _ (P : ParsedEvent → Type 0) (tx : Tx) (wallet : String) where
  opens-All :
      (decode : String → Option (List ℕ)) (ixs : List Instruction)
      → ((pool : String) (m : String) → After P tx wallet m → P (dammv2_open_position pool m))
      → (ms : List String) → All (After P tx wallet) ms
      → All P (dammv2_opens decode ixs ms)
  opens-All decode ixs h [] hs = tt
  opens-All decode ixs h (m ∷ ms) (a, hs) = (h _ m a, opens-All decode ixs h ms hs)

  remove_or_close-All :
      (has_close : Bool)
      → (has_close ≡ false → (m : String) → Before P tx wallet m → P (dammv2_remove_liquidity m))
      → ((m : String) (rs : List Received) → Before P tx wallet m → P (dammv2_close_position m rs))
      → All P (parse_dammv2_remove_or_close tx has_close wallet)
  unfolding parse_dammv2_remove_or_close
  remove_or_close-All has_close dec close =
      All-append P _ _
        (closes-All P tx wallet (λ m. dammv2_close_position m (parse_bot_received_tokens tx wallet))
          (dammv2_closes (parse_bot_received_tokens tx wallet)) refl (λ m ms. refl)
          (λ m. close m (parse_bot_received_tokens tx wallet))
          (find_closed_nft_mints_from_tx tx wallet) (closed_Before P tx wallet))
        (partial-All P tx wallet has_close
          (dammv2_partial has_close (first_nft wallet tx.pre_token_balances))
          (dammv2_removed (first_nft wallet tx.pre_token_balances)) refl (λ m ms. refl)
          (λ e.
            first-All P tx wallet dammv2_removed dammv2_remove_liquidity refl (λ m. refl) (dec e))
          (find_closed_nft_mints_from_tx tx wallet))

  -- What the loop over the instructions finds.
  abbrev pub flags_in : (String → Option (List ℕ)) → Dammv2Flags
  flags_in decode = dammv2_flags decode (find_all_dammv2_instructions tx) no_flags

  pub dammv2-All :
      (decode : String → Option (List ℕ))
      → ((flags_in decode).created ≡ true
          → (pool : String) (m : String) → After P tx wallet m
          → P (dammv2_open_position pool m))
      → ((flags_in decode).created ≡ false
          → (m : String) → Before P tx wallet m
          → P (dammv2_add_liquidity m))
      → ((flags_in decode).created ≡ false
          → (m : String) → Before P tx wallet m
          → P (dammv2_remove_liquidity m))
      → ((m : String) (rs : List Received) → Before P tx wallet m → P (dammv2_close_position m rs))
      → ((flags_in decode).created ≡ false
          → (m : String) → Before P tx wallet m
          → P (dammv2_claim_fee m))
      → All P (parse_dammv2_operations decode tx wallet)
  unfolding parse_dammv2_operations parse_dammv2_open_positions parse_dammv2_add_liquidity
  dammv2-All decode opened inc dec close claim =
      let f = flags_in decode in
      All-append P _ _
        (All-if P f.created _ (λ o.
          opens-All decode _ (opened o) (find_new_nft_mints_from_tx tx wallet)
            (new_After P tx wallet)))
        (All-append P _ _
          (All-if P (f.added && not f.created) _ (λ i.
            first-All P tx wallet dammv2_added dammv2_add_liquidity refl (λ m. refl)
              (inc (ground (arith, i)))))
          (All-append P _ _
            (All-if P ((f.removed && not f.created) || f.closed) _
              (λ d. remove_or_close-All f.closed (λ e. dec (ground (arith, d, e))) close))
            (All-if P
              (f.claimed && (not f.removed && (not f.closed && (not f.created && not f.added)))) _
              (λ d.
                first-All P tx wallet dammv2_claimed dammv2_claim_fee refl (λ m. refl)
                  (claim (ground (arith, d)))))))
