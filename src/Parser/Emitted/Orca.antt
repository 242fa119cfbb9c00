-- ===== src/Parser/Emitted/Orca.antt =====
-- The events of the parser of Orca (src/monitor/parser.ts).
use clmm_copybot.Common.{
  ℕ, ◌≡◌, refl, String, Bool, true, false, ◌&&◌, ◌||◌, not, Option, List, [], ◌∷◌, arith, All,
  All-append, All-if,
}
use clmm_copybot.Common.Int.{ℤ}
use clmm_copybot.PendingSwaps.Executor.{Received}
use clmm_copybot.Parser.{
  Instruction, Tx, Programs, ParsedEvent, orca_open_position, orca_increase_liquidity,
  orca_decrease_liquidity, orca_close_position,
}
use clmm_copybot.Parser.Balances.{
  find_closed_nft_mints_from_tx, find_new_nft_mints_from_tx, first_nft, parse_bot_received_tokens,
}
use clmm_copybot.Parser.Orca.{
  find_all_orca_instructions, OrcaFlags, no_flags, orca_flags, orca_opens, orca_increased,
  orca_closes, orca_decreased, orca_partial, parse_orca_open_positions,
  parse_orca_increase_liquidity, parse_orca_decrease_or_close, parse_orca_operations,
}
use clmm_copybot.Parser.Emitted.{
  Before, After, new_After, closed_Before, closes-All, first-All, partial-All,
}

module _ (P : ParsedEvent → Type 0) (tx : Tx) (wallet : String) where
  opens-All :
      (ixs : List Instruction)
      → ((pool : String) (a b : ℤ) (m : String)
          → After P tx wallet m
          → P (orca_open_position pool a b m))
      → (ms : List String) → All (After P tx wallet) ms
      → All P (orca_opens ixs ms)
  opens-All ixs h [] hs = tt
  opens-All ixs h (m ∷ ms) (a, hs) = (h _ _ _ m a, opens-All ixs h ms hs)

  decrease_or_close-All :
      (has_close : Bool)
      → (has_close ≡ false → (m : String) → Before P tx wallet m → P (orca_decrease_liquidity m))
      → ((m : String) (rs : List Received) → Before P tx wallet m → P (orca_close_position m rs))
      → All P (parse_orca_decrease_or_close tx has_close wallet)
  unfolding parse_orca_decrease_or_close
  decrease_or_close-All has_close dec close =
      All-append P _ _
        (closes-All P tx wallet (λ m. orca_close_position m (parse_bot_received_tokens tx wallet))
          (orca_closes (parse_bot_received_tokens tx wallet)) refl (λ m ms. refl)
          (λ m. close m (parse_bot_received_tokens tx wallet))
          (find_closed_nft_mints_from_tx tx wallet) (closed_Before P tx wallet))
        (partial-All P tx wallet has_close
          (orca_partial has_close (first_nft wallet tx.pre_token_balances))
          (orca_decreased (first_nft wallet tx.pre_token_balances)) refl (λ m ms. refl)
          (λ e.
            first-All P tx wallet orca_decreased orca_decrease_liquidity refl (λ m. refl) (dec e))
          (find_closed_nft_mints_from_tx tx wallet))

  -- What the loop over the instructions finds.
  abbrev pub flags_in : (String → Option (List ℕ)) → Programs → OrcaFlags
  flags_in decode programs = orca_flags decode (find_all_orca_instructions programs tx) no_flags

  pub orca-All :
      (decode : String → Option (List ℕ)) (programs : Programs)
      → ((flags_in decode programs).opened ≡ true
          → (pool : String) (a b : ℤ) (m : String) → After P tx wallet m
          → P (orca_open_position pool a b m))
      → ((flags_in decode programs).opened ≡ false
          → (m : String) → Before P tx wallet m
          → P (orca_increase_liquidity m))
      → ((flags_in decode programs).opened ≡ false
          → (m : String) → Before P tx wallet m
          → P (orca_decrease_liquidity m))
      → ((m : String) (rs : List Received) → Before P tx wallet m → P (orca_close_position m rs))
      → All P (parse_orca_operations decode programs tx wallet)
  unfolding parse_orca_operations parse_orca_open_positions parse_orca_increase_liquidity
  orca-All decode programs opened inc dec close =
      let f = flags_in decode programs in
      All-append P _ _
        (All-if P f.opened _ (λ o.
          opens-All _ (opened o) (find_new_nft_mints_from_tx tx wallet) (new_After P tx wallet)))
        (All-append P _ _
          (All-if P (f.increased && not f.opened) _ (λ i.
            first-All P tx wallet orca_increased orca_increase_liquidity refl (λ m. refl)
              (inc (ground (arith, i)))))
          (All-append P _ _
            (All-if P ((f.decreased && not f.opened) || f.closed) _
              (λ d. decrease_or_close-All f.closed (λ e. dec (ground (arith, d, e))) close))
            (All-if P
              (f.collected
                && (not f.decreased && (not f.closed && (not f.opened && not f.increased))))
              _ (λ d. decrease_or_close-All false (λ e. dec (ground (arith, d))) close))))
