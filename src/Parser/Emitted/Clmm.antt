-- ===== src/Parser/Emitted/Clmm.antt =====
-- The events of the parsers of the two Raydium forks (src/monitor/parser.ts).
use clmm_copybot.Common.{
  ◌≡◌, refl, String, Bool, true, false, ◌&&◌, ◌||◌, not, Option, List, [], ◌∷◌, map, arith, All,
  All-append, All-if,
}
use clmm_copybot.PendingSwaps.Executor.{Received}
use clmm_copybot.Parser.{
  Instruction, Tx, Programs, OpenPosition, ParsedEvent, byreal_open_position,
  byreal_increase_liquidity, byreal_decrease_liquidity, byreal_close_position, pcs_open_position,
  pcs_increase_liquidity, pcs_decrease_liquidity, pcs_close_position,
}
use clmm_copybot.Parser.Balances.{
  find_closed_nft_mints_from_tx, find_new_nft_mints_from_tx, first_nft, parse_bot_received_tokens,
}
use clmm_copybot.Parser.Byreal.{
  byreal_opens, byreal_increased, byreal_closes, byreal_decreased, byreal_partial,
  parse_byreal_open_positions, parse_byreal_increase_liquidity, parse_byreal_decrease_or_close,
  parse_byreal_operations,
}
use clmm_copybot.Parser.Pcs.{parse_pcs_operations}
use clmm_copybot.Parser.Clmm.{
  has_open_position, has_close_position, has_increase_liquidity, has_decrease_liquidity,
}
use clmm_copybot.Parser.Forks.{to_pcs, parse_pcs-eq-parse_byreal}
use clmm_copybot.Parser.Emitted.{
  Before, After, new_After, closed_Before, closes-All, first-All, partial-All,
}

module _ (P : ParsedEvent → Type 0) (tx : Tx) (wallet : String) where
  opens-All :
      (referer : Option String) (t : Bool) (ixs : List Instruction)
      → ((o : OpenPosition) → After P tx wallet o.position_nft_mint → P (byreal_open_position o))
      → (ms : List String) → All (After P tx wallet) ms
      → All P (byreal_opens referer t ixs ms)
  opens-All referer t ixs h [] hs = tt
  opens-All referer t ixs h (m ∷ ms) (a, hs) = (h _ a, opens-All referer t ixs h ms hs)

  decrease_or_close-All :
      (has_close : Bool)
      → (has_close ≡ false
          → (m : String) (l : String) → Before P tx wallet m
          → P (byreal_decrease_liquidity m l))
      → ((m : String) (rs : List Received) → Before P tx wallet m → P (byreal_close_position m rs))
      → All P (parse_byreal_decrease_or_close tx has_close wallet)
  unfolding parse_byreal_decrease_or_close
  decrease_or_close-All has_close dec close =
      All-append P _ _
        (closes-All P tx wallet (λ m. byreal_close_position m (parse_bot_received_tokens tx wallet))
          (byreal_closes (parse_bot_received_tokens tx wallet)) refl (λ m ms. refl)
          (λ m. close m (parse_bot_received_tokens tx wallet))
          (find_closed_nft_mints_from_tx tx wallet) (closed_Before P tx wallet))
        (partial-All P tx wallet has_close
          (byreal_partial has_close (first_nft wallet tx.pre_token_balances))
          (byreal_decreased (first_nft wallet tx.pre_token_balances)) refl (λ m ms. refl)
          (λ e.
            first-All P tx wallet byreal_decreased (λ m. byreal_decrease_liquidity m "0") refl
              (λ m. refl) (λ m. dec e m "0"))
          (find_closed_nft_mints_from_tx tx wallet))

  pub byreal-All :
      (programs : Programs) (logs : List String) (has_memo : Bool)
      → (has_open_position logs ≡ true
          → (o : OpenPosition) → After P tx wallet o.position_nft_mint
          → P (byreal_open_position o))
      → (has_open_position logs ≡ false
          → (m : String) → Before P tx wallet m
          → P (byreal_increase_liquidity m))
      → (has_open_position logs ≡ false
          → (m : String) (l : String) → Before P tx wallet m
          → P (byreal_decrease_liquidity m l))
      → ((m : String) (rs : List Received) → Before P tx wallet m → P (byreal_close_position m rs))
      → All P (parse_byreal_operations programs tx logs has_memo wallet)
  unfolding parse_byreal_operations parse_byreal_open_positions parse_byreal_increase_liquidity
  byreal-All programs logs has_memo opened inc dec close =
      All-append P _ _
        (All-if P (has_open_position logs) _ (λ o.
          opens-All _ _ _ (opened o) (find_new_nft_mints_from_tx tx wallet)
            (new_After P tx wallet)))
        (All-append P _ _
          (All-if P (has_increase_liquidity logs && not (has_open_position logs)) _ (λ i.
            first-All P tx wallet byreal_increased byreal_increase_liquidity refl (λ m. refl)
              (inc (ground (arith, i)))))
          (All-if P
            ((has_decrease_liquidity logs && not (has_open_position logs))
              || has_close_position logs)
            _
            (λ d.
              decrease_or_close-All (has_close_position logs) (λ e. dec (ground (arith, d, e)))
                close)))

to_pcs-All :
    (P : ParsedEvent → Type 0) (es : List ParsedEvent)
    → All (λ e. P (to_pcs e)) es
    → All P (map to_pcs es)
to_pcs-All P [] h = tt
to_pcs-All P (e ∷ es) (h, hs) = (h, to_pcs-All P es hs)

module _ (P : ParsedEvent → Type 0) (tx : Tx) (wallet : String) where
  pub pcs-All :
      (programs : Programs) (logs : List String) (has_memo : Bool)
      → (has_open_position logs ≡ true
          → (o : OpenPosition) → After P tx wallet o.position_nft_mint
          → P (pcs_open_position o))
      → (has_open_position logs ≡ false
          → (m : String) → Before P tx wallet m
          → P (pcs_increase_liquidity m))
      → (has_open_position logs ≡ false
          → (m : String) (l : String) → Before P tx wallet m
          → P (pcs_decrease_liquidity m l))
      → ((m : String) (rs : List Received) → Before P tx wallet m → P (pcs_close_position m rs))
      → All P (parse_pcs_operations programs tx logs has_memo wallet)
  pcs-All programs logs has_memo opened inc dec close =
      rw (parse_pcs-eq-parse_byreal programs tx logs has_memo wallet) (
        to_pcs-All P _ (
          byreal-All (λ e. P (to_pcs e)) tx wallet (record programs { byreal = programs.pcs }) logs
            has_memo opened inc dec close))
