-- ===== src/Parser/Byreal.antt =====
-- The operations of Byreal's CLMM in a transaction (src/monitor/parser.ts).
use clmm_copybot.Common.{
  String, Bool, ◌&&◌, ◌||◌, not, Option, none, some, List, [], ◌∷◌, ◌++◌, if◌then◌else◌,
}
use clmm_copybot.Common.Int.{pos}
use clmm_copybot.PendingSwaps.Executor.{Received}
use clmm_copybot.Parser.{
  Instruction, Tx, Programs, ParsedEvent, byreal_open_position, byreal_increase_liquidity,
  byreal_decrease_liquidity, byreal_close_position,
}
use clmm_copybot.Parser.Memo.{first_memo}
use clmm_copybot.Parser.Instructions.{find_all_instructions}
use clmm_copybot.Parser.Balances.{
  find_new_nft_mints_from_tx, find_closed_nft_mints_from_tx, first_nft, parse_bot_received_tokens,
}
use clmm_copybot.Parser.Clmm.{
  has_open_position, is_token22_position, has_decrease_liquidity, has_increase_liquidity,
  has_close_position, PoolOf, pool_of,
}

unfoldable pub find_all_byreal_instructions : Programs → Tx → List Instruction
unfolding find_all_instructions
find_all_byreal_instructions programs tx = find_all_instructions programs.byreal tx

abbrev pub byreal_opened : Option String → PoolOf → String → ParsedEvent
byreal_opened referer p nft = byreal_open_position (record {
  pool_id = p.pool_id;
  tick_lower = pos 0;
  tick_upper = pos 0;
  liquidity = "0";
  referer_position = referer;
  token_amount_a = "0";
  token_amount_b = "0";
  position_nft_mint = nft;
  pool_mints = p.pool_mints;
})

abbrev pub byreal_opens : Option String → Bool → List Instruction → List String → List ParsedEvent
byreal_opens referer is_token22 ixs [] = []
byreal_opens referer is_token22 ixs (nft ∷ nfts) =
    byreal_opened referer (pool_of is_token22 ixs nft) nft
    ∷ byreal_opens referer is_token22 ixs nfts

unfoldable pub parse_byreal_open_positions :
    Programs → Tx → Option String → Bool → String → List ParsedEvent
unfolding find_all_byreal_instructions
parse_byreal_open_positions programs tx referer is_token22 wallet =
    byreal_opens referer is_token22 (find_all_byreal_instructions programs tx)
      (find_new_nft_mints_from_tx tx wallet)

abbrev pub byreal_increased : Option String → List ParsedEvent
byreal_increased none = []
byreal_increased (some nft) = byreal_increase_liquidity nft ∷ []

unfoldable pub parse_byreal_increase_liquidity : Tx → String → List ParsedEvent
parse_byreal_increase_liquidity tx wallet =
    byreal_increased (first_nft wallet tx.pre_token_balances)

abbrev pub byreal_closes : List Received → List String → List ParsedEvent
byreal_closes received [] = []
byreal_closes received (nft ∷ nfts) =
    byreal_close_position nft received ∷ byreal_closes received nfts

abbrev pub byreal_decreased : Option String → List ParsedEvent
byreal_decreased none = []
byreal_decreased (some nft) = byreal_decrease_liquidity nft "0" ∷ []

abbrev pub byreal_partial : Bool → Option String → List String → List ParsedEvent
byreal_partial has_close nft [] = if has_close then [] else byreal_decreased nft
byreal_partial has_close nft (closed ∷ more) = []

unfoldable pub parse_byreal_decrease_or_close : Tx → Bool → String → List ParsedEvent
parse_byreal_decrease_or_close tx has_close wallet =
    let closed = find_closed_nft_mints_from_tx tx wallet in
    byreal_closes (parse_bot_received_tokens tx wallet) closed
    ++ byreal_partial has_close (first_nft wallet tx.pre_token_balances) closed

unfoldable pub parse_byreal_operations :
    Programs → Tx → List String → Bool → String → List ParsedEvent
unfolding parse_byreal_open_positions parse_byreal_increase_liquidity parse_byreal_decrease_or_close
parse_byreal_operations programs tx logs has_memo wallet =
    let opening = has_open_position logs in
    let closing = has_close_position logs in
    let referer = if has_memo then first_memo logs else none in
    (if opening
      then parse_byreal_open_positions programs tx referer (is_token22_position logs) wallet
      else [])
    ++ ((if has_increase_liquidity logs && not opening
          then parse_byreal_increase_liquidity tx wallet
          else [])
        ++ (if (has_decrease_liquidity logs && not opening) || closing
            then parse_byreal_decrease_or_close tx closing wallet
            else []))
