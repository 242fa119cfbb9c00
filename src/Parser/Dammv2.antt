-- ===== src/Parser/Dammv2.antt =====
-- The operations of Meteora DAMM v2 in a transaction (src/monitor/parser.ts).
use clmm_copybot.Common.{
  ℕ, String, Bool, true, false, ◌&&◌, ◌||◌, not, Option, none, some, List, [], ◌∷◌, ◌++◌, ltb,
  if◌then◌else◌, str_eq, length, value_or,
}
use clmm_copybot.PendingSwaps.Executor.{Received}
use clmm_copybot.Parser.{
  Instruction, Tx, ParsedEvent, dammv2_open_position, dammv2_close_position, dammv2_add_liquidity,
  dammv2_remove_liquidity, dammv2_claim_fee,
}
use clmm_copybot.Parser.Instructions.{
  find_all_instructions, account_at, accounts_of, instruction_name, dammv2_ix_disc,
}
use clmm_copybot.Parser.Balances.{
  find_new_nft_mints_from_tx, find_closed_nft_mints_from_tx, first_nft, parse_bot_received_tokens,
}

abbrev pub dammv2_program_id : String
dammv2_program_id = "cpamdpZCGKUy5JxQXB4dcpGPiikHawvSWAd6mEn1sGG"

unfoldable pub find_all_dammv2_instructions : Tx → List Instruction
unfolding find_all_instructions
find_all_dammv2_instructions tx = find_all_instructions dammv2_program_id tx

pub record Dammv2Flags : Type 0 where
  pub created : Bool
  pub closed : Bool
  pub added : Bool
  pub removed : Bool
  pub claimed : Bool

abbrev pub no_flags : Dammv2Flags
no_flags = record {
  created = false;
  closed = false;
  added = false;
  removed = false;
  claimed = false;
}

unfoldable pub flag_dammv2 : Option String → Dammv2Flags → Dammv2Flags
flag_dammv2 none f = f
flag_dammv2 (some name) f =
    if str_eq name "create_position"
    then record f { created = true }
    else if str_eq name "close_position"
    then record f { closed = true }
    else if str_eq name "add_liquidity"
    then record f { added = true }
    else if str_eq name "remove_liquidity" || str_eq name "remove_all_liquidity"
    then record f { removed = true }
    else if str_eq name "claim_position_fee"
    then record f { claimed = true }
    else f

abbrev pub dammv2_added : Option String → List ParsedEvent
dammv2_added none = []
dammv2_added (some nft) = dammv2_add_liquidity nft ∷ []

unfoldable pub parse_dammv2_add_liquidity : Tx → String → List ParsedEvent
parse_dammv2_add_liquidity tx wallet = dammv2_added (first_nft wallet tx.pre_token_balances)

abbrev pub dammv2_closes : List Received → List String → List ParsedEvent
dammv2_closes received [] = []
dammv2_closes received (nft ∷ nfts) =
    dammv2_close_position nft received ∷ dammv2_closes received nfts

abbrev pub dammv2_removed : Option String → List ParsedEvent
dammv2_removed none = []
dammv2_removed (some nft) = dammv2_remove_liquidity nft ∷ []

abbrev pub dammv2_partial : Bool → Option String → List String → List ParsedEvent
dammv2_partial has_close nft [] = if has_close then [] else dammv2_removed nft
dammv2_partial has_close nft (closed ∷ more) = []

unfoldable pub parse_dammv2_remove_or_close : Tx → Bool → String → List ParsedEvent
parse_dammv2_remove_or_close tx has_close wallet =
    let closed = find_closed_nft_mints_from_tx tx wallet in
    dammv2_closes (parse_bot_received_tokens tx wallet) closed
    ++ dammv2_partial has_close (first_nft wallet tx.pre_token_balances) closed

abbrev pub dammv2_claimed : Option String → List ParsedEvent
dammv2_claimed none = []
dammv2_claimed (some nft) = dammv2_claim_fee nft ∷ []

module _ (decode : String → Option (List ℕ)) where
  unfoldable pub dammv2_flags : List Instruction → Dammv2Flags → Dammv2Flags
  unfolding flag_dammv2
  dammv2_flags [] f = f
  dammv2_flags (ix ∷ ixs) f =
      dammv2_flags ixs (flag_dammv2 (instruction_name decode dammv2_ix_disc ix) f)

  -- Account 3 of the first `create_position`, whichever NFT it is for.
  unfoldable pub created_pool : List Instruction → String
  created_pool [] = ""
  created_pool (ix ∷ ixs) =
      let accounts = accounts_of ix in
      let rest = created_pool ixs in
      if str_eq (value_or (instruction_name decode dammv2_ix_disc ix) "") "create_position"
        && ltb 3 (length accounts)
      then account_at 3 accounts
      else rest

  abbrev pub dammv2_opens : List Instruction → List String → List ParsedEvent
  dammv2_opens ixs [] = []
  dammv2_opens ixs (nft ∷ nfts) =
      dammv2_open_position (created_pool ixs) nft ∷ dammv2_opens ixs nfts

  unfoldable pub parse_dammv2_open_positions : Tx → List Instruction → String → List ParsedEvent
  unfolding created_pool
  parse_dammv2_open_positions tx ixs wallet =
      dammv2_opens ixs (find_new_nft_mints_from_tx tx wallet)

  unfoldable pub parse_dammv2_operations : Tx → String → List ParsedEvent
  unfolding dammv2_flags
  parse_dammv2_operations tx wallet =
      let ixs = find_all_dammv2_instructions tx in
      let f = dammv2_flags ixs no_flags in
      (if f.created then parse_dammv2_open_positions tx ixs wallet else [])
      ++ ((if f.added && not f.created then parse_dammv2_add_liquidity tx wallet else [])
          ++ ((if (f.removed && not f.created) || f.closed
                then parse_dammv2_remove_or_close tx f.closed wallet
                else [])
              ++ (if f.claimed
                    && (not f.removed && (not f.closed && (not f.created && not f.added)))
                  then dammv2_claimed (first_nft wallet tx.pre_token_balances)
                  else [])))
