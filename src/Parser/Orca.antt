-- ===== src/Parser/Orca.antt =====
-- The operations of Orca's Whirlpools in a transaction (src/monitor/parser.ts).
use clmm_copybot.Common.{
  ℕ, String, Bool, true, false, ◌&&◌, ◌||◌, not, Option, none, some, List, [], ◌∷◌, ◌++◌, ltb,
  if◌then◌else◌, str_eq, is_text, begins_with, length,
}
use clmm_copybot.Common.Int.{pos}
use clmm_copybot.PendingSwaps.Executor.{Received}
use clmm_copybot.Parser.{
  Instruction, Tx, Programs, ParsedEvent, orca_open_position, orca_increase_liquidity,
  orca_decrease_liquidity, orca_close_position,
}
use clmm_copybot.Parser.Instructions.{
  find_all_instructions, account_at, accounts_of, instruction_name, orca_ix_disc,
}
use clmm_copybot.Parser.Balances.{
  find_new_nft_mints_from_tx, find_closed_nft_mints_from_tx, first_nft, parse_bot_received_tokens,
}

unfoldable pub find_all_orca_instructions : Programs → Tx → List Instruction
unfolding find_all_instructions
find_all_orca_instructions programs tx = find_all_instructions programs.orca tx

-- The five `has…` variables of the loop.
pub record OrcaFlags : Type 0 where
  pub opened : Bool
  pub closed : Bool
  pub increased : Bool
  pub decreased : Bool
  pub collected : Bool

abbrev pub no_flags : OrcaFlags
no_flags = record {
  opened = false;
  closed = false;
  increased = false;
  decreased = false;
  collected = false;
}

unfoldable pub flag_orca : Option String → OrcaFlags → OrcaFlags
flag_orca none f = f
flag_orca (some name) f =
    if begins_with name "open_position"
    then record f { opened = true }
    else if str_eq name "close_position"
    then record f { closed = true }
    else if begins_with name "increase_liquidity"
    then record f { increased = true }
    else if begins_with name "decrease_liquidity"
    then record f { decreased = true }
    else if begins_with name "collect_fees"
    then record f { collected = true }
    else f

-- `parseOrcaOpenPositions`: the mint is account 3, the pool is account 5.
unfoldable pub match_orca_pool : String → List Instruction → String
match_orca_pool nft [] = ""
match_orca_pool nft (ix ∷ ixs) =
    let accounts = accounts_of ix in
    let rest = match_orca_pool nft ixs in
    if ltb 5 (length accounts) && str_eq (account_at 3 accounts) nft
    then account_at 5 accounts
    else rest

abbrev pub first_orca_pool : String → List Instruction → String
first_orca_pool pool [] = pool
first_orca_pool pool (ix ∷ ixs) =
    let accounts = accounts_of ix in
    if not (is_text pool) && ltb 5 (length accounts) then account_at 5 accounts else pool

abbrev pub orca_opens : List Instruction → List String → List ParsedEvent
orca_opens ixs [] = []
orca_opens ixs (nft ∷ nfts) =
    orca_open_position (first_orca_pool (match_orca_pool nft ixs) ixs) (pos 0) (pos 0) nft
    ∷ orca_opens ixs nfts

unfoldable pub parse_orca_open_positions : Programs → Tx → String → List ParsedEvent
parse_orca_open_positions programs tx wallet =
    orca_opens (find_all_orca_instructions programs tx) (find_new_nft_mints_from_tx tx wallet)

abbrev pub orca_increased : Option String → List ParsedEvent
orca_increased none = []
orca_increased (some nft) = orca_increase_liquidity nft ∷ []

unfoldable pub parse_orca_increase_liquidity : Tx → String → List ParsedEvent
parse_orca_increase_liquidity tx wallet = orca_increased (first_nft wallet tx.pre_token_balances)

abbrev pub orca_closes : List Received → List String → List ParsedEvent
orca_closes received [] = []
orca_closes received (nft ∷ nfts) = orca_close_position nft received ∷ orca_closes received nfts

abbrev pub orca_decreased : Option String → List ParsedEvent
orca_decreased none = []
orca_decreased (some nft) = orca_decrease_liquidity nft ∷ []

abbrev pub orca_partial : Bool → Option String → List String → List ParsedEvent
orca_partial has_close nft [] = if has_close then [] else orca_decreased nft
orca_partial has_close nft (closed ∷ more) = []

unfoldable pub parse_orca_decrease_or_close : Tx → Bool → String → List ParsedEvent
parse_orca_decrease_or_close tx has_close wallet =
    let closed = find_closed_nft_mints_from_tx tx wallet in
    orca_closes (parse_bot_received_tokens tx wallet) closed
    ++ orca_partial has_close (first_nft wallet tx.pre_token_balances) closed

module _ (decode : String → Option (List ℕ)) where
  unfoldable pub orca_flags : List Instruction → OrcaFlags → OrcaFlags
  unfolding flag_orca
  orca_flags [] f = f
  orca_flags (ix ∷ ixs) f = orca_flags ixs (flag_orca (instruction_name decode orca_ix_disc ix) f)

  unfoldable pub parse_orca_operations : Programs → Tx → String → List ParsedEvent
  unfolding orca_flags
  parse_orca_operations programs tx wallet =
      let f = orca_flags (find_all_orca_instructions programs tx) no_flags in
      (if f.opened then parse_orca_open_positions programs tx wallet else [])
      ++ ((if f.increased && not f.opened then parse_orca_increase_liquidity tx wallet else [])
          ++ ((if (f.decreased && not f.opened) || f.closed
                then parse_orca_decrease_or_close tx f.closed wallet
                else [])
              ++ (if f.collected
                    && (not f.decreased && (not f.closed && (not f.opened && not f.increased)))
                  then parse_orca_decrease_or_close tx false wallet
                  else [])))
