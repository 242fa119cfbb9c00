-- ===== src/Parser/Meteora.antt =====
-- The operations of Meteora's DLMM in a transaction (src/monitor/parser.ts).
use clmm_copybot.Common.{
  ℕ, ◌+◌, ◌*◌, ◌-◌, String, Bool, true, false, ◌&&◌, ◌||◌, not, Option, none, some, List, [], ◌∷◌,
  ◌++◌, ltb, leb, if◌then◌else◌, str_eq, begins_with, has, length, value_or, get_elem?,
}
use clmm_copybot.Common.Int.{ℤ, pos, negsuc}
use clmm_copybot.PendingSwaps.Executor.{Received}
use clmm_copybot.Parser.{
  Instruction, Tx, Programs, ParsedEvent, meteora_open_position, meteora_close_position,
  meteora_add_liquidity, meteora_remove_liquidity,
}
use clmm_copybot.Parser.Instructions.{
  find_all_instructions, account_at, accounts_of, instruction_name, meteora_ix_disc, decoded,
}
use clmm_copybot.Parser.Balances.{parse_bot_received_tokens}

unfoldable pub find_all_meteora_instructions : Programs → Tx → List Instruction
unfolding find_all_instructions
find_all_meteora_instructions programs tx = find_all_instructions programs.meteora tx

pub record MeteoraFlags : Type 0 where
  pub initialized : Bool
  pub closed : Bool
  pub added : Bool
  pub removed : Bool
  pub claimed : Bool
  pub rebalanced : Bool

abbrev pub no_flags : MeteoraFlags
no_flags = record {
  initialized = false;
  closed = false;
  added = false;
  removed = false;
  claimed = false;
  rebalanced = false;
}

abbrev pub is_init : String → Bool
is_init name = begins_with name "initialize_position"

abbrev pub is_close : String → Bool
is_close name = begins_with name "close_position"

abbrev pub is_add : String → Bool
is_add name = begins_with name "add_liquidity"

abbrev pub is_remove : String → Bool
is_remove name = begins_with name "remove_liquidity" || str_eq name "remove_all_liquidity"

abbrev pub is_claim : String → Bool
is_claim name = begins_with name "claim_fee"

unfoldable pub flag_meteora : Option String → MeteoraFlags → MeteoraFlags
flag_meteora none f = f
flag_meteora (some name) f =
    if is_init name
    then record f { initialized = true }
    else if is_close name
    then record f { closed = true }
    else if is_add name
    then record f { added = true }
    else if is_remove name
    then record f { removed = true }
    else if is_claim name
    then record f { claimed = true }
    else if str_eq name "rebalance_liquidity"
    then record f { rebalanced = true }
    else f

-- `readInt32LE` at an offset: four bytes, the last with the sign.
unfoldable pub read_int32_le : ℕ → List ℕ → ℤ
read_int32_le offset bytes =
    let b0 = value_or (get_elem? bytes offset) 0 in
    let b1 = value_or (get_elem? bytes (offset + 1)) 0 in
    let b2 = value_or (get_elem? bytes (offset + 2)) 0 in
    let b3 = value_or (get_elem? bytes (offset + 3)) 0 in
    let n = b0 + b1 * 256 + b2 * 65536 + b3 * 16777216 in
    if ltb n 2147483648 then pos n else negsuc (4294967295 - n)

-- The lower bin and the width, 0 where the data are short or do not decode.
unfoldable pub bin_range : Option (List ℕ) → ℤ × ℤ
bin_range none = (pos 0, pos 0)
bin_range (some bytes) =
    if leb 16 (length bytes)
    then (read_int32_le 8 bytes, read_int32_le 12 bytes)
    else (pos 0, pos 0)

-- Whether the instruction has a name that passes the test.
abbrev pub named : (String → Bool) → Option String → Bool
named p none = false
named p (some name) = p name

-- `new Set()` with `add`: in the order in which they come, each once.
abbrev pub add_once : String → List String → List String
add_once x xs = if has x xs then xs else xs ++ (x ∷ [])

abbrev pub meteora_closes : List Received → List String → List ParsedEvent
meteora_closes received [] = []
meteora_closes received (p ∷ ps) = meteora_close_position p received ∷ meteora_closes received ps

abbrev pub adds : List String → List ParsedEvent
adds [] = []
adds (p ∷ ps) = meteora_add_liquidity p ∷ adds ps

abbrev pub removes : List String → List ParsedEvent
removes [] = []
removes (p ∷ ps) = meteora_remove_liquidity p ∷ removes ps

module _ (decode : String → Option (List ℕ)) where
  abbrev pub name_of : Instruction → Option String
  name_of ix = instruction_name decode meteora_ix_disc ix

  unfoldable pub meteora_flags : List Instruction → MeteoraFlags → MeteoraFlags
  unfolding flag_meteora
  meteora_flags [] f = f
  meteora_flags (ix ∷ ixs) f = meteora_flags ixs (flag_meteora (name_of ix) f)

  -- A payer other than the wallet, or too few accounts, skips the instruction.
  unfoldable pub parse_meteora_open_positions : List Instruction → String → List ParsedEvent
  parse_meteora_open_positions [] wallet = []
  parse_meteora_open_positions (ix ∷ ixs) wallet =
      let accounts = accounts_of ix in
      let shift = if str_eq (value_or (name_of ix) "") "initialize_position_pda" then 1 else 0 in
      let bins = bin_range (decoded decode ix.data_text) in
      let rest = parse_meteora_open_positions ixs wallet in
      if named is_init (name_of ix)
        && (ltb (2 + shift) (length accounts) && str_eq (account_at 0 accounts) wallet)
      then meteora_open_position (account_at (2 + shift) accounts) bins.0 bins.1
          (account_at (1 + shift) accounts)
        ∷ rest
      else rest

  -- The positions that the named instructions of the wallet are on: `sender` is the index of the
  -- sender's account, and a position that was seen is skipped.
  unfoldable pub positions_of :
      (String → Bool) → ℕ → List Instruction → String → List String → List String
  positions_of p sender [] wallet seen = seen
  positions_of p sender (ix ∷ ixs) wallet seen =
      let accounts = accounts_of ix in
      positions_of p sender ixs wallet (
        if named p (name_of ix)
          && (leb 3 (length accounts) && str_eq (account_at sender accounts) wallet)
        then add_once (account_at 0 accounts) seen
        else seen)

  unfoldable pub parse_meteora_add_liquidity : List Instruction → String → List ParsedEvent
  unfolding positions_of
  parse_meteora_add_liquidity ixs wallet = adds (positions_of is_add 2 ixs wallet [])

  -- The first claim of the wallet; `claim_fee2` has the position at index 1.
  unfoldable pub first_claim : List Instruction → String → List ParsedEvent
  first_claim [] wallet = []
  first_claim (ix ∷ ixs) wallet =
      let accounts = accounts_of ix in
      let index = if str_eq (value_or (name_of ix) "") "claim_fee2" then 1 else 0 in
      let rest = first_claim ixs wallet in
      if named is_claim (name_of ix)
        && (leb 3 (length accounts) && str_eq (account_at 2 accounts) wallet)
      then meteora_remove_liquidity (account_at index accounts) ∷ []
      else rest

  abbrev pub removed_or_claimed : List Instruction → String → List String → List ParsedEvent
  removed_or_claimed ixs wallet [] = first_claim ixs wallet
  removed_or_claimed ixs wallet (p ∷ ps) = removes (p ∷ ps)

  abbrev pub closed_or_removed : Tx → List Instruction → String → List String → List ParsedEvent
  closed_or_removed tx ixs wallet [] =
      removed_or_claimed ixs wallet (positions_of is_remove 2 ixs wallet [])
  closed_or_removed tx ixs wallet (p ∷ ps) =
      meteora_closes (parse_bot_received_tokens tx wallet) (p ∷ ps)

  -- The source's parameter `hasClosePosition` is not used.
  unfoldable pub parse_meteora_remove_or_close : Tx → List Instruction → String → List ParsedEvent
  unfolding positions_of first_claim
  parse_meteora_remove_or_close tx ixs wallet =
      closed_or_removed tx ixs wallet (positions_of is_close 1 ixs wallet [])

  -- A rebalance is only logged.
  unfoldable pub parse_meteora_operations : Programs → Tx → String → List ParsedEvent
  unfolding meteora_flags
  parse_meteora_operations programs tx wallet =
      let ixs = find_all_meteora_instructions programs tx in
      let f = meteora_flags ixs no_flags in
      (if f.initialized then parse_meteora_open_positions ixs wallet else [])
      ++ ((if f.added && not f.initialized then parse_meteora_add_liquidity ixs wallet else [])
          ++ ((if (f.removed && not f.initialized) || f.closed
                then parse_meteora_remove_or_close tx ixs wallet
                else [])
              ++ (if f.claimed
                    && (not f.removed && (not f.closed && (not f.initialized && not f.added)))
                  then parse_meteora_remove_or_close tx ixs wallet
                  else [])))
