-- ===== src/Parser.antt =====
-- Transactions of a followed wallet, read into events: src/monitor/parser.ts.
-- A transaction is what `getParsedTransaction` returns: a list that its `meta` lacks is empty.
pub mod Balances
pub mod Instructions
pub mod Memo
pub mod Clmm
pub mod Byreal
pub mod Pcs
pub mod Orca
pub mod Meteora
pub mod Dammv2
pub mod Swap
pub mod Transaction
pub mod Forks
pub mod Held
pub mod Emitted
pub mod Outcome
pub mod Unique
pub mod Samples
mod Tests
use clmm_copybot.Common.{ℕ, Bool, String, Option, List}
use clmm_copybot.Common.Int.{ℤ}
use clmm_copybot.PendingSwaps.Executor.{Received}

-- `uiAmount`, a number or null: the parser asks only whether it is 1 or 0, so a number that is not
-- whole is kept as its text.
pub data UiAmount : Type 0 where
  null_amount : UiAmount
  whole : ℕ → UiAmount
  fraction : String → UiAmount

-- `amount` is the raw amount, a decimal string in the source.
pub record TokenBalance : Type 0 where
  pub account_index : ℕ
  pub mint : String
  pub owner : Option String
  pub amount : ℕ
  pub decimals : ℕ
  pub ui_amount : UiAmount
  pub ui_amount_string : Option String

-- An instruction that the RPC node has decoded itself carries neither accounts nor data.
pub record Instruction : Type 0 where
  pub program_id : String
  pub accounts : Option (List String)
  pub data_text : Option String

pub record Tx : Type 0 where
  pub instructions : List Instruction
  pub inner_instructions : List (List Instruction)
  pub pre_token_balances : List TokenBalance
  pub post_token_balances : List TokenBalance
  pub err : Bool
  pub fee : Option ℕ
  pub pre_balances : Option (List ℕ)
  pub post_balances : Option (List ℕ)
  pub account_keys : List String

-- The program ids of the configuration.
pub record Programs : Type 0 where
  pub byreal : String
  pub orca : String
  pub meteora : String
  pub pcs : String
  pub memo : String
  pub pcs_enabled : Bool

pub record OpenPosition : Type 0 where
  pub pool_id : String
  pub tick_lower : ℤ
  pub tick_upper : ℤ
  pub liquidity : String
  pub referer_position : Option String
  pub token_amount_a : String
  pub token_amount_b : String
  pub position_nft_mint : String
  pub pool_mints : Option String

pub record JupiterSwap : Type 0 where
  pub input_mint : String
  pub output_mint : String
  pub input_amount : String
  pub output_amount : String
  pub input_decimals : ℕ
  pub output_decimals : ℕ
  pub input_amount_raw : ℕ
  pub input_pre_balance_raw : ℕ

-- The constructors are the `type` tags of the source with their fields in its order.
pub data ParsedEvent : Type 0 where
  jupiter_swap : JupiterSwap → ParsedEvent
  byreal_open_position : OpenPosition → ParsedEvent
  byreal_increase_liquidity : String → ParsedEvent
  byreal_decrease_liquidity : String → String → ParsedEvent
  byreal_close_position : String → List Received → ParsedEvent
  byreal_collect_fees : String → ParsedEvent
  orca_open_position : String → ℤ → ℤ → String → ParsedEvent
  orca_close_position : String → List Received → ParsedEvent
  orca_increase_liquidity : String → ParsedEvent
  orca_decrease_liquidity : String → ParsedEvent
  meteora_open_position : String → ℤ → ℤ → String → ParsedEvent
  meteora_close_position : String → List Received → ParsedEvent
  meteora_add_liquidity : String → ParsedEvent
  meteora_remove_liquidity : String → ParsedEvent
  pcs_open_position : OpenPosition → ParsedEvent
  pcs_increase_liquidity : String → ParsedEvent
  pcs_decrease_liquidity : String → String → ParsedEvent
  pcs_close_position : String → List Received → ParsedEvent
  pcs_collect_fees : String → ParsedEvent
  dammv2_open_position : String → String → ParsedEvent
  dammv2_close_position : String → List Received → ParsedEvent
  dammv2_add_liquidity : String → ParsedEvent
  dammv2_remove_liquidity : String → ParsedEvent
  dammv2_claim_fee : String → ParsedEvent
  unknown : ParsedEvent
