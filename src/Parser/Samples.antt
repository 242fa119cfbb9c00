-- ===== src/Parser/Samples.antt =====
-- Sample transactions, for the tests of the parser and of the event handler.
use clmm_copybot.Common.{
  ℕ, zero, suc, ◌+◌, ◌-◌, String, true, false, Option, none, some, List, [], ◌∷◌, ltb, leb,
}
use clmm_copybot.Parser.{whole, TokenBalance, Instruction, Tx, Programs}
use clmm_copybot.Parser.Swap.{Numbers}
use clmm_copybot.Parser.Transaction.{Answer, found, failed}

abbrev pub programs : Programs
programs = record {
  byreal = "BYR";
  orca = "ORC";
  meteora = "MET";
  pcs = "PCS";
  memo = "MEMO";
  pcs_enabled = true;
}

abbrev pub balance : ℕ → String → ℕ → ℕ → TokenBalance
balance index mint amount decimals = record {
  account_index = index;
  mint = mint;
  owner = some "W";
  amount = amount;
  decimals = decimals;
  ui_amount = whole amount;
  ui_amount_string = none;
}

abbrev pub open_ix : Instruction
open_ix = record {
  program_id = "BYR";
  accounts = some ("W" ∷ "W" ∷ "NFT" ∷ "ATA" ∷ "META" ∷ "POOL" ∷ []);
  data_text = some "d";
}

abbrev pub open_tx : Tx
open_tx = record {
  instructions = open_ix ∷ [];
  inner_instructions = [];
  pre_token_balances = balance 1 "USD" 900 6 ∷ [];
  post_token_balances = balance 1 "USD" 400 6 ∷ balance 2 "NFT" 1 0 ∷ [];
  err = false;
  fee = none;
  pre_balances = none;
  post_balances = none;
  account_keys = "W" ∷ [];
}

-- The position is closed, with tokens received.
abbrev pub close_tx : Tx
close_tx = record open_tx {
  pre_token_balances = balance 1 "USD" 400 6 ∷ balance 2 "NFT" 1 0 ∷ [];
  post_token_balances = balance 1 "USD" 950 6 ∷ [];
}

abbrev pub open_logs : List String
open_logs = "Program BYR invoke" ∷ "Program log: Instruction: OpenPositionV2" ∷ []

abbrev pub close_logs : List String
close_logs = "Program BYR invoke" ∷ "Program log: Instruction: ClosePosition" ∷ []

-- `close_position` of Meteora.
abbrev pub decode : String → Option (List ℕ)
decode t = some (123 ∷ 134 ∷ 81 ∷ 0 ∷ 49 ∷ 68 ∷ 98 ∷ 98 ∷ [])

abbrev pub met_ix : Instruction
met_ix = record {
  program_id = "MET";
  accounts = some ("POS" ∷ "W" ∷ "PAIR" ∷ []);
  data_text = some "d";
}

-- Lamports, with every text read as 1.
abbrev pub numbers : Numbers ℕ
numbers = record {
  parse_float = λ t. 1;
  lamports = λ n. n;
  add = λ a b. a + b;
  sub = λ a b. a - b;
  abs = λ a. a;
  less = ltb;
  at_most = leb;
  to_fixed = λ d x. "0";
}

-- The second attempt returns the transaction.
abbrev pub rpc : Tx → ℕ → Answer
rpc tx zero = failed
rpc tx (suc i) = found tx
