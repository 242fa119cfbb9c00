-- ===== src/Parser/Instructions.antt =====
-- Instructions of a transaction: those of one program, and the names that their discriminators have
-- (src/monitor/parser.ts).
use clmm_copybot.Common.{
  ℕ, ◌/◌, ◌%◌, String, Option, none, some, List, [], ◌∷◌, ◌++◌, ltb, if◌then◌else◌, str_eq,
  value_or, length, get_elem?, take, concat,
}
use clmm_copybot.Common.Dict.{lookup}
use clmm_copybot.Parser.{Instruction, Tx}

abbrev pub of_program : String → List Instruction → List Instruction
of_program program [] = []
of_program program (ix ∷ ixs) =
    let rest = of_program program ixs in if str_eq ix.program_id program then ix ∷ rest else rest

abbrev pub inner_of_program : String → List (List Instruction) → List Instruction
inner_of_program program [] = []
inner_of_program program (inner ∷ inners) =
    of_program program inner ++ inner_of_program program inners

-- The top-level instructions of a program, then the inner ones.
unfoldable pub find_all_instructions : String → Tx → List Instruction
find_all_instructions program tx =
    of_program program tx.instructions ++ inner_of_program program tx.inner_instructions

-- `accounts[i]`, for an index that a test of the length allows.
abbrev pub account_at : ℕ → List String → String
account_at i accounts = value_or (get_elem? accounts i) ""

abbrev pub accounts_of : Instruction → List String
accounts_of ix = value_or ix.accounts []

abbrev hex_digits : List String
hex_digits =
    "0" ∷ "1" ∷ "2" ∷ "3" ∷ "4" ∷ "5" ∷ "6" ∷ "7" ∷ "8" ∷ "9" ∷ "a" ∷ "b" ∷ "c" ∷ "d" ∷ "e" ∷ "f"
    ∷ []

-- `toString('hex')` of bytes.
abbrev pub hex : List ℕ → String
hex [] = ""
hex (b ∷ bs) =
    concat (value_or (get_elem? hex_digits (b / 16)) "")
      (concat (value_or (get_elem? hex_digits (b % 16)) "") (hex bs))

-- `decode` is `bs58.decode`, with `none` where it throws.
module _ (decode : String → Option (List ℕ)) where
  abbrev first_eight : Option (List ℕ) → String
  first_eight none = ""
  first_eight (some bytes) = if ltb (length bytes) 8 then "" else hex (take 8 bytes)

  abbrev pub decoded : Option String → Option (List ℕ)
  decoded none = none
  decoded (some text) = decode text

  unfoldable pub get_ix_discriminator : Option String → String
  get_ix_discriminator text = first_eight (decoded text)

  -- `TABLE[getIxDiscriminator(ix.data)]`.
  unfoldable pub instruction_name : List (String × String) → Instruction → Option String
  unfolding get_ix_discriminator
  instruction_name table ix = lookup (get_ix_discriminator ix.data_text) table

abbrev pub orca_ix_disc : List (String × String)
orca_ix_disc =
    ("2e9cf3760dcdfbb2", "increase_liquidity")
    ∷ ("851d59df45eeb00a", "increase_liquidity_v2")
    ∷ ("a026d06f685b2c01", "decrease_liquidity")
    ∷ ("3a7fbc3e4f52c460", "decrease_liquidity_v2")
    ∷ ("a498cf631eba13b6", "collect_fees")
    ∷ ("cf755fbfe5b4e20f", "collect_fees_v2")
    ∷ ("87802f4d0f98f031", "open_position")
    ∷ ("f21d86303a6e0e3c", "open_position_with_metadata")
    ∷ ("d42f5f5c726683fa", "open_position_with_token_extensions")
    ∷ ("7b86510031446262", "close_position")
    ∷ []

abbrev pub dammv2_ix_disc : List (String × String)
dammv2_ix_disc =
    ("30d7c59960cbb485", "create_position")
    ∷ ("b59d59438fb63448", "add_liquidity")
    ∷ ("5055d14818ceb16c", "remove_liquidity")
    ∷ ("0a333d2370691855", "remove_all_liquidity")
    ∷ ("7b86510031446262", "close_position")
    ∷ ("b4269a118521a2d3", "claim_position_fee")
    ∷ ("955fb5f25e5a9ea2", "claim_reward")
    ∷ []

abbrev pub meteora_ix_disc : List (String × String)
meteora_ix_disc =
    ("dbc0ea47bebf6650", "initialize_position")
    ∷ ("8f13f291d50f6873", "initialize_position2")
    ∷ ("2e527d92558de499", "initialize_position_pda")
    ∷ ("fbbdbef475fe2394", "initialize_position_by_operator")
    ∷ ("7b86510031446262", "close_position")
    ∷ ("ae5a2373ba2893e2", "close_position2")
    ∷ ("3b7cd4765b986e9d", "close_position_if_empty")
    ∷ ("b59d59438fb63448", "add_liquidity")
    ∷ ("e4a24e1c46db7473", "add_liquidity2")
    ∷ ("0703967f94283dc8", "add_liquidity_by_strategy")
    ∷ ("03dd95da6f8d76d5", "add_liquidity_by_strategy2")
    ∷ ("2905eeaf64e106cd", "add_liquidity_by_strategy_one_side")
    ∷ ("1c8cee63e7a21595", "add_liquidity_by_weight")
    ∷ ("5e9b6797465fdca5", "add_liquidity_one_side")
    ∷ ("a1c26754ab47fa9a", "add_liquidity_one_side_precise")
    ∷ ("2133a3c975627de7", "add_liquidity_one_side_precise2")
    ∷ ("5055d14818ceb16c", "remove_liquidity")
    ∷ ("e6d7527ff165e392", "remove_liquidity2")
    ∷ ("1a526698f04a691a", "remove_liquidity_by_range")
    ∷ ("cc02c391359191cd", "remove_liquidity_by_range2")
    ∷ ("0a333d2370691855", "remove_all_liquidity")
    ∷ ("a9204f8988e84689", "claim_fee")
    ∷ ("70bf65ab1c907fbb", "claim_fee2")
    ∷ ("5c04b0c177b95309", "rebalance_liquidity")
    ∷ []
