-- ===== src/Parser/Clmm.antt =====
-- What the parsers of the two Raydium forks, Byreal and PancakeSwap, read in the same way: the
-- operations that the logs name, and the pool of a new position (src/monitor/parser.ts).
use clmm_copybot.Common.{
  ℕ, suc, String, Bool, true, false, ◌&&◌, ◌||◌, not, Option, none, some, List, [], ◌∷◌, leb,
  if◌then◌else◌, str_eq, is_text, includes, value_or, length, any, concat,
}
use clmm_copybot.Parser.{Instruction}
use clmm_copybot.Parser.Instructions.{account_at, accounts_of}

unfoldable pub has_open_position : List String → Bool
has_open_position logs =
    any
      (λ l.
        includes l "Instruction: OpenPosition"
        || (includes l "Instruction: OpenPositionV2"
            || includes l "Instruction: OpenPositionWithToken22Nft"))
      logs

unfoldable pub is_token22_position : List String → Bool
is_token22_position logs = any (λ l. includes l "Instruction: OpenPositionWithToken22Nft") logs

unfoldable pub has_decrease_liquidity : List String → Bool
has_decrease_liquidity logs =
    any
      (λ l.
        includes l "Instruction: DecreaseLiquidity"
        || includes l "Instruction: DecreaseLiquidityV2")
      logs

unfoldable pub has_increase_liquidity : List String → Bool
has_increase_liquidity logs =
    any
      (λ l.
        includes l "Instruction: IncreaseLiquidity"
        || includes l "Instruction: IncreaseLiquidityV2")
      logs

unfoldable pub has_close_position : List String → Bool
has_close_position logs = any (λ l. includes l "Instruction: ClosePosition") logs

-- The indices of the accounts in an instruction.
pub record Layout : Type 0 where
  pub pool_state_idx : ℕ
  pub mint_a_idx : ℕ
  pub mint_b_idx : ℕ

unfoldable pub layout : Bool → Layout
layout true = record { pool_state_idx = 4; mint_a_idx = 18; mint_b_idx = 19 }
layout false = record { pool_state_idx = 5; mint_a_idx = 20; mint_b_idx = 21 }

pub record PoolOf : Type 0 where
  pub pool_id : String
  pub pool_mints : Option String

abbrev pub mints_of : Layout → List String → String
mints_of l accounts =
    concat (account_at l.mint_a_idx accounts) (concat "/" (account_at l.mint_b_idx accounts))

-- The instruction whose NFT mint, at index 2, is the one sought.
unfoldable pub match_pool : Layout → String → List Instruction → PoolOf
match_pool l nft [] = record { pool_id = ""; pool_mints = none }
match_pool l nft (ix ∷ ixs) =
    let accounts = accounts_of ix in
    let rest = match_pool l nft ixs in
    if leb (suc l.pool_state_idx) (length accounts) && str_eq (account_at 2 accounts) nft
    then record {
      pool_id = account_at l.pool_state_idx accounts;
      pool_mints =
          if leb (suc l.mint_b_idx) (length accounts) then some (mints_of l accounts) else none;
    }
    else rest

-- Where nothing matches, the pool of the first instruction.
unfoldable pub first_pool : Layout → PoolOf → List Instruction → PoolOf
first_pool l p [] = p
first_pool l p (ix ∷ ixs) =
    let accounts = accounts_of ix in
    if is_text p.pool_id then p else record {
      pool_id =
          if leb (suc l.pool_state_idx) (length accounts)
          then account_at l.pool_state_idx accounts
          else "";
      pool_mints =
          if not (is_text (value_or p.pool_mints "")) && leb (suc l.mint_b_idx) (length accounts)
          then some (mints_of l accounts)
          else p.pool_mints;
    }

unfoldable pub pool_of : Bool → List Instruction → String → PoolOf
unfolding layout match_pool first_pool
pool_of is_token22 ixs nft = let l = layout is_token22 in first_pool l (match_pool l nft ixs) ixs
