-- ===== src/Opening.antt =====
-- The copying of an opening at Byreal: `copyOpenPosition` of src/executor/byreal-position.ts, with
-- its lock, `acquire` and `release`, and its position cap, `getByrealPositionCapStatus`.
-- What the code asks of the chain, of the exchanges' SDK and of the price services is a query, which
-- `Net` answers, given all that was asked before. The awaits are taken to let no other turn of the
-- event loop change the state.
pub mod Filters
pub mod Funding
pub mod Copy
pub mod Rules
pub mod Passed
pub mod Funded
pub mod Concluded
pub mod Outcome
pub mod Cap
mod Tests
use clmm_copybot.Common.{
  ℕ, String, Bool, true, false, ◌⊎◌, inl, inr, Option, none, some, List, [], ◌∷◌, ◌++◌,
}
use clmm_copybot.Common.Int.{ℤ}
use clmm_copybot.OpenedReferers.{Policy, Store}
use clmm_copybot.PositionMap.{PositionMap}
use clmm_copybot.PumpPending.{Pump}
use clmm_copybot.Ratios.{RatioOps}

pub data PumpFilterMode : Type 0 where
  off full discord : PumpFilterMode

-- `R` is the type of the ratios, and `N` that of the amounts of US dollars.
pub record OpenConfig (R N : Type 0) : Type 0 where
  pub byreal_max_open_positions : ℕ
  pub dry_run : Bool
  pub skip_same_tick_range : Bool
  pub pump_filter_mode : PumpFilterMode
  pub min_pool_age_days : ℕ
  pub pool_age_whitelist : List String
  pub min_pool_tvl : N
  pub pool_tvl_whitelist : List String
  pub wallet_amount_ratios : List (String × R)
  pub amount_ratio : R
  pub referer_policy : Policy

-- What the code uses of JavaScript's numbers and texts: tests, printing, and `toLowerCase`.
-- `age_days` prints the age of a pool, from the seconds of now and of its opening.
pub record Numerals (R N : Type 0) : Type 0 where
  pub ratios : RatioOps R
  pub is_positive : N → Bool
  pub is_below : N → N → Bool
  pub to_fixed : N → String
  pub to_text : N → String
  pub decimal : ℕ → String
  pub age_days : ℕ → ℕ → String
  pub to_lower_case : String → String

-- A position with its pool.
pub record PositionInfo : Type 0 where
  pub tick_lower : ℤ
  pub tick_upper : ℤ
  pub liquidity : String
  pub mint_a : String
  pub mint_b : String
  pub amount_a : ℕ
  pub amount_b : ℕ

pub record Deposit : Type 0 where
  pub base_is_a : Bool
  pub base_amount : ℕ
  pub other_amount_max : ℕ

pub record Sent : Type 0 where
  pub nft_address : String
  pub tx_sig : String

-- `retry_get_position` is `retryGetPosition`; `check_concentration` is `checkConcentrationLimit`,
-- an estimate in floating point, of two mints and the wallet; `send_open` builds, signs and sends
-- the transaction, with the memo of a referer.
pub data Query : Type 0 where
  retry_get_position : String → Query
  get_pool_info : String → Query
  check_token_liquidity : String → Query
  check_concentration : String → String → String → Query
  get_token_symbol : String → Query
  get_token_balance : String → Query
  swap_for_token : String → String → ℕ → Query
  swap_via_byreal_pool : String → String → ℕ → Query
  get_actual_swap_output : String → String → Query
  send_open : PositionInfo → Deposit → Option String → Query

abbrev pub Reply : Type 0 → Query → Type 0
Reply N (retry_get_position nft) = Option PositionInfo
Reply N (get_pool_info mint) = Option ℕ
Reply N (check_token_liquidity mint) = Option N
Reply N (check_concentration mint_a mint_b wallet) = Option String
Reply N (get_token_symbol mint) = String
Reply N (get_token_balance mint) = ℕ
Reply N (swap_for_token from to amount) = Option String
Reply N (swap_via_byreal_pool from to amount) = Option String
Reply N (get_actual_swap_output sig mint) = Option ℕ
Reply N (send_open p d referer) = Sent

-- The answer to a query after others, or the message of an exception.
abbrev pub Net : Type 0 → Type 0
Net N = (q : Query) → List Query → String ⊎ Reply N q

-- `S` is the type of the amounts of SOL.
pub record Opener (S : Type 0) : Type 0 where
  pub positions : PositionMap S
  pub referers : Store
  pub pump : Pump
  pub busy : Bool
  pub sol_paused : Bool
  pub sol_paused_at : Option ℕ
  pub last_skip_reason : Option String
  pub pool_id_to_mints : List (String × String)
  pub rent_per_position : S
  pub now : ℕ
  pub asked : List Query

-- How a part of the code ends: with a value, with a `return`, or with an exception.
pub data Result (A : Type 0) : Type 0 where
  ok : A → Result A
  returned : Option String → Result A
  threw : String → Result A

module _ {S A B : Type 0} where
  abbrev pub and_then :
      Result A × Opener S → (A → Opener S → Result B × Opener S) → Result B × Opener S
  and_then (ok a, s) k = k a s
  and_then (returned r, s) k = (returned r, s)
  and_then (threw m, s) k = (threw m, s)

abbrev pub replied : {S A : Type 0} → String ⊎ A → Opener S → Result A × Opener S
replied (inl message) s = (threw message, s)
replied (inr a) s = (ok a, s)

module _ {S N : Type 0} where
  abbrev pub ask : Net N → (q : Query) → Opener S → Result (Reply N q) × Opener S
  ask net q s = replied (net q s.asked) (record s { asked = s.asked ++ (q ∷ []) })

-- An opening that is passed over says why.
abbrev pub pass_over : {S A : Type 0} → String → Opener S → Result A × Opener S
pass_over reason s = (returned none, record s { last_skip_reason = some reason })
