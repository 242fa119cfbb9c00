-- ===== src/Parser/Tests.antt =====
-- Transactions read into events, and the theorems of the parser at them.
use clmm_copybot.Common.{
  ℕ, zero, suc, ◌<◌, ◌≡◌, inl, refl, true, false, none, some, [], ◌∷◌, map, arith, All, length,
}
use clmm_copybot.Common.Dict.{dict}
use clmm_copybot.Common.Int.{pos, negsuc}
use clmm_copybot.Parser.{byreal_open_position, byreal_close_position, unknown}
use clmm_copybot.Parser.Balances.{
  find_new_nft_mints_from_tx, find_closed_nft_mints_from_tx, first_nft, parse_bot_received_tokens,
}
use clmm_copybot.Parser.Memo.{first_memo}
use clmm_copybot.Parser.Clmm.{
  has_open_position, is_token22_position, has_decrease_liquidity, has_increase_liquidity,
  has_close_position, pool_of,
}
use clmm_copybot.Parser.Byreal.{parse_byreal_operations}
use clmm_copybot.Parser.Pcs.{parse_pcs_operations}
use clmm_copybot.Parser.Orca.{parse_orca_operations}
use clmm_copybot.Parser.Meteora.{parse_meteora_remove_or_close, read_int32_le}
use clmm_copybot.Parser.Dammv2.{parse_dammv2_operations}
use clmm_copybot.Parser.Instructions.{instruction_name}
use clmm_copybot.Parser.Transaction.{Answer, not_yet, fetch, involves, parse_transaction}
use clmm_copybot.Parser.Forks.{to_pcs, parse_pcs-eq-parse_byreal}
use clmm_copybot.Parser.Outcome.Attribution.{Attributed, parse_transaction-Attributed}
use clmm_copybot.Parser.Outcome.Exclusion.{Exclusive, parse-Exclusive}
use clmm_copybot.Parser.Outcome.Errors.{is_found, fetch_lem, parse_transaction_unreadable}
use clmm_copybot.Parser.Outcome.Origin.{IsFrom, parse_transaction-IsFrom}
use clmm_copybot.Parser.Samples.{
  programs, open_tx, close_tx, open_logs, close_logs, decode, met_ix, numbers, rpc,
}

parser : Unit {0}
unfolding dict parse_transaction fetch parse_byreal_operations has_open_position is_token22_position
    has_decrease_liquidity has_increase_liquidity has_close_position find_new_nft_mints_from_tx
    find_closed_nft_mints_from_tx parse_bot_received_tokens first_nft pool_of first_memo involves
    parse_meteora_remove_or_close instruction_name
parser = tt

open_test :
    parse_transaction decode numbers programs (rpc open_tx) open_logs "W"
    ≡ byreal_open_position (record {
      pool_id = "POOL";
      tick_lower = pos 0;
      tick_upper = pos 0;
      liquidity = "0";
      referer_position = none;
      token_amount_a = "0";
      token_amount_b = "0";
      position_nft_mint = "NFT";
      pool_mints = none;
    })
      ∷ []
unfolding parser
open_test = refl

close_test :
    parse_transaction decode numbers programs (rpc close_tx) close_logs "W"
    ≡ byreal_close_position "NFT" (record { mint = "USD"; amount = 550 } ∷ []) ∷ []
unfolding parser
close_test = refl

int_test : read_int32_le 0 (254 ∷ 255 ∷ 255 ∷ 255 ∷ []) ≡ negsuc 1
unfolding read_int32_le
int_test = refl

meteora_test : length (parse_meteora_remove_or_close decode close_tx (met_ix ∷ met_ix ∷ []) "W") ≡ 1
unfolding parser
meteora_test = refl

fetched_open : fetch (rpc open_tx) ≡ some open_tx
unfolding fetch
fetched_open = refl

fetch_lem_example : fetch (rpc open_tx) ≡ some open_tx
fetch_lem_example = fetch_lem (rpc open_tx) open_tx 1 (omega arith) refl first_failed
  where
    first_failed : (i : ℕ) → i < 1 → is_found (rpc open_tx i) ≡ false
    first_failed zero h = refl
    first_failed (suc i) h = absurd (ground (arith, h))

parse_transaction-Attributed_example :
    All
      (Attributed programs open_tx "W")
      (parse_transaction decode numbers programs (rpc open_tx) open_logs "W")
parse_transaction-Attributed_example =
    parse_transaction-Attributed decode ℕ numbers programs (rpc open_tx) open_logs "W" open_tx
      fetched_open

parse_transaction-IsFrom_example :
    All
      (IsFrom (involves "BYR" open_logs) true)
      (parse_transaction decode numbers programs (rpc open_tx) open_logs "W")
parse_transaction-IsFrom_example =
    parse_transaction-IsFrom decode ℕ numbers programs (rpc open_tx) open_logs "W"

abbrev never : ℕ → Answer
never i = not_yet

parse_transaction_unreadable_example :
    parse_transaction decode numbers programs never open_logs "W" ≡ unknown ∷ []
parse_transaction_unreadable_example =
    parse_transaction_unreadable decode ℕ numbers programs never open_logs "W" (inl refl)

parse-Exclusive_example :
    Exclusive (parse_byreal_operations programs open_tx open_logs false "W")
    × (Exclusive (parse_pcs_operations programs open_tx open_logs false "W")
        × (Exclusive (parse_orca_operations decode programs open_tx "W")
            × Exclusive (parse_dammv2_operations decode open_tx "W")))
parse-Exclusive_example = parse-Exclusive decode programs open_tx open_logs false "W"

parse_pcs-eq-parse_byreal_example :
    parse_pcs_operations programs open_tx open_logs false "W"
    ≡ map to_pcs
        (parse_byreal_operations (record programs { byreal = "PCS" }) open_tx open_logs false "W")
parse_pcs-eq-parse_byreal_example = parse_pcs-eq-parse_byreal programs open_tx open_logs false "W"
