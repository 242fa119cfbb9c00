-- ===== src/Parser/Outcome/Attribution.antt =====
-- Every event of a transaction is the wallet's own (src/monitor/parser.ts, `parseTransaction`).
use mathlib.Core.Path.{subst}
use clmm_copybot.Common.{
  ℕ, ◌≡◌, sym, ap, ◌∙◌, String, Bool, true, Option, some, List, All, value_or,
}
use clmm_copybot.Parser.{
  Tx, Programs, ParsedEvent, jupiter_swap, byreal_open_position, byreal_increase_liquidity,
  byreal_decrease_liquidity, byreal_close_position, byreal_collect_fees, orca_open_position,
  orca_close_position, orca_increase_liquidity, orca_decrease_liquidity, meteora_open_position,
  meteora_close_position, meteora_add_liquidity, meteora_remove_liquidity, pcs_open_position,
  pcs_increase_liquidity, pcs_decrease_liquidity, pcs_close_position, pcs_collect_fees,
  dammv2_open_position, dammv2_close_position, dammv2_add_liquidity, dammv2_remove_liquidity,
  dammv2_claim_fee, unknown,
}
use clmm_copybot.Parser.Byreal.{parse_byreal_operations}
use clmm_copybot.Parser.Pcs.{parse_pcs_operations}
use clmm_copybot.Parser.Orca.{parse_orca_operations}
use clmm_copybot.Parser.Meteora.{parse_meteora_operations, find_all_meteora_instructions}
use clmm_copybot.Parser.Dammv2.{parse_dammv2_operations}
use clmm_copybot.Parser.Swap.{Numbers}
use clmm_copybot.Parser.Transaction.{Answer, fetch, involved, parse_transaction}
use clmm_copybot.Parser.Held.{held}
use clmm_copybot.Parser.Emitted.Clmm.{byreal-All, pcs-All}
use clmm_copybot.Parser.Emitted.Orca.{orca-All}
use clmm_copybot.Parser.Emitted.Dammv2.{dammv2-All}
use clmm_copybot.Parser.Emitted.Named.{names}
use clmm_copybot.Parser.Emitted.Meteora.{meteora-All}
use clmm_copybot.Parser.Outcome.{IsSwap, parse_transaction-All}

-- What an event says of the wallet: an opened position is an NFT that it holds after the
-- transaction, another one of an NFT exchange an NFT that it held before; a position of Meteora
-- stands with the wallet in an instruction. Fees alone are never reported by the two forks.
abbrev pub Attributed : Programs → Tx → String → ParsedEvent → Type 0
Attributed programs tx wallet (jupiter_swap s) = IsSwap s
Attributed programs tx wallet (byreal_open_position o) =
    held wallet tx.post_token_balances o.position_nft_mint ≡ true
Attributed programs tx wallet (byreal_increase_liquidity m) =
    held wallet tx.pre_token_balances m ≡ true
Attributed programs tx wallet (byreal_decrease_liquidity m l) =
    held wallet tx.pre_token_balances m ≡ true
Attributed programs tx wallet (byreal_close_position m rs) =
    held wallet tx.pre_token_balances m ≡ true
Attributed programs tx wallet (byreal_collect_fees m) = ⊥
Attributed programs tx wallet (orca_open_position pool a b m) =
    held wallet tx.post_token_balances m ≡ true
Attributed programs tx wallet (orca_close_position m rs) =
    held wallet tx.pre_token_balances m ≡ true
Attributed programs tx wallet (orca_increase_liquidity m) =
    held wallet tx.pre_token_balances m ≡ true
Attributed programs tx wallet (orca_decrease_liquidity m) =
    held wallet tx.pre_token_balances m ≡ true
Attributed programs tx wallet (meteora_open_position pool a b p) =
    names wallet (find_all_meteora_instructions programs tx) p ≡ true
Attributed programs tx wallet (meteora_close_position p rs) =
    names wallet (find_all_meteora_instructions programs tx) p ≡ true
Attributed programs tx wallet (meteora_add_liquidity p) =
    names wallet (find_all_meteora_instructions programs tx) p ≡ true
Attributed programs tx wallet (meteora_remove_liquidity p) =
    names wallet (find_all_meteora_instructions programs tx) p ≡ true
Attributed programs tx wallet (pcs_open_position o) =
    held wallet tx.post_token_balances o.position_nft_mint ≡ true
Attributed programs tx wallet (pcs_increase_liquidity m) =
    held wallet tx.pre_token_balances m ≡ true
Attributed programs tx wallet (pcs_decrease_liquidity m l) =
    held wallet tx.pre_token_balances m ≡ true
Attributed programs tx wallet (pcs_close_position m rs) = held wallet tx.pre_token_balances m ≡ true
Attributed programs tx wallet (pcs_collect_fees m) = ⊥
Attributed programs tx wallet (dammv2_open_position pool m) =
    held wallet tx.post_token_balances m ≡ true
Attributed programs tx wallet (dammv2_close_position m rs) =
    held wallet tx.pre_token_balances m ≡ true
Attributed programs tx wallet (dammv2_add_liquidity m) = held wallet tx.pre_token_balances m ≡ true
Attributed programs tx wallet (dammv2_remove_liquidity m) =
    held wallet tx.pre_token_balances m ≡ true
Attributed programs tx wallet (dammv2_claim_fee m) = held wallet tx.pre_token_balances m ≡ true
Attributed programs tx wallet unknown = Unit

-- Whatever a transaction holds, each event that is read from it is the wallet's own: the position
-- of an event of the NFT exchanges is an NFT of the wallet in the balances, after the transaction
-- for an opened one and before it for the others; a position of Meteora stands in an instruction
-- together with the wallet; and a swap has two known sides that are not both SOL.
pub parse_transaction-Attributed :
    (decode : String → Option (List ℕ)) (N : Type 0) (num : Numbers N) (programs : Programs)
    (rpc : ℕ → Answer) (logs : List String) (wallet : String) (tx : Tx)
    → fetch rpc ≡ some tx
    → All (Attributed programs tx wallet) (parse_transaction decode num programs rpc logs wallet)
parse_transaction-Attributed decode N num programs rpc logs wallet tx h =
    parse_transaction-All P decode num programs logs wallet rpc
      (λ t e _.
        subst (λ x. All P (parse_byreal_operations programs x logs memo wallet)) (same t e)
          (byreal-All P tx wallet programs logs memo (λ _ o k. k) (λ _ m k. k) (λ _ m l k. k)
            (λ m rs k. k)))
      (λ t e _.
        subst (λ x. All P (parse_orca_operations decode programs x wallet)) (same t e)
          (orca-All P tx wallet decode programs (λ _ p a b m k. k) (λ _ m k. k) (λ _ m k. k)
            (λ m rs k. k)))
      (λ t e _.
        subst (λ x. All P (parse_meteora_operations decode programs x wallet)) (same t e)
          (meteora-All decode wallet P programs tx (λ _ p a b q k. k) (λ _ q k. k) (λ q rs k. k)
            (λ q k. k)))
      (λ t e _ _.
        subst (λ x. All P (parse_pcs_operations programs x logs memo wallet)) (same t e)
          (pcs-All P tx wallet programs logs memo (λ _ o k. k) (λ _ m k. k) (λ _ m l k. k)
            (λ m rs k. k)))
      (λ t e _.
        subst (λ x. All P (parse_dammv2_operations decode x wallet)) (same t e)
          (dammv2-All P tx wallet decode (λ _ p m k. k) (λ _ m k. k) (λ _ m k. k) (λ m rs k. k)
            (λ _ m k. k)))
      (λ _ s k. k) tt
  where
    P : ParsedEvent → Type 0
    P = Attributed programs tx wallet

    memo : Bool
    memo = (involved programs logs).memo

    same : (t : Tx) → fetch rpc ≡ some t → tx ≡ t
    same t e = ap (λ o. value_or o tx) (sym h ∙ e)
