-- ===== src/Parser/Forks.antt =====
-- The parsers of the two Raydium forks agree (src/monitor/parser.ts).
use clmm_copybot.Common.{
  ◌≡◌, refl, ap, String, Bool, true, false, Option, none, some, List, [], ◌∷◌, ◌++◌, map,
  if◌then◌else◌,
}
use clmm_copybot.PendingSwaps.Executor.{Received}
use clmm_copybot.Parser.{
  Instruction, Tx, Programs, ParsedEvent, byreal_open_position, byreal_increase_liquidity,
  byreal_decrease_liquidity, byreal_close_position, byreal_collect_fees, pcs_open_position,
  pcs_increase_liquidity, pcs_decrease_liquidity, pcs_close_position, pcs_collect_fees,
}
use clmm_copybot.Parser.Byreal
use clmm_copybot.Parser.Pcs
use clmm_copybot.Parser.Balances.{find_closed_nft_mints_from_tx, first_nft}

-- The same event of the other exchange.
abbrev pub to_pcs : ParsedEvent → ParsedEvent
to_pcs (byreal_open_position p) = pcs_open_position p
to_pcs (byreal_increase_liquidity nft) = pcs_increase_liquidity nft
to_pcs (byreal_decrease_liquidity nft liquidity) = pcs_decrease_liquidity nft liquidity
to_pcs (byreal_close_position nft received) = pcs_close_position nft received
to_pcs (byreal_collect_fees nft) = pcs_collect_fees nft
to_pcs e = e

map-append {ℓ κ} :
    {A : Type ℓ} {B : Type κ} (f : A → B) (xs ys : List A) → map f (xs ++ ys) ≡ map f xs ++ map f ys
map-append f [] ys = refl
map-append f (x ∷ xs) ys = ap (λ zs. f x ∷ zs) (map-append f xs ys)

map-if {ℓ κ} :
    {A : Type ℓ} {B : Type κ} (f : A → B) (b : Bool) (xs : List A)
    → map f (if b then xs else []) ≡ (if b then map f xs else [])
map-if f true xs = refl
map-if f false xs = refl

opens_lem :
    (referer : Option String) (t : Bool) (ixs : List Instruction) (nfts : List String)
    → map to_pcs (Byreal.byreal_opens referer t ixs nfts) ≡ Pcs.pcs_opens referer t ixs nfts
opens_lem referer t ixs [] = refl
opens_lem referer t ixs (nft ∷ nfts) = rw (opens_lem referer t ixs nfts) refl

increased_lem : (o : Option String) → map to_pcs (Byreal.byreal_increased o) ≡ Pcs.pcs_increased o
increased_lem none = refl
increased_lem (some nft) = refl

closes_lem :
    (received : List Received) (nfts : List String)
    → map to_pcs (Byreal.byreal_closes received nfts) ≡ Pcs.pcs_closes received nfts
closes_lem received [] = refl
closes_lem received (nft ∷ nfts) = rw (closes_lem received nfts) refl

partial_lem :
    (has_close : Bool) (o : Option String) (closed : List String)
    → map to_pcs (Byreal.byreal_partial has_close o closed) ≡ Pcs.pcs_partial has_close o closed
partial_lem true o [] = refl
partial_lem false none [] = refl
partial_lem false (some nft) [] = refl
partial_lem has_close o (c ∷ closed) = refl

decrease_or_close_lem :
    (tx : Tx) (has_close : Bool) (wallet : String)
    → map to_pcs (Byreal.parse_byreal_decrease_or_close tx has_close wallet)
      ≡ Pcs.parse_pcs_decrease_or_close tx has_close wallet
unfolding Byreal.parse_byreal_decrease_or_close Pcs.parse_pcs_decrease_or_close
decrease_or_close_lem tx has_close wallet = rw map-append (
    rw (
      closes_lem,
      partial_lem has_close (first_nft wallet tx.pre_token_balances)
          (find_closed_nft_mints_from_tx tx wallet),
    ))

-- PancakeSwap's parser reads a transaction as Byreal's would read it if Byreal's program were
-- PancakeSwap's: the same events in the same order, with the same pools, mints and amounts.
pub parse_pcs-eq-parse_byreal :
    (programs : Programs) (tx : Tx) (logs : List String) (has_memo : Bool) (wallet : String)
    → Pcs.parse_pcs_operations programs tx logs has_memo wallet
      ≡ map to_pcs (
          Byreal.parse_byreal_operations
            (record programs { byreal = programs.pcs })
            tx
            logs
            has_memo
            wallet)
unfolding Byreal.parse_byreal_operations Pcs.parse_pcs_operations
    Byreal.find_all_byreal_instructions Pcs.find_all_pcs_instructions
parse_pcs-eq-parse_byreal programs tx logs has_memo wallet = rw map-append (
    rw map-append (
      rw (map-if, map-if, map-if, decrease_or_close_lem tx _ wallet)
        (rw (opens_lem, increased_lem) refl)))
