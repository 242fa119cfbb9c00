-- ===== src/Parser/Outcome/Origin.antt =====
-- Which exchange the events of a transaction come from (src/monitor/parser.ts, `parseTransaction`).
use clmm_copybot.Common.{
  ℕ, ◌≡◌, refl, String, Bool, true, false, ◌&&◌, ◌||◌, not, Option, List, arith, All,
}
use clmm_copybot.Parser.{
  Programs, ParsedEvent, jupiter_swap, byreal_open_position, byreal_increase_liquidity,
  byreal_decrease_liquidity, byreal_close_position, pcs_open_position, pcs_increase_liquidity,
  pcs_decrease_liquidity, pcs_close_position, pcs_collect_fees, unknown, orca_open_position,
  orca_increase_liquidity, orca_decrease_liquidity, orca_close_position, meteora_open_position,
  meteora_add_liquidity, meteora_close_position, meteora_remove_liquidity, dammv2_open_position,
  dammv2_add_liquidity, dammv2_remove_liquidity, dammv2_close_position, dammv2_claim_fee,
}
use clmm_copybot.Parser.Swap.{Numbers}
use clmm_copybot.Parser.Transaction.{Answer, involves, involved, parse_transaction}
use clmm_copybot.Parser.Emitted.Clmm.{byreal-All, pcs-All}
use clmm_copybot.Parser.Emitted.Orca.{orca-All}
use clmm_copybot.Parser.Emitted.Dammv2.{dammv2-All}
use clmm_copybot.Parser.Emitted.Meteora.{meteora-All}
use clmm_copybot.Parser.Outcome.{parse_transaction-All}

abbrev pub of_byreal : ParsedEvent → Bool
of_byreal (byreal_open_position o) = true
of_byreal (byreal_increase_liquidity m) = true
of_byreal (byreal_decrease_liquidity m l) = true
of_byreal (byreal_close_position m rs) = true
of_byreal _ = false

abbrev pub of_pcs : ParsedEvent → Bool
of_pcs (pcs_open_position o) = true
of_pcs (pcs_increase_liquidity m) = true
of_pcs (pcs_decrease_liquidity m l) = true
of_pcs (pcs_close_position m rs) = true
of_pcs (pcs_collect_fees m) = true
of_pcs _ = false

abbrev pub is_unknown : ParsedEvent → Bool
is_unknown unknown = true
is_unknown _ = false

-- Where Byreal is involved, only its events; where PancakeSwap is switched off, none of its.
abbrev pub IsFrom : Bool → Bool → ParsedEvent → Type 0
IsFrom byreal pcs_enabled e =
    ((not byreal || (of_byreal e || is_unknown e)) ≡ true)
    × ((pcs_enabled || not (of_pcs e)) ≡ true)

other : (b c : Bool) (e : ParsedEvent) → b ≡ false → of_pcs e ≡ false → IsFrom b c e
other b c e h k = (ground (arith, h), ground (arith, k))

-- A transaction whose logs name Byreal is never read as one of another exchange, nor as a swap, and
-- one of PancakeSwap's is not read while PancakeSwap is switched off.
pub parse_transaction-IsFrom :
    (decode : String → Option (List ℕ)) (N : Type 0) (num : Numbers N) (programs : Programs)
    (rpc : ℕ → Answer) (logs : List String) (wallet : String)
    → All
        (IsFrom (involves programs.byreal logs) programs.pcs_enabled)
        (parse_transaction decode num programs rpc logs wallet)
unfolding involved
parse_transaction-IsFrom decode N num programs rpc logs wallet =
    parse_transaction-All P decode num programs logs wallet rpc
      (λ t e b.
        byreal-All P t wallet programs logs memo (λ _ o k. own (byreal_open_position o) refl refl)
          (λ _ m k. own (byreal_increase_liquidity m) refl refl)
          (λ _ m l k. own (byreal_decrease_liquidity m l) refl refl)
          (λ m rs k. own (byreal_close_position m rs) refl refl))
      (λ t e b.
        orca-All P t wallet decode programs
          (λ _ p x y m k. other v c (orca_open_position p x y m) b refl)
          (λ _ m k. other v c (orca_increase_liquidity m) b refl)
          (λ _ m k. other v c (orca_decrease_liquidity m) b refl)
          (λ m rs k. other v c (orca_close_position m rs) b refl))
      (λ t e b.
        meteora-All decode wallet P programs t
          (λ _ p x y q k. other v c (meteora_open_position p x y q) b refl)
          (λ _ q k. other v c (meteora_add_liquidity q) b refl)
          (λ q rs k. other v c (meteora_close_position q rs) b refl)
          (λ q k. other v c (meteora_remove_liquidity q) b refl))
      (λ t e b on.
        pcs-All P t wallet programs logs memo (λ _ o k. pcs_event (pcs_open_position o) b on)
          (λ _ m k. pcs_event (pcs_increase_liquidity m) b on)
          (λ _ m l k. pcs_event (pcs_decrease_liquidity m l) b on)
          (λ m rs k. pcs_event (pcs_close_position m rs) b on))
      (λ t e b.
        dammv2-All P t wallet decode (λ _ p m k. other v c (dammv2_open_position p m) b refl)
          (λ _ m k. other v c (dammv2_add_liquidity m) b refl)
          (λ _ m k. other v c (dammv2_remove_liquidity m) b refl)
          (λ m rs k. other v c (dammv2_close_position m rs) b refl)
          (λ _ m k. other v c (dammv2_claim_fee m) b refl))
      (λ b s k. other v c (jupiter_swap s) b refl) (ground arith, ground arith)
  where
    v : Bool
    v = involves programs.byreal logs

    c : Bool
    c = programs.pcs_enabled

    memo : Bool
    memo = (involved programs logs).memo

    P : ParsedEvent → Type 0
    P = IsFrom v c

    own : (e : ParsedEvent) → of_byreal e ≡ true → of_pcs e ≡ false → P e
    own e h k = (ground (arith, h), ground (arith, k))

    pcs_event : (e : ParsedEvent) → v ≡ false → (c && involves programs.pcs logs) ≡ true → P e
    pcs_event e h k = (ground (arith, h), ground (arith, k))
