-- ===== src/Handler/Outcome/Event.antt =====
-- What the handling of an event does, whatever its type (src/index.ts, `handleEvent`).
use clmm_copybot.Common.{ℕ, ◌≡◌, refl, String, Option, none, some}
use clmm_copybot.Parser.{
  ParsedEvent, jupiter_swap, byreal_open_position, byreal_increase_liquidity,
  byreal_decrease_liquidity, byreal_close_position, byreal_collect_fees, orca_open_position,
  orca_close_position, orca_increase_liquidity, orca_decrease_liquidity, meteora_open_position,
  meteora_close_position, meteora_add_liquidity, meteora_remove_liquidity, pcs_open_position,
  pcs_increase_liquidity, pcs_decrease_liquidity, pcs_close_position, pcs_collect_fees,
  dammv2_open_position, dammv2_close_position, dammv2_add_liquidity, dammv2_remove_liquidity,
  dammv2_claim_fee, unknown,
}
use clmm_copybot.Ratios.{RatioOps}
use clmm_copybot.Handler
use clmm_copybot.Handler.{
  Call, copy_open_position, copy_increase_liquidity, copy_decrease_liquidity, copy_close_position,
  copy_claim_fee, swap_token_to_usdc, World, Env, Bot, start,
}
use clmm_copybot.Handler.Dispatch.{event_dex, dispatch, handle_event}
use clmm_copybot.Handler.Shape.{Shape, silent, Has}
use clmm_copybot.Handler.Outcome.Swap.{jupiter_swap_event-Has}
use clmm_copybot.Handler.Outcome.Byreal.{
  byreal_open-Has, byreal_increase-Has, byreal_decrease-Has, byreal_close-Has,
}
use clmm_copybot.Handler.Outcome.Orca.{
  orca_open-Has, orca_increase-Has, orca_decrease-Has, orca_close-Has,
}
use clmm_copybot.Handler.Outcome.Meteora.{
  meteora_open-Has, meteora_add-Has, meteora_remove-Has, meteora_close-Has,
}
use clmm_copybot.Handler.Outcome.Pcs.{
  pcs_open-Has, pcs_increase-Has, pcs_decrease-Has, pcs_close-Has,
}
use clmm_copybot.Handler.Outcome.Dammv2.{
  dammv2_open-Has, dammv2_add-Has, dammv2_remove-Has, dammv2_close-Has, dammv2_claim-Has,
}

-- The call by which an event of a wallet is copied; collected fees and unknown events ask for none.
abbrev pub Asks : String → ParsedEvent → Call → Type 0
Asks wallet (jupiter_swap s) c = (max_raw : ℕ) × (c ≡ swap_token_to_usdc s.input_mint max_raw)
Asks wallet (byreal_open_position o) c =
    c ≡ copy_open_position Handler.byreal o.position_nft_mint o.pool_id o.referer_position wallet
Asks wallet (byreal_increase_liquidity m) c = c ≡ copy_increase_liquidity Handler.byreal m wallet
Asks wallet (byreal_decrease_liquidity m l) c = c ≡ copy_decrease_liquidity Handler.byreal m
Asks wallet (byreal_close_position m rs) c = c ≡ copy_close_position Handler.byreal m
Asks wallet (byreal_collect_fees m) c = ⊥
Asks wallet (orca_open_position pool lower upper m) c =
    c ≡ copy_open_position Handler.orca m pool none wallet
Asks wallet (orca_close_position m rs) c = c ≡ copy_close_position Handler.orca m
Asks wallet (orca_increase_liquidity m) c = c ≡ copy_increase_liquidity Handler.orca m wallet
Asks wallet (orca_decrease_liquidity m) c = c ≡ copy_decrease_liquidity Handler.orca m
Asks wallet (meteora_open_position pool lower width p) c =
    c ≡ copy_open_position Handler.meteora p pool none wallet
Asks wallet (meteora_close_position p rs) c = c ≡ copy_close_position Handler.meteora p
Asks wallet (meteora_add_liquidity p) c = c ≡ copy_increase_liquidity Handler.meteora p wallet
Asks wallet (meteora_remove_liquidity p) c = c ≡ copy_decrease_liquidity Handler.meteora p
Asks wallet (pcs_open_position o) c =
    c ≡ copy_open_position Handler.pcs o.position_nft_mint o.pool_id o.referer_position wallet
Asks wallet (pcs_increase_liquidity m) c = c ≡ copy_increase_liquidity Handler.pcs m wallet
Asks wallet (pcs_decrease_liquidity m l) c = c ≡ copy_decrease_liquidity Handler.pcs m
Asks wallet (pcs_close_position m rs) c = c ≡ copy_close_position Handler.pcs m
Asks wallet (pcs_collect_fees m) c = ⊥
Asks wallet (dammv2_open_position pool m) c =
    c ≡ copy_open_position Handler.dammv2 m pool none wallet
Asks wallet (dammv2_close_position m rs) c = c ≡ copy_close_position Handler.dammv2 m
Asks wallet (dammv2_add_liquidity m) c = c ≡ copy_increase_liquidity Handler.dammv2 m wallet
Asks wallet (dammv2_remove_liquidity m) c = c ≡ copy_decrease_liquidity Handler.dammv2 m
Asks wallet (dammv2_claim_fee m) c = c ≡ copy_claim_fee m
Asks wallet unknown c = ⊥

-- The position that an event is about.
abbrev pub about : ParsedEvent → Option String
about (jupiter_swap s) = none
about (byreal_open_position o) = some o.position_nft_mint
about (byreal_increase_liquidity m) = some m
about (byreal_decrease_liquidity m l) = some m
about (byreal_close_position m rs) = some m
about (byreal_collect_fees m) = some m
about (orca_open_position pool lower upper m) = some m
about (orca_close_position m rs) = some m
about (orca_increase_liquidity m) = some m
about (orca_decrease_liquidity m) = some m
about (meteora_open_position pool lower width p) = some p
about (meteora_close_position p rs) = some p
about (meteora_add_liquidity p) = some p
about (meteora_remove_liquidity p) = some p
about (pcs_open_position o) = some o.position_nft_mint
about (pcs_increase_liquidity m) = some m
about (pcs_decrease_liquidity m l) = some m
about (pcs_close_position m rs) = some m
about (pcs_collect_fees m) = some m
about (dammv2_open_position pool m) = some m
about (dammv2_close_position m rs) = some m
about (dammv2_add_liquidity m) = some m
about (dammv2_remove_liquidity m) = some m
about (dammv2_claim_fee m) = some m
about unknown = none

module _ {S N R : Type 0} (env : Env S N R) (ops : RatioOps R) (wallet : String)
    (w : World S N R) where
  dispatch-Has :
      (dex : Option String) (e : ParsedEvent)
      → Has env w wallet dex (about e) (Asks wallet e) (dispatch env ops wallet dex e (start w))
  unfolding dispatch
  dispatch-Has dex (jupiter_swap s) =
      jupiter_swap_event-Has env ops wallet dex w _ s (λ max_raw. (max_raw, refl))
  dispatch-Has dex (byreal_open_position o) = byreal_open-Has env wallet dex w _ o refl
  dispatch-Has dex (byreal_increase_liquidity m) = byreal_increase-Has env wallet dex w _ m refl
  dispatch-Has dex (byreal_decrease_liquidity m l) = byreal_decrease-Has env wallet dex w _ m refl
  dispatch-Has dex (byreal_close_position m rs) = byreal_close-Has env wallet dex w _ m rs refl
  dispatch-Has dex (byreal_collect_fees m) = record { shape = silent }
  dispatch-Has dex (orca_open_position pool lower upper m) =
      orca_open-Has env wallet dex w _ m pool none refl
  dispatch-Has dex (orca_close_position m rs) = orca_close-Has env wallet dex w _ m rs refl
  dispatch-Has dex (orca_increase_liquidity m) = orca_increase-Has env wallet dex w _ m refl
  dispatch-Has dex (orca_decrease_liquidity m) = orca_decrease-Has env wallet dex w _ m refl
  dispatch-Has dex (meteora_open_position pool lower width p) =
      meteora_open-Has env wallet dex w _ p pool refl
  dispatch-Has dex (meteora_close_position p rs) = meteora_close-Has env wallet dex w _ p rs refl
  dispatch-Has dex (meteora_add_liquidity p) = meteora_add-Has env wallet dex w _ p refl
  dispatch-Has dex (meteora_remove_liquidity p) = meteora_remove-Has env wallet dex w _ p refl
  dispatch-Has dex (pcs_open_position o) = pcs_open-Has env wallet dex w _ o refl
  dispatch-Has dex (pcs_increase_liquidity m) = pcs_increase-Has env wallet dex w _ m refl
  dispatch-Has dex (pcs_decrease_liquidity m l) = pcs_decrease-Has env wallet dex w _ m refl
  dispatch-Has dex (pcs_close_position m rs) = pcs_close-Has env wallet dex w _ m rs refl
  dispatch-Has dex (pcs_collect_fees m) = record { shape = silent }
  dispatch-Has dex (dammv2_open_position pool m) = dammv2_open-Has env wallet dex w _ m pool refl
  dispatch-Has dex (dammv2_close_position m rs) = dammv2_close-Has env wallet dex w _ m rs refl
  dispatch-Has dex (dammv2_add_liquidity m) = dammv2_add-Has env wallet dex w _ m refl
  dispatch-Has dex (dammv2_remove_liquidity m) = dammv2_remove-Has env wallet dex w _ m refl
  dispatch-Has dex (dammv2_claim_fee m) = dammv2_claim-Has env wallet dex w _ m refl
  dispatch-Has dex unknown = record { shape = silent }

  -- Whatever the event, and whatever the executors answer: its handling makes at most one call of
  -- an executor, the one that copies the event, and only where the state at its start allows it
  -- (the executor is not paused and the wallet not close-only, for a call that adds liquidity; the
  -- position is not mapped, for an opening, and mapped, for the others; the amount is positive, for
  -- a swap); it adds at most one entry, which names the wallet and the position, is tagged with the
  -- venue, and reports the answer; a call without an entry has thrown, or is a claim of fees or a
  -- swap of nothing; and what the target received is recorded first, if at all.
  pub handle_event_lem :
      (e : ParsedEvent)
      → let b = handle_event env ops wallet e (start w) in
        Shape env w wallet (event_dex e) (about e) (Asks wallet e) b.effects b.thrown
  unfolding handle_event
  handle_event_lem e = (dispatch-Has (event_dex e) e).shape
