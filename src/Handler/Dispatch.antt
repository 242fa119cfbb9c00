-- ===== src/Handler/Dispatch.antt =====
-- The event of a target, by its type (src/index.ts, `handleEvent`), and the events of a
-- transaction, one after another (src/index.ts, the task that `monitor.start` is given).
use clmm_copybot.Common.{String, Option, none, some, List, [], ◌∷◌, ◌++◌, if◌then◌else◌}
use clmm_copybot.Parser.{
  ParsedEvent, jupiter_swap, byreal_open_position, byreal_increase_liquidity,
  byreal_decrease_liquidity, byreal_close_position, byreal_collect_fees, orca_open_position,
  orca_close_position, orca_increase_liquidity, orca_decrease_liquidity, meteora_open_position,
  meteora_close_position, meteora_add_liquidity, meteora_remove_liquidity, pcs_open_position,
  pcs_increase_liquidity, pcs_decrease_liquidity, pcs_close_position, pcs_collect_fees,
  dammv2_open_position, dammv2_close_position, dammv2_add_liquidity, dammv2_remove_liquidity,
  dammv2_claim_fee, unknown,
}
use clmm_copybot.Ratios.{RatioOps}
use clmm_copybot.Handler.{Env, World, Bot, start}
use clmm_copybot.Handler.Swap.{jupiter_swap_event}
use clmm_copybot.Handler.Byreal.{byreal_open, byreal_increase, byreal_decrease, byreal_close}
use clmm_copybot.Handler.Orca.{orca_open, orca_increase, orca_decrease, orca_close}
use clmm_copybot.Handler.Meteora.{meteora_open, meteora_add, meteora_remove, meteora_close}
use clmm_copybot.Handler.Pcs.{pcs_open, pcs_increase, pcs_decrease, pcs_close}
use clmm_copybot.Handler.Dammv2.{dammv2_open, dammv2_add, dammv2_remove, dammv2_close, dammv2_claim}

-- The venue that the entries of an event are tagged with.
abbrev pub event_dex : ParsedEvent → Option String
event_dex (jupiter_swap s) = none
event_dex (byreal_open_position o) = some "byreal"
event_dex (byreal_increase_liquidity m) = some "byreal"
event_dex (byreal_decrease_liquidity m l) = some "byreal"
event_dex (byreal_close_position m rs) = some "byreal"
event_dex (byreal_collect_fees m) = some "byreal"
event_dex (orca_open_position pool a b m) = some "orca"
event_dex (orca_close_position m rs) = some "orca"
event_dex (orca_increase_liquidity m) = some "orca"
event_dex (orca_decrease_liquidity m) = some "orca"
event_dex (meteora_open_position pool a b p) = some "meteora"
event_dex (meteora_close_position p rs) = some "meteora"
event_dex (meteora_add_liquidity p) = some "meteora"
event_dex (meteora_remove_liquidity p) = some "meteora"
event_dex (pcs_open_position o) = some "pancakeswap"
event_dex (pcs_increase_liquidity m) = some "pancakeswap"
event_dex (pcs_decrease_liquidity m l) = some "pancakeswap"
event_dex (pcs_close_position m rs) = some "pancakeswap"
event_dex (pcs_collect_fees m) = some "pancakeswap"
event_dex (dammv2_open_position pool m) = some "dammv2"
event_dex (dammv2_close_position m rs) = some "dammv2"
event_dex (dammv2_add_liquidity m) = some "dammv2"
event_dex (dammv2_remove_liquidity m) = some "dammv2"
event_dex (dammv2_claim_fee m) = some "dammv2"
event_dex unknown = none

module _ {S N R : Type 0} (env : Env S N R) (ops : RatioOps R) (wallet : String) where
  -- The parser gives no `poolMints` for Orca, and the switch has no case for collected fees.
  unfoldable pub dispatch : Option String → ParsedEvent → Bot S N R → Bot S N R
  dispatch dex (jupiter_swap s) b = jupiter_swap_event env ops wallet dex s b
  dispatch dex (byreal_open_position o) b = byreal_open env wallet dex o b
  dispatch dex (byreal_increase_liquidity m) b = byreal_increase env wallet dex m b
  dispatch dex (byreal_decrease_liquidity m l) b = byreal_decrease env wallet dex m b
  dispatch dex (byreal_close_position m rs) b = byreal_close env wallet dex m rs b
  dispatch dex (byreal_collect_fees m) b = b
  dispatch dex (orca_open_position pool lower upper m) b = orca_open env wallet dex m pool none b
  dispatch dex (orca_close_position m rs) b = orca_close env wallet dex m rs b
  dispatch dex (orca_increase_liquidity m) b = orca_increase env wallet dex m b
  dispatch dex (orca_decrease_liquidity m) b = orca_decrease env wallet dex m b
  dispatch dex (meteora_open_position pool lower width p) b = meteora_open env wallet dex p pool b
  dispatch dex (meteora_close_position p rs) b = meteora_close env wallet dex p rs b
  dispatch dex (meteora_add_liquidity p) b = meteora_add env wallet dex p b
  dispatch dex (meteora_remove_liquidity p) b = meteora_remove env wallet dex p b
  dispatch dex (pcs_open_position o) b = pcs_open env wallet dex o b
  dispatch dex (pcs_increase_liquidity m) b = pcs_increase env wallet dex m b
  dispatch dex (pcs_decrease_liquidity m l) b = pcs_decrease env wallet dex m b
  dispatch dex (pcs_close_position m rs) b = pcs_close env wallet dex m rs b
  dispatch dex (pcs_collect_fees m) b = b
  dispatch dex (dammv2_open_position pool m) b = dammv2_open env wallet dex m pool b
  dispatch dex (dammv2_close_position m rs) b = dammv2_close env wallet dex m rs b
  dispatch dex (dammv2_add_liquidity m) b = dammv2_add env wallet dex m b
  dispatch dex (dammv2_remove_liquidity m) b = dammv2_remove env wallet dex m b
  dispatch dex (dammv2_claim_fee m) b = dammv2_claim env wallet dex m b
  dispatch dex unknown b = b

  unfoldable pub handle_event : ParsedEvent → Bot S N R → Bot S N R
  unfolding dispatch
  handle_event e b = dispatch (event_dex e) e b

  -- An exception leaves the loop: the events after it are not handled.
  unfoldable pub handle_events : List ParsedEvent → World S N R → Bot S N R
  unfolding handle_event
  handle_events [] w = start w
  handle_events (e ∷ es) w =
      let done = handle_event e (start w) in
      let rest = handle_events es done.world in
      if done.thrown then done else record rest { effects = done.effects ++ rest.effects }
