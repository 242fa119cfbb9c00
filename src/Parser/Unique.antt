-- ===== src/Parser/Unique.antt =====
-- No position is reported twice by the parser of Meteora's DLMM (src/monitor/parser.ts).
use clmm_copybot.Common.{◌≡◌, String, false, List, [], ◌∷◌, has}
use clmm_copybot.Parser.{
  ParsedEvent, meteora_add_liquidity, meteora_close_position, meteora_remove_liquidity,
  meteora_open_position,
}

-- The positions of Meteora's events, in their order.
abbrev pub positions : List ParsedEvent → List String
positions [] = []
positions (meteora_open_position pool a b p ∷ es) = p ∷ positions es
positions (meteora_close_position p rs ∷ es) = p ∷ positions es
positions (meteora_add_liquidity p ∷ es) = p ∷ positions es
positions (meteora_remove_liquidity p ∷ es) = p ∷ positions es
positions (e ∷ es) = positions es

abbrev pub IsNodup : List String → Type 0
IsNodup [] = Unit
IsNodup (x ∷ xs) = (has x xs ≡ false) × IsNodup xs
