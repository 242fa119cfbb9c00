-- ===== src/TokenLosses/Pool.antt =====
-- The token of a pool, `mintA/mintB`: src/executor/byreal-position.ts, `extractToken`.
use Prim.Native.Char.{Char, code}
use Prim.Native.String.{String, [], ◌∷◌}
use mathlib.Core.Bool.{◌||◌}
use mathlib.Core.List.{List}
use clmm_copybot.Common.{if◌then◌else◌, ◌==◌, str_eq, ◌≡◌, refl}

abbrev pub sol : String
sol = "So11111111111111111111111111111111111111112"

abbrev pub usdc : String
usdc = "EPjFWdd5AufqSSqeM2qN1xzybapC8G4wEGGkZwyTDt1v"

abbrev to_first : Char → List String → List String
to_first c List.[] = List.◌∷◌ (c ∷ []) List.[]
to_first c (List.◌∷◌ part parts) = List.◌∷◌ (c ∷ part) parts

-- `pool.split('/')`; a slash has the code 47.
abbrev pub split : String → List String
split [] = List.◌∷◌ [] List.[]
split (c ∷ s) = let rest = split s in if code c == 47 then List.◌∷◌ [] rest else to_first c rest

abbrev token_of : String → List String → String
token_of pool (List.◌∷◌ a (List.◌∷◌ b List.[])) = if str_eq a sol || str_eq a usdc then b else a
token_of pool _ = pool

unfoldable pub extract_token : String → String
extract_token pool = token_of pool (split pool)

token_test : extract_token "EPjFWdd5AufqSSqeM2qN1xzybapC8G4wEGGkZwyTDt1v/BONK" ≡ "BONK"
unfolding extract_token
token_test = refl
