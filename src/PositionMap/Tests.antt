-- ===== src/PositionMap/Tests.antt =====
-- Runs of the position map, and its theorems at concrete maps.
use mathlib.Core.Option
use clmm_copybot.Common.{
  ℕ, zero, suc, ◌≡◌, ◌⊎◌, refl, Bool, true, false, String, Option, none, some, List, [], ◌∷◌, ◌+◌,
  arith, length,
}
use clmm_copybot.Common.Dict.{dict, lookup, IsUnique, map_values}
use clmm_copybot.Common.Int.{pos, negsuc}
use clmm_copybot.WriteChain.{chain, drain, retry_delays_ms}
use clmm_copybot.PositionMap.{
  Entry, PositionMap, new, init, set, delete_by_our_nft, set_locked_sol, set_dex,
}
use clmm_copybot.PositionMap.Queries.{size, get_total_locked_sol, has_duplicate_tick_range}
use clmm_copybot.PositionMap.Table.{
  to_row, Call, set_call, delete_by_our_nft_call, set_locked_sol_call, set_dex_call, call, run,
  drained-eq-memory,
}
use clmm_copybot.PositionMap.Removal.{HasNone, RemovedOne, delete_by_our_nft_lem}

abbrev entry : String → Option String → Option ℕ → Entry ℕ
entry our dex locked = record {
  our_nft = our;
  created_at = 1000;
  pool = some "A/B";
  target_wallet = some "W";
  locked_sol = locked;
  tick_lower = some (negsuc 9);
  tick_upper = some (pos 10);
  dex = dex;
  target_liquidity = none;
}

abbrev two : List (String × Entry ℕ)
two = ("t1", entry "o1" none (some 5)) ∷ ("t2", entry "o2" (some "orca") none) ∷ []

abbrev loaded_two : PositionMap ℕ
loaded_two = record { map = two; writes = record { enabled = true; queue = [] } }

abbrev calls : List (Call ℕ)
calls =
    set_call "t3" "o3" none (some "W") none none (some "meteora") 2000
    ∷ set_locked_sol_call "t3" 7
    ∷ delete_by_our_nft_call "o1"
    ∷ set_dex_call "t1" "orca"
    ∷ []

-- The third attempt of each write lands.
abbrev third : ℕ → ℕ → Bool
third j zero = false
third j (suc zero) = false
third j (suc (suc i)) = true

run_keys :
    let m = run calls (init two new) in
    (lookup "t1" m.map ≡ none)
    × (Option.map (λ e. e.locked_sol) (lookup "t3" m.map) ≡ some (some 7))
    × (size m ≡ 2)
    × (length m.writes.queue ≡ 3)
unfolding run call set set_locked_sol set_dex delete_by_our_nft init size dict chain
run_keys = (refl, refl, refl, refl)

duplicate_test :
    (has_duplicate_tick_range "W" "A/B" (negsuc 9) (pos 10) loaded_two ≡ true)
    × (has_duplicate_tick_range "W" "A/B" (negsuc 8) (pos 10) loaded_two ≡ false)
unfolding has_duplicate_tick_range
duplicate_test = (refl, refl)

drained-eq-memory_example :
    let m = run calls (init two new) in
    lookup "t3" (drain retry_delays_ms third 0 m.writes.queue (map_values to_row two))
    ≡ Option.map to_row (lookup "t3" m.map)
drained-eq-memory_example =
    drained-eq-memory two calls retry_delays_ms third (λ j. (2, omega arith, refl)) "t3"

two-IsUnique : IsUnique two
unfolding lookup
two-IsUnique = (refl, (refl, tt))

no_empty_key : lookup "" two ≡ none
unfolding lookup
no_empty_key = refl

delete_by_our_nft_lem_example :
    (HasNone "o2" two × (delete_by_our_nft "o2" loaded_two ≡ (loaded_two, false)))
    ⊎ (((delete_by_our_nft "o2" loaded_two).1 ≡ true)
        × RemovedOne "o2" loaded_two (delete_by_our_nft "o2" loaded_two).0)
delete_by_our_nft_lem_example = delete_by_our_nft_lem "o2" loaded_two two-IsUnique no_empty_key

sums_test : get_total_locked_sol ◌+◌ 0 3 loaded_two ≡ 8
unfolding get_total_locked_sol
sums_test = refl
