-- ===== src/PositionMap/Queries.antt =====
-- The reads of the position map: lookups, the counts by venue and the entries to backfill
-- (src/state/position-map.ts).
use clmm_copybot.Common.{
  ℕ, suc, String, Bool, true, false, ◌&&◌, ◌||◌, not, Option, none, some, List, [], ◌∷◌,
  if◌then◌else◌, is_text, value_or, length, str_eq, is_some,
}
use clmm_copybot.Common.Dict.{lookup}
use clmm_copybot.Common.Int.{ℤ, int_eq}
use clmm_copybot.PositionMap.{Entry, PositionMap}

-- The counts of `countByDex`, and the sums of `getTotalLockedSolByDex`.
pub record ByDex (A : Type 0) : Type 0 where
  pub byreal : A
  pub orca : A
  pub meteora : A
  pub pancakeswap : A
  pub dammv2 : A

-- `o === s` for an optional text.
abbrev pub opt_is : Option String → String → Bool
opt_is none s = false
opt_is (some t) s = str_eq t s

abbrev pub opt_int_is : Option ℤ → ℤ → Bool
opt_int_is none n = false
opt_int_is (some m) n = int_eq m n

-- `!o` for an optional text: it is missing or empty.
abbrev pub is_blank : Option String → Bool
is_blank none = true
is_blank (some t) = not (is_text t)

abbrev pub is_byreal : Option String → Bool
is_byreal d = is_blank d || opt_is d "byreal"

-- Add to the field that the chain of tests on `dex` selects; anything else counts as Byreal.
abbrev pub add_to : {A : Type 0} → (A → A) → Option String → ByDex A → ByDex A
add_to f dex t =
    if opt_is dex "orca"
    then record t { orca = f t.orca }
    else if opt_is dex "meteora"
    then record t { meteora = f t.meteora }
    else if opt_is dex "pancakeswap"
    then record t { pancakeswap = f t.pancakeswap }
    else if opt_is dex "dammv2"
    then record t { dammv2 = f t.dammv2 }
    else record t { byreal = f t.byreal }

abbrev pub no_counts : ByDex ℕ
no_counts = record { byreal = 0; orca = 0; meteora = 0; pancakeswap = 0; dammv2 = 0 }

module _ {S : Type 0} where
  unfoldable pub duplicate_in : String → String → ℤ → ℤ → List (String × Entry S) → Bool
  duplicate_in wallet pool lower upper [] = false
  duplicate_in wallet pool lower upper ((k, e) ∷ m) =
      (opt_is e.target_wallet wallet
        && opt_is e.pool pool
        && opt_int_is e.tick_lower lower
        && opt_int_is e.tick_upper upper)
      || duplicate_in wallet pool lower upper m

  unfoldable pub has_duplicate_tick_range : String → String → ℤ → ℤ → PositionMap S → Bool
  unfolding duplicate_in
  has_duplicate_tick_range wallet pool lower upper m = duplicate_in wallet pool lower upper m.map

  abbrev pub field_of : {A : Type 0} → (Entry S → Option A) → Option (Entry S) → Option A
  field_of f none = none
  field_of f (some e) = f e

  unfoldable pub get : String → PositionMap S → Option String
  get target_nft m = field_of (λ e. some e.our_nft) (lookup target_nft m.map)

  unfoldable pub get_pool : String → PositionMap S → Option String
  get_pool target_nft m = field_of (λ e. e.pool) (lookup target_nft m.map)

  unfoldable pub get_dex : String → PositionMap S → Option String
  get_dex target_nft m = field_of (λ e. e.dex) (lookup target_nft m.map)

  unfoldable pub get_target_liquidity : String → PositionMap S → Option String
  get_target_liquidity target_nft m = field_of (λ e. e.target_liquidity) (lookup target_nft m.map)

  unfoldable pub get_locked_sol : String → S → PositionMap S → S
  get_locked_sol target_nft fallback m =
      value_or (field_of (λ e. e.locked_sol) (lookup target_nft m.map)) fallback

  abbrev pub our_nfts : List (String × Entry S) → List String
  our_nfts [] = []
  our_nfts ((k, e) ∷ m) = e.our_nft ∷ our_nfts m

  unfoldable pub get_all_my_nfts : PositionMap S → List String
  get_all_my_nfts m = our_nfts m.map

  unfoldable pub byreal_nfts : List (String × Entry S) → List String
  byreal_nfts [] = []
  byreal_nfts ((k, e) ∷ m) =
      let rest = byreal_nfts m in if is_byreal e.dex then e.our_nft ∷ rest else rest

  unfoldable pub get_byreal_nfts : PositionMap S → List String
  unfolding byreal_nfts
  get_byreal_nfts m = byreal_nfts m.map

  unfoldable pub size : PositionMap S → ℕ
  size m = length m.map

  unfoldable pub count_from : ByDex ℕ → List (String × Entry S) → ByDex ℕ
  count_from t [] = t
  count_from t ((k, e) ∷ m) = count_from (add_to suc e.dex t) m

  unfoldable pub count_by_dex : PositionMap S → ByDex ℕ
  unfolding count_from
  count_by_dex m = count_from no_counts m.map

  unfoldable pub get_byreal_open_count : PositionMap S → ℕ
  unfolding count_by_dex
  get_byreal_open_count m = (count_by_dex m).byreal

  -- The amount that `add_to` selects a field for: an entry's own, or the venue's fallback.
  abbrev pub fallback_for : Option String → ByDex S → S
  fallback_for dex fallback =
      if opt_is dex "orca"
      then fallback.orca
      else if opt_is dex "meteora"
      then fallback.meteora
      else if opt_is dex "pancakeswap"
      then fallback.pancakeswap
      else if opt_is dex "dammv2"
      then fallback.dammv2
      else fallback.byreal

  module _ (plus : S → S → S) (nil : S) where
    unfoldable pub sum_from : ByDex S → ByDex S → List (String × Entry S) → ByDex S
    sum_from fallback t [] = t
    sum_from fallback t ((k, e) ∷ m) =
        let amount = value_or e.locked_sol (fallback_for e.dex fallback) in
        sum_from fallback (add_to (λ x. plus x amount) e.dex t) m

    unfoldable pub get_total_locked_sol_by_dex : ByDex S → PositionMap S → ByDex S
    unfolding sum_from
    get_total_locked_sol_by_dex fallback m =
        sum_from fallback
          (record { byreal = nil; orca = nil; meteora = nil; pancakeswap = nil; dammv2 = nil })
          m.map

    unfoldable pub total_from : S → S → List (String × Entry S) → S
    total_from fallback t [] = t
    total_from fallback t ((k, e) ∷ m) =
        total_from fallback (plus t (value_or e.locked_sol fallback)) m

    unfoldable pub get_total_locked_sol : S → PositionMap S → S
    unfolding total_from
    get_total_locked_sol fallback m = total_from fallback nil m.map

  abbrev pub missing_in : (Entry S → Bool) → List (String × Entry S) → List (String × String)
  missing_in test [] = []
  missing_in test ((k, e) ∷ m) =
      let rest = missing_in test m in if test e then (k, e.our_nft) ∷ rest else rest

  unfoldable pub entries_missing_pool : PositionMap S → List (String × String)
  entries_missing_pool m = missing_in (λ e. is_blank e.pool) m.map

  unfoldable pub entries_missing_locked_sol : PositionMap S → List (String × String)
  entries_missing_locked_sol m = missing_in (λ e. not (is_some e.locked_sol)) m.map
