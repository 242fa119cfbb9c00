-- ===== src/PositionMap/Counts.antt =====
-- The counts and sums by venue (src/state/position-map.ts, and the position cap of
-- src/executor/byreal-position.ts).
use clmm_copybot.Common.{
  ap, ◌∙◌, refl, inl, inr, Bool-cases, ℕ, suc, ◌+◌, ◌≤◌, ◌≡◌, ◌⊎◌, true, false, String, Option,
  none, some, List, [], ◌∷◌, arith, length, if◌then◌else◌, str_eq, eq_iff, All, value_or,
}
use clmm_copybot.PositionMap.{Entry, PositionMap}
use clmm_copybot.PositionMap.Queries.{
  ByDex, is_byreal, add_to, size, no_counts, count_from, count_by_dex, get_byreal_open_count,
  byreal_nfts, get_byreal_nfts, fallback_for, sum_from, get_total_locked_sol_by_dex, total_from,
  get_total_locked_sol,
}

abbrev pub total : ByDex ℕ → ℕ
total t = t.byreal + t.orca + t.meteora + t.pancakeswap + t.dammv2

total-add_to :
    (n : ℕ) (dex : Option String) (t : ByDex ℕ) → total (add_to (λ x. x + n) dex t) ≡ total t + n
total-add_to n none t = omega arith
total-add_to n (some d) t = ground arith

total-add_to-suc : (dex : Option String) (t : ByDex ℕ) → total (add_to suc dex t) ≡ suc (total t)
total-add_to-suc none t = omega arith
total-add_to-suc (some d) t = ground arith

-- An untagged entry, or one with the tag of a venue that the bot trades on.
abbrev pub IsKnown : Option String → Type 0
IsKnown none = Unit
IsKnown (some d) =
    (d ≡ "")
    ⊎ (d ≡ "byreal")
    ⊎ (d ≡ "orca")
    ⊎ (d ≡ "meteora")
    ⊎ (d ≡ "pancakeswap")
    ⊎ (d ≡ "dammv2")

-- No other venue has an empty tag, or the tag of Byreal.
abbrev NoOther : String → Type 0
NoOther d =
    (str_eq d "orca" ≡ false)
    × (str_eq d "meteora" ≡ false)
    × (str_eq d "pancakeswap" ≡ false)
    × (str_eq d "dammv2" ≡ false)

empty-NoOther : (d : String) → d ≡ "" → NoOther d
empty-NoOther d e = rw e (refl, refl, refl, refl)

byreal-NoOther : (d : String) → d ≡ "byreal" → NoOther d
byreal-NoOther d e = rw e (refl, refl, refl, refl)

is_byreal-NoOther : (d : String) → is_byreal (some d) ≡ true → NoOther d
is_byreal-NoOther d h =
    ground (arith, eq_iff d "", eq_iff d "byreal", empty-NoOther d, byreal-NoOther d)

-- What one entry adds to the count of Byreal positions.
byreal_step :
    (d : Option String) (t : ByDex ℕ)
    → (if is_byreal d then suc t.byreal else t.byreal) ≤ (add_to suc d t).byreal
byreal_step none t = omega arith
byreal_step (some d) t = elim (Bool-cases (is_byreal (some d))) [
  | inl yes_byreal ↦
      let (o, m, p, v) = is_byreal-NoOther d yes_byreal in rw (yes_byreal, o, m, p, v) (omega arith)
  | inr other ↦ rw other (ground arith)
]

byreal_step_known :
    (d : Option String) (t : ByDex ℕ)
    → IsKnown d
    → (if is_byreal d then suc t.byreal else t.byreal) ≡ (add_to suc d t).byreal
byreal_step_known none t h = refl
byreal_step_known (some d) t (inl e) = rw e refl
byreal_step_known (some d) t (inr (inl e)) = rw e refl
byreal_step_known (some d) t (inr (inr (inl e))) = rw e refl
byreal_step_known (some d) t (inr (inr (inr (inl e)))) = rw e refl
byreal_step_known (some d) t (inr (inr (inr (inr (inl e))))) = rw e refl
byreal_step_known (some d) t (inr (inr (inr (inr (inr e))))) = rw e refl

module _ {S : Type 0} where
  total-count_from :
      (t : ByDex ℕ) (m : List (String × Entry S)) → total (count_from t m) ≡ total t + length m
  unfolding count_from
  total-count_from t [] = omega arith
  total-count_from t ((k, e) ∷ m) =
      omega (arith, total-count_from (add_to suc e.dex t) m, total-add_to-suc e.dex t)

  -- Every mapped position is counted for exactly one venue: the five counts add up to the size.
  pub total-count_by_dex : (m : PositionMap S) → total (count_by_dex m) ≡ size m
  unfolding count_by_dex size
  total-count_by_dex m = omega (arith, total-count_from no_counts m.map)

  byreal_nfts-le-count :
      (t : ByDex ℕ) (m : List (String × Entry S))
      → t.byreal + length (byreal_nfts m) ≤ (count_from t m).byreal
  unfolding count_from byreal_nfts
  byreal_nfts-le-count t [] = omega arith
  byreal_nfts-le-count t ((k, e) ∷ m) =
      ground (arith, byreal_nfts-le-count (add_to suc e.dex t) m, byreal_step e.dex t)

  byreal_nfts-eq-count :
      (t : ByDex ℕ) (m : List (String × Entry S))
      → All (λ b. IsKnown b.1.dex) m
      → t.byreal + length (byreal_nfts m) ≡ (count_from t m).byreal
  unfolding count_from byreal_nfts
  byreal_nfts-eq-count t [] h = omega arith
  byreal_nfts-eq-count t ((k, e) ∷ m) h =
      ground (arith, byreal_nfts-eq-count (add_to suc e.dex t) m h.1, byreal_step_known e.dex t h.0)

  -- The open count that the position cap reads is never less than the number of NFTs that
  -- `getByrealNfts` lists.
  get_byreal_nfts-le-open_count :
      (m : PositionMap S) → length (get_byreal_nfts m) ≤ get_byreal_open_count m
  unfolding get_byreal_nfts get_byreal_open_count
  get_byreal_nfts-le-open_count m = omega (arith, byreal_nfts-le-count no_counts m.map)

  -- The open count is the number of NFTs that `getByrealNfts` lists where every entry is untagged
  -- or has the tag of one of the five venues.
  pub get_byreal_open_count_lem :
      (m : PositionMap S)
      → All (λ b. IsKnown b.1.dex) m.map
      → length (get_byreal_nfts m) ≡ get_byreal_open_count m
  unfolding get_byreal_nfts get_byreal_open_count
  get_byreal_open_count_lem m h = omega (arith, byreal_nfts-eq-count no_counts m.map h)

-- Sums of whole lamports.
abbrev pub same_for_all : ℕ → ByDex ℕ
same_for_all d = record { byreal = d; orca = d; meteora = d; pancakeswap = d; dammv2 = d }

fallback_for_same : (dex : Option String) (d : ℕ) → fallback_for dex (same_for_all d) ≡ d
fallback_for_same none d = refl
fallback_for_same (some t) d = ground arith

total-sum_from :
    (d : ℕ) (t : ByDex ℕ) (m : List (String × Entry ℕ))
    → total (sum_from ◌+◌ 0 (same_for_all d) t m) ≡ total_from ◌+◌ 0 d (total t) m
unfolding sum_from total_from
total-sum_from d t [] = refl
total-sum_from d t ((k, e) ∷ m) =
    let amount = value_or e.locked_sol (fallback_for e.dex (same_for_all d)) in
    let own : amount ≡ value_or e.locked_sol d =
      ap (value_or e.locked_sol) (fallback_for_same e.dex d) in
    total-sum_from d (add_to (λ x. x + amount) e.dex t) m
    ∙ ap (λ x. total_from ◌+◌ 0 d x m) (total-add_to amount e.dex t)
    ∙ ap (λ x. total_from ◌+◌ 0 d (total t + x) m) own

-- In whole lamports and with one fallback for every venue, the sums of the SOL locked by venue add
-- up to the sum of the SOL locked in all positions.
pub total-get_total_locked_sol_by_dex :
    (d : ℕ) (m : PositionMap ℕ)
    → total (get_total_locked_sol_by_dex ◌+◌ 0 (same_for_all d) m) ≡ get_total_locked_sol ◌+◌ 0 d m
unfolding get_total_locked_sol_by_dex get_total_locked_sol
total-get_total_locked_sol_by_dex d m = total-sum_from d (same_for_all 0) m.map
