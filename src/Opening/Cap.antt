-- ===== src/Opening/Cap.antt =====
-- The cap on the open positions (src/executor/byreal-position.ts, `getByrealPositionCapStatus`, with
-- `getByrealOpenCount` of src/state/position-map.ts).
use clmm_copybot.Common.{
  ℕ, suc, ◌+◌, ◌≤◌, ◌<◌, ◌≡◌, refl, ◌∙◌, ap, sym, inl, inr, String, Option, List, [], ◌∷◌,
  if◌then◌else◌, arith, Bool-cases, has_text, is_text, is_some, str_eq,
}
use clmm_copybot.Common.Dict.{insert, update, lookup}
use clmm_copybot.Common.Int.{ℤ}
use clmm_copybot.Handler.Shape.{if_rule}
use clmm_copybot.Opening.{OpenConfig, Numerals, PositionInfo, Sent, Net, Opener}
use clmm_copybot.Opening.Copy
use clmm_copybot.Opening.Copy.{is_cap_reached, record_sent, copy_open_position}
use clmm_copybot.Opening.Outcome.{copy_open_position_lem}
use clmm_copybot.PositionMap.{
  Entry, Row, PositionMap, set, change, set_locked_sol, set_target_liquidity,
}
use clmm_copybot.PositionMap.Queries.{
  ByDex, add_to, no_counts, count_from, count_by_dex, get_byreal_open_count,
}
use clmm_copybot.WriteChain.{Write}

-- What an entry adds to the count.
abbrev weight : Option String → ℕ
weight dex = (add_to suc dex no_counts).byreal

add_to-weight :
    (dex : Option String) (t : ByDex ℕ) → (add_to suc dex t).byreal ≡ t.byreal + weight dex
add_to-weight dex t = ground arith

weight_small : (dex : Option String) → weight dex ≤ 1
weight_small dex = ground arith

module _ {S : Type 0} where
  abbrev weigh : List (String × Entry S) → ℕ
  weigh [] = 0
  weigh ((k, e) ∷ m) = weight e.dex + weigh m

  count_from-weigh :
      (t : ByDex ℕ) (m : List (String × Entry S)) → (count_from t m).byreal ≡ t.byreal + weigh m
  unfolding count_from
  count_from-weigh t [] = omega arith
  count_from-weigh t ((k, e) ∷ m) =
      omega (arith, count_from-weigh (add_to suc e.dex t) m, add_to-weight e.dex t)

  weigh-insert :
      (k : String) (e : Entry S) (m : List (String × Entry S))
      → weigh (insert k e m) ≤ suc (weigh m)
  unfolding insert
  weigh-insert k e [] = omega (arith, weight_small e.dex)
  weigh-insert k e ((j, d) ∷ m) = elim (Bool-cases (str_eq j k)) [
    | inl same ↦ rw same (omega (arith, weight_small e.dex))
    | inr other ↦ rw other (omega (arith, weigh-insert k e m))
  ]

  weigh-update :
      (k : String) (f : Entry S → Entry S) (m : List (String × Entry S))
      → ((e : Entry S) → (f e).dex ≡ e.dex)
      → weigh (update k f m) ≡ weigh m
  unfolding update
  weigh-update k f [] h = refl
  weigh-update k f ((j, d) ∷ m) h = elim (Bool-cases (str_eq j k)) [
    | inl same ↦ rw same (ap (λ x. weight x + weigh m) (h d))
    | inr other ↦ rw other (ap (λ x. weight d.dex + x) (weigh-update k f m h))
  ]

  open_count-weigh : (m : PositionMap S) → get_byreal_open_count m ≡ weigh m.map
  unfolding get_byreal_open_count count_by_dex
  open_count-weigh m = omega (arith, count_from-weigh no_counts m.map)

  weigh-change :
      (nft : String) (f : Entry S → Entry S) (w : Write (Row S)) (m : PositionMap S)
      → ((e : Entry S) → (f e).dex ≡ e.dex)
      → weigh (change nft f w m).map ≡ weigh m.map
  weigh-change nft f w m h =
      if_rule (λ n. weigh n.map ≡ weigh m.map) (is_some (lookup nft m.map)) _ m
        (λ there. weigh-update nft f m.map h) (λ missing. refl)

  open_count-set :
      (nft address : String) (pool wallet : Option String) (lower upper : Option ℤ)
      (dex : Option String) (now : ℕ) (m : PositionMap S)
      → get_byreal_open_count (set nft address pool wallet lower upper dex now m)
        ≤ suc (get_byreal_open_count m)
  unfolding set
  open_count-set nft address pool wallet lower upper dex now m = rw (open_count-weigh m) (
      omega (
        arith,
        open_count-weigh (set nft address pool wallet lower upper dex now m),
        weigh-insert nft _ m.map,
      ))

  open_count-set_locked_sol :
      (nft : String) (sol : S) (m : PositionMap S)
      → get_byreal_open_count (set_locked_sol nft sol m) ≡ get_byreal_open_count m
  unfolding set_locked_sol
  open_count-set_locked_sol nft sol m =
      open_count-weigh (set_locked_sol nft sol m)
      ∙ weigh-change nft _ _ m (λ e. refl)
      ∙ sym (open_count-weigh m)

  open_count-set_target_liquidity :
      (nft liquidity : String) (m : PositionMap S)
      → get_byreal_open_count (set_target_liquidity nft liquidity m) ≡ get_byreal_open_count m
  unfolding set_target_liquidity
  open_count-set_target_liquidity nft liquidity m =
      open_count-weigh (set_target_liquidity nft liquidity m)
      ∙ weigh-change nft _ _ m (λ e. refl)
      ∙ sym (open_count-weigh m)

-- An opening that is asked for, with what the chain answers to it.
pub record Request (N : Type 0) : Type 0 where
  pub net : Net N
  pub nft : String
  pub pool_id : String
  pub referer : Option String
  pub wallet : String

module _ {S R N : Type 0} (c : OpenConfig R N) (f : Numerals R N) where
  module _ (net : Net N) (nft pool_id : String) (referer : Option String) (wallet : String) where
    abbrev saved : PositionInfo → Sent → Opener S → Opener S
    saved p sent s =
        if is_text sent.nft_address
        then Copy.save_mapping c f net nft pool_id referer wallet p sent.nft_address s
        else s

    record_sent-positions :
        (p : PositionInfo) (sent : Sent) (s : Opener S)
        → (record_sent c f net nft pool_id referer wallet p sent s).positions
          ≡ (saved p sent s).positions
    unfolding record_sent
    record_sent-positions p sent s =
        if_rule (λ t. t.positions ≡ (saved p sent s).positions) (has_text referer) _
          (saved p sent s) (λ there. refl) (λ lacks. refl)

    -- An opening adds at most one position.
    record_sent-open_count :
        (p : PositionInfo) (sent : Sent) (s : Opener S)
        → get_byreal_open_count (record_sent c f net nft pool_id referer wallet p sent s).positions
          ≤ suc (get_byreal_open_count s.positions)
    record_sent-open_count p sent s = rw (record_sent-positions p sent s) (
        if_rule
          (λ (t : Opener S).
            get_byreal_open_count t.positions ≤ suc (get_byreal_open_count s.positions))
          (is_text sent.nft_address)
          (Copy.save_mapping c f net nft pool_id referer wallet p sent.nft_address s) s
          (λ there. rw open_count-set_target_liquidity (
            rw open_count-set_locked_sol
              (open_count-set nft sent.nft_address _ _ _ _ _ s.now s.positions)))
          (λ blank. omega arith))

    within_cap :
        (s : Opener S)
        → 0 < c.byreal_max_open_positions
        → get_byreal_open_count s.positions ≤ c.byreal_max_open_positions
        → get_byreal_open_count
            (copy_open_position c f net nft pool_id referer wallet s).1.positions
          ≤ c.byreal_max_open_positions
    within_cap s on below =
        elim (copy_open_position_lem c f net nft pool_id referer wallet s).outcome [
          | inl untouched ↦ rw (untouched.0) below
          | inr (openable, idle, opened) ↦ rw (opened.recorded) (
              ground
                (arith, openable.below_cap, record_sent-open_count opened.position opened.sent s))
        ]

  unfoldable pub open_all : List (Request N) → Opener S → Opener S
  open_all [] s = s
  open_all (r ∷ rs) s =
      open_all rs (copy_open_position c f r.net r.nft r.pool_id r.referer r.wallet s).1

  -- With a cap that is on, no openings take the count of open Byreal positions past it, if it is not
  -- past it to begin with, whatever the chain answers.
  pub open_all-within_cap :
      (rs : List (Request N)) (s : Opener S)
      → 0 < c.byreal_max_open_positions
      → get_byreal_open_count s.positions ≤ c.byreal_max_open_positions
      → get_byreal_open_count (open_all rs s).positions ≤ c.byreal_max_open_positions
  unfolding open_all
  open_all-within_cap [] s on below = below
  open_all-within_cap (r ∷ rs) s on below =
      open_all-within_cap rs _ on (within_cap r.net r.nft r.pool_id r.referer r.wallet s on below)
