-- ===== src/PositionMap.antt =====
-- The map from a target's position NFT to ours: src/state/position-map.ts, with the statements of
-- src/state/repo/positions.ts. `S` is the type of SOL amounts (numbers of the source), of which
-- the code uses the sum alone.
pub mod Queries
pub mod Table
pub mod Removal
pub mod Counts
mod Tests
use clmm_copybot.Common.{
  ℕ, suc, ◌+◌, String, Bool, true, false, ◌&&◌, ◌||◌, not, Option, none, some, List, [], ◌∷◌, map,
  if◌then◌else◌, is_some, is_text, value_or, length, str_eq,
}
use clmm_copybot.Common.Dict.{lookup, insert, delete, update}
use clmm_copybot.Common.Int.{ℤ}
use clmm_copybot.WriteChain.{Write, upsert, remove, modify, Chain, idle, enable, push}

pub record Entry (S : Type 0) : Type 0 where
  pub our_nft : String
  pub created_at : ℕ
  pub pool : Option String
  pub target_wallet : Option String
  pub locked_sol : Option S
  pub tick_lower : Option ℤ
  pub tick_upper : Option ℤ
  pub dex : Option String
  pub target_liquidity : Option String

-- A row of the table `positions`, less `created_at`, which the database stamps by its own clock.
pub record Row (S : Type 0) : Type 0 where
  pub our_nft : String
  pub pool : Option String
  pub target_wallet : Option String
  pub locked_sol : Option S
  pub tick_lower : Option ℤ
  pub tick_upper : Option ℤ
  pub dex : Option String
  pub target_liquidity : Option String

pub record PositionMap (S : Type 0) : Type 0 where
  pub map : List (String × Entry S)
  pub writes : Chain (Row S)

module _ {S : Type 0} where
  abbrev pub new : PositionMap S
  new = record { map = []; writes = idle }

  -- Object.entries(await positions.toJSON()), then enable().
  unfoldable pub init : List (String × Entry S) → PositionMap S → PositionMap S
  init loaded m = record { map = loaded; writes = enable m.writes }

  -- Statements of the repository.
  abbrev pub positions_set :
      String
      → String
      → Option String
      → Option String
      → Option ℤ
      → Option ℤ
      → Option String
      → Write (Row S)
  positions_set target_nft our_nft pool wallet lower upper dex = upsert target_nft (record {
    our_nft = our_nft;
    pool = pool;
    target_wallet = wallet;
    locked_sol = none;
    tick_lower = lower;
    tick_upper = upper;
    dex = dex;
    target_liquidity = none;
  })

  abbrev pub positions_delete : String → Write (Row S)
  positions_delete target_nft = remove target_nft

  abbrev pub positions_set_dex : String → String → Write (Row S)
  positions_set_dex target_nft dex = modify target_nft (λ r. record r { dex = some dex })

  abbrev pub positions_set_pool : String → String → Write (Row S)
  positions_set_pool target_nft pool = modify target_nft (λ r. record r { pool = some pool })

  abbrev pub positions_set_locked_sol : String → S → Write (Row S)
  positions_set_locked_sol target_nft sol =
      modify target_nft (λ r. record r { locked_sol = some sol })

  abbrev pub positions_set_target_liquidity : String → String → Write (Row S)
  positions_set_target_liquidity target_nft liquidity =
      modify target_nft (λ r. record r { target_liquidity = some liquidity })

  -- The operations. `now` is `Date.now()`.
  unfoldable pub set :
      String
      → String
      → Option String
      → Option String
      → Option ℤ
      → Option ℤ
      → Option String
      → ℕ
      → PositionMap S
      → PositionMap S
  set target_nft my_nft pool wallet lower upper dex now m = record {
    map =
        insert target_nft
          (record {
            our_nft = my_nft;
            created_at = now;
            pool = pool;
            target_wallet = wallet;
            locked_sol = none;
            tick_lower = lower;
            tick_upper = upper;
            dex = dex;
            target_liquidity = none;
          })
          m.map;
    writes = push (positions_set target_nft my_nft pool wallet lower upper dex) m.writes;
  }

  unfoldable pub delete_mapping : String → PositionMap S → PositionMap S
  delete_mapping target_nft m = record {
    map = delete target_nft m.map;
    writes = push (positions_delete target_nft) m.writes;
  }

  unfoldable pub find_our : String → List (String × Entry S) → Option String
  find_our our_nft [] = none
  find_our our_nft ((k, e) ∷ m) = if str_eq e.our_nft our_nft then some k else find_our our_nft m

  unfoldable pub find_by_our_nft : String → PositionMap S → Option String
  unfolding find_our
  find_by_our_nft our_nft m = find_our our_nft m.map

  -- `if (!targetNft) return false`: a key that is the empty text counts as none.
  abbrev pub delete_found : Option String → PositionMap S → PositionMap S × Bool
  delete_found none m = (m, false)
  delete_found (some target_nft) m =
      if is_text target_nft then (delete_mapping target_nft m, true) else (m, false)

  unfoldable pub delete_by_our_nft : String → PositionMap S → PositionMap S × Bool
  unfolding find_by_our_nft delete_mapping
  delete_by_our_nft our_nft m = delete_found (find_by_our_nft our_nft m) m

  -- A change of a field of an entry that is there, with its write; nothing where it is not.
  abbrev pub change : String → (Entry S → Entry S) → Write (Row S) → PositionMap S → PositionMap S
  change target_nft f w m =
      if is_some (lookup target_nft m.map)
      then record { map = update target_nft f m.map; writes = push w m.writes }
      else m

  unfoldable pub set_dex : String → String → PositionMap S → PositionMap S
  set_dex target_nft dex =
      change target_nft (λ e. record e { dex = some dex }) (positions_set_dex target_nft dex)

  unfoldable pub set_pool : String → String → PositionMap S → PositionMap S
  set_pool target_nft pool =
      change target_nft (λ e. record e { pool = some pool }) (positions_set_pool target_nft pool)

  unfoldable pub set_locked_sol : String → S → PositionMap S → PositionMap S
  set_locked_sol target_nft sol =
      change target_nft (λ e. record e { locked_sol = some sol })
        (positions_set_locked_sol target_nft sol)

  unfoldable pub set_target_liquidity : String → String → PositionMap S → PositionMap S
  set_target_liquidity target_nft liquidity =
      change target_nft (λ e. record e { target_liquidity = some liquidity })
        (positions_set_target_liquidity target_nft liquidity)
