-- ===== src/Handler.antt =====
-- The handling of a target's events: `handleEvent` of src/index.ts, with `isTokenBlacklisted` of
-- src/executor/byreal-position.ts and src/executor/pancakeswap-position.ts.
-- What the handler does is a list of effects, in order. The copying itself is the executors': each
-- call of one is an effect, and what it answers and leaves is given by the environment, `Env`.
pub mod Swap
pub mod Byreal
pub mod Orca
pub mod Meteora
pub mod Pcs
pub mod Dammv2
pub mod Dispatch
pub mod Shape
pub mod Outcome
mod Tests
use clmm_copybot.Common.{
  ℕ, String, Bool, true, false, ◌&&◌, ◌||◌, not, Option, none, some, List, [], ◌∷◌, ◌++◌,
  if◌then◌else◌, str_eq, is_text, has, has_text, or_none, value_or,
}
use clmm_copybot.Common.Dict.{lookup, insert}
use clmm_copybot.ActivityLog.{EventLogEntry, SwapHistoryEntry}
use clmm_copybot.OpenedReferers.{Policy, Store}
use clmm_copybot.PendingSwaps.Executor.{Received, native_mint}
use clmm_copybot.PositionMap.{PositionMap}
use clmm_copybot.PositionMap.Queries.{get, get_pool}
use clmm_copybot.TokenLosses.{Losses, is_token_cooling_down}
use clmm_copybot.TokenLosses.Pool.{split}

pub data Venue : Type 0 where
  byreal orca meteora pcs dammv2 : Venue

-- The executors' methods. Meteora and DAMM v2 call an increase `copyAddLiquidity` and a decrease
-- `copyRemoveLiquidity`; a referer is passed on by Byreal and PancakeSwap alone.
pub data Call : Type 0 where
  copy_open_position : Venue → String → String → Option String → String → Call
  copy_increase_liquidity : Venue → String → String → Call
  copy_decrease_liquidity : Venue → String → Call
  copy_close_position : Venue → String → Call
  copy_claim_fee : String → Call
  swap_token_to_usdc : String → ℕ → Call

pub record Reduced : Type 0 where
  pub tx_sig : String
  pub type : String

pub record Swapped : Type 0 where
  pub sig : String
  pub amount_raw : String
  pub output_raw : Option String

-- `none` is null.
abbrev pub Answer : Call → Type 0
Answer (copy_open_position v nft pool referer wallet) = Option String
Answer (copy_increase_liquidity v nft wallet) = Option String
Answer (copy_decrease_liquidity v nft) = Option Reduced
Answer (copy_close_position v nft) = Option String
Answer (copy_claim_fee nft) = Option String
Answer (swap_token_to_usdc mint max_raw) = Option Swapped

pub data Effect : Type 0 where
  called : Call → Effect
  logged : EventLogEntry → Option String → Effect
  swap_logged : SwapHistoryEntry → Effect
  bot_received : List Received → Effect
  price_refreshed : Effect
  caches_invalidated : Effect
  pnl_checked : String → String → Effect

-- The fields of an executor that the handler reads and sets.
pub record Executor : Type 0 where
  pub sol_paused : Bool
  pub drawdown_paused : Bool
  pub last_skip_reason : Option String
  pub pool_id_to_mints : List (String × String)

-- One value for each venue.
pub record Each (A : Type 0) : Type 0 where
  pub byreal : A
  pub orca : A
  pub meteora : A
  pub pcs : A
  pub dammv2 : A

-- `R` is the type of the ratios.
pub record Config (R : Type 0) : Type 0 where
  pub close_only_wallets : Each (List String)
  pub wallet_amount_ratios : Each (List (String × R))
  pub amount_ratio : R
  pub token_blacklist : List String
  pub byreal_skip_sol : Bool
  pub pcs_skip_sol : Bool
  pub referer_policy : Policy

-- What the handler reads. The venues other than Byreal have an executor if they are enabled.
pub record World (S N R : Type 0) : Type 0 where
  pub config : Config R
  pub byreal : Executor
  pub orca : Option Executor
  pub meteora : Option Executor
  pub pcs : Option Executor
  pub dammv2 : Option Executor
  pub positions : PositionMap S
  pub losses : Losses N
  pub referers : Store
  pub now : ℕ

-- `thrown` says that the handling was left by an exception.
pub record Bot (S N R : Type 0) : Type 0 where
  pub world : World S N R
  pub effects : List Effect
  pub thrown : Bool

abbrev pub reset_skip : Executor → Executor
reset_skip x = record x { last_skip_reason = none }

-- An answer, or none where the call throws, and the world that the call leaves.
abbrev pub Env : Type 0 → Type 0 → Type 0 → Type 0
Env S N R = (c : Call) → World S N R → Option (Answer c) × World S N R

unfoldable pub is_blacklisted_in : Bool → List String → String → List String → Bool
is_blacklisted_in skip_sol blacklist pool (a ∷ b ∷ []) =
    if skip_sol && (str_eq a native_mint || str_eq b native_mint)
    then true
    else has a blacklist || has b blacklist
is_blacklisted_in skip_sol blacklist pool _ = has pool blacklist

unfoldable pub is_token_blacklisted : Bool → List String → String → Bool
unfolding is_blacklisted_in
is_token_blacklisted skip_sol blacklist pool =
    if is_text pool then is_blacklisted_in skip_sol blacklist pool (split pool) else false

-- The pool of an event, from the cache of the executor or the event, which is then cached.
abbrev pub known_mints : String → Option String → Executor → Option String
known_mints pool_id pool_mints x =
    if has_text (lookup pool_id x.pool_id_to_mints)
    then lookup pool_id x.pool_id_to_mints
    else if has_text pool_mints
    then pool_mints
    else lookup pool_id x.pool_id_to_mints

abbrev pub cache_mints : String → Option String → Executor → Executor
cache_mints pool_id pool_mints x =
    if has_text (lookup pool_id x.pool_id_to_mints)
    then x
    else if has_text pool_mints
    then record x { pool_id_to_mints = insert pool_id (value_or pool_mints "") x.pool_id_to_mints }
    else x

module _ {S N R : Type 0} where
  abbrev pub start : World S N R → Bot S N R
  start w = record { world = w; effects = []; thrown = false }

  abbrev pub emit : Effect → Bot S N R → Bot S N R
  emit e b = record b { effects = b.effects ++ (e ∷ []) }

  abbrev pub has_mapping : String → World S N R → Bool
  has_mapping nft w = has_text (get nft w.positions)

  abbrev pub pool_of : String → World S N R → Option String
  pool_of nft w = get_pool nft w.positions

  -- `isTokenCoolingDown`, where the pool is known.
  abbrev pub cooling_down : Option String → World S N R → World S N R × Bool
  cooling_down none w = (w, false)
  cooling_down (some pool) w =
      if is_text pool
      then (let (l, b) = is_token_cooling_down w.now pool w.losses in (record w { losses = l }, b))
      else (w, false)

  abbrev pub blacklisted : Bool → Option String → World S N R → Bool
  blacklisted skip_sol none w = false
  blacklisted skip_sol (some pool) w = is_token_blacklisted skip_sol w.config.token_blacklist pool

  module _ (env : Env S N R) where
    abbrev pub continue :
        {A : Type 0} → Option A × World S N R → Bot S N R → (A → Bot S N R → Bot S N R) → Bot S N R
    continue (none, w) b k = record b { world = w; thrown = true }
    continue (some a, w) b k = k a (record b { world = w })

    -- A call of an executor, and what is done with its answer.
    abbrev pub perform : (c : Call) → Bot S N R → (Answer c → Bot S N R → Bot S N R) → Bot S N R
    perform c b k = continue (env c b.world) (emit (called c) b) k

  -- A new signature makes the price of SOL and the caches stale.
  abbrev pub refresh_all : Option String → Bot S N R → Bot S N R
  refresh_all sig b = if has_text sig then emit caches_invalidated (emit price_refreshed b) else b

  abbrev pub refresh_caches : Option String → Bot S N R → Bot S N R
  refresh_caches sig b = if has_text sig then emit caches_invalidated b else b

  -- `wallet` is the target's, and `dex` the venue that the entries are tagged with.
  module _ (wallet : String) (dex : Option String) where
    abbrev pub log_entry :
        String
        → String
        → Option String
        → Bool
        → Option String
        → Option String
        → Bot S N R
        → Bot S N R
    log_entry type nft sig success error pool b =
        emit
          (logged
            (record {
              ts = b.world.now;
              type = type;
              target_wallet = wallet;
              target_nft = some nft;
              our_nft = none;
              tx_sig = sig;
              success = success;
              error = error;
              pool = pool;
              dex = none;
            })
            dex)
          b

    -- The entry of an event that is passed over, for a reason.
    abbrev pub skip : String → String → Option String → Bot S N R → Bot S N R
    skip nft reason pool b = log_entry "SKIP" nft none true (some reason) pool b

    -- The entry of an event that was copied, or failed to be.
    abbrev pub record_copy : String → String → Option String → Option String → Bot S N R → Bot S N R
    record_copy type nft sig pool b = log_entry type nft (or_none sig) (has_text sig) none pool b

    -- The entry of a decrease, and the caches.
    abbrev pub record_reduced : String → Option Reduced → Bot S N R → Bot S N R
    record_reduced nft none b = log_entry "DECREASE" nft none false none none b
    record_reduced nft (some r) b = emit caches_invalidated (
        log_entry (if is_text r.type then r.type else "DECREASE") nft (or_none (some r.tx_sig)) true
          none none b)
