-- ===== src/Handler/Tests.antt =====
-- Runs of the event handler, and its theorems at concrete events.
use clmm_copybot.Common.{
  ℕ, ◌≡◌, refl, String, false, Option, none, some, List, [], ◌∷◌, ◌++◌, All, ◌==◌, map, length,
}
use clmm_copybot.Common.Dict.{dict}
use clmm_copybot.ActivityLog.{Tables, new, init_activity_log, max_events}
use clmm_copybot.ActivityLog.Feed.{push_all, newest}
use clmm_copybot.OpenedReferers
use clmm_copybot.OpenedReferers.{is_referer_duplicate, is_referer_duplicate_entry}
use clmm_copybot.Parser.{ParsedEvent, byreal_open_position, byreal_close_position, dammv2_claim_fee}
use clmm_copybot.Common.Int.{pos}
use clmm_copybot.Parser.Transaction.{fetch, parse_transaction}
use clmm_copybot.Parser.Samples.{programs, open_tx, open_logs, decode, numbers, rpc}
use clmm_copybot.PositionMap
use clmm_copybot.PositionMap.{PositionMap}
use clmm_copybot.PositionMap.Queries.{get, get_pool}
use clmm_copybot.Ratios.{RatioOps, compute_swap_cap_raw}
use clmm_copybot.TokenLosses
use clmm_copybot.TokenLosses.{is_token_cooling_down}
use clmm_copybot.TokenLosses.Pool.{extract_token}
use clmm_copybot.Handler
use clmm_copybot.Handler.{
  Call, copy_open_position, copy_increase_liquidity, copy_decrease_liquidity, copy_close_position,
  copy_claim_fee, swap_token_to_usdc, Answer, Effect, called, logged, Executor, Each, Config, World,
  Env, is_token_blacklisted, start,
}
use clmm_copybot.Handler.Swap.{wallet_ratio, jupiter_swap_event}
use clmm_copybot.Handler.Byreal.{byreal_open, byreal_close}
use clmm_copybot.Handler.Orca.{orca_open}
use clmm_copybot.Handler.Dammv2.{dammv2_claim}
use clmm_copybot.Handler.Dispatch.{dispatch, handle_event, handle_events}
use clmm_copybot.Handler.Shape.{Shape}
use clmm_copybot.Handler.Outcome.Event.{Asks, handle_event_lem}
use clmm_copybot.Handler.Outcome.Attribution.{CopiesOwn, handled-CopiesOwn}
use clmm_copybot.Handler.Outcome.Log.{pushes_of, entries, Explains, handled_log}

abbrev idle : Executor
idle = record {
  sol_paused = false;
  drawdown_paused = false;
  last_skip_reason = none;
  pool_id_to_mints = [];
}

abbrev each : {A : Type 0} → A → Each A
each x = record { byreal = x; orca = x; meteora = x; pcs = x; dammv2 = x }

-- Ratios in ten thousandths; the wallet C is close-only everywhere.
abbrev config : Config ℕ
config = record {
  close_only_wallets = each ("C" ∷ []);
  wallet_amount_ratios = each [];
  amount_ratio = 5000;
  token_blacklist = "BAD" ∷ [];
  byreal_skip_sol = false;
  pcs_skip_sol = false;
  referer_policy = record {
    allow_same_wallet_reopen = false;
    allow_opened_by_wallets = [];
    allow_open_after_others_wallets = [];
  };
}

abbrev mapped : PositionMap ℕ
mapped = record (PositionMap.new {S = ℕ}) {
  map =
      (
        "OLD",
        record {
          our_nft = "OURS";
          created_at = 1;
          pool = some "A/B";
          target_wallet = some "W";
          locked_sol = none;
          tick_lower = none;
          tick_upper = none;
          dex = none;
          target_liquidity = none;
        },
      )
      ∷ [];
}

abbrev world : World ℕ ℕ ℕ
world = record {
  config = config;
  byreal = idle;
  orca = some idle;
  meteora = none;
  pcs = none;
  dammv2 = some idle;
  positions = mapped;
  losses = TokenLosses.new;
  referers = OpenedReferers.new;
  now = 9;
}

-- Every call but a claim succeeds and leaves the world as it was; a claim throws.
abbrev answer : (c : Call) → Option (Answer c)
answer (copy_open_position v nft pool referer wallet) = some (some "SIG")
answer (copy_increase_liquidity v nft wallet) = some (some "SIG")
answer (copy_decrease_liquidity v nft) = some (some (record { tx_sig = "SIG"; type = "" }))
answer (copy_close_position v nft) = some (some "SIG")
answer (copy_claim_fee nft) = none
answer (swap_token_to_usdc mint max_raw) =
    some (some (record { sig = "SIG"; amount_raw = "7"; output_raw = none }))

abbrev env : Env ℕ ℕ ℕ
env c w = (answer c, w)

abbrev tenths : RatioOps ℕ
tenths = record { is_one = λ r. r == 10000; bps = λ r. r }

abbrev opening : ParsedEvent
opening = byreal_open_position (record {
  pool_id = "POOL";
  tick_lower = pos 0;
  tick_upper = pos 0;
  liquidity = "0";
  referer_position = some "REF";
  token_amount_a = "0";
  token_amount_b = "0";
  position_nft_mint = "NFT";
  pool_mints = some "A/B";
})

abbrev closing : ParsedEvent
closing = byreal_close_position "OLD" []

abbrev claiming : ParsedEvent
claiming = dammv2_claim_fee "OLD"

-- The calls and the types of the entries.
abbrev calls : List Effect → List Call
calls [] = []
calls (called c ∷ fs) = c ∷ calls fs
calls (_ ∷ fs) = calls fs

abbrev types : List Effect → List String
types fs = map (λ e. e.type) (entries fs)

handler : Unit {0}
unfolding dict get get_pool is_token_blacklisted is_token_cooling_down extract_token
    is_referer_duplicate is_referer_duplicate_entry OpenedReferers.get_opened_referer wallet_ratio
    compute_swap_cap_raw jupiter_swap_event byreal_open byreal_close orca_open dispatch handle_event
    handle_events dammv2_claim
handler = tt

open_tests :
    (calls (handle_event env tenths "W" opening (start world)).effects
      ≡ copy_open_position Handler.byreal "NFT" "POOL" (some "REF") "W" ∷ [])
    × (types (handle_event env tenths "W" opening (start world)).effects ≡ "OPEN" ∷ [])
    × (calls (handle_event env tenths "C" opening (start world)).effects ≡ [])
    × (types (handle_event env tenths "C" opening (start world)).effects ≡ "SKIP" ∷ [])
unfolding handler
open_tests = (refl, refl, refl, refl)

-- The claim throws, and the opening after it is not handled.
events_tests :
    let fs = (handle_events env tenths "W" (closing ∷ claiming ∷ opening ∷ []) world).effects in
    (calls fs ≡ copy_close_position Handler.byreal "OLD" ∷ copy_claim_fee "OLD" ∷ [])
    × (types fs ≡ "CLOSE" ∷ [])
    × (length fs ≡ 7)
unfolding handler
events_tests = (refl, refl, refl)

handle_event_lem_example :
    let b = handle_event env tenths "W" opening (start world) in
    Shape env world "W" (some "byreal") (some "NFT") (Asks "W" opening) b.effects b.thrown
handle_event_lem_example = handle_event_lem env tenths "W" world opening

fetched : fetch (rpc open_tx) ≡ some open_tx
unfolding fetch
fetched = refl

handled-CopiesOwn_example :
    All
      (CopiesOwn programs open_tx "W")
      (handle_events env tenths "W"
        (parse_transaction decode numbers programs (rpc open_tx) open_logs "W")
        world).effects
handled-CopiesOwn_example =
    handled-CopiesOwn ℕ ℕ ℕ env tenths decode ℕ numbers programs (rpc open_tx) open_logs "W" open_tx
      world fetched

abbrev no_rows : Tables
no_rows = record { events = []; event_pool_map = []; swap_rows = [] }

handled_log_example :
    let fs = (handle_events env tenths "W" (closing ∷ opening ∷ []) world).effects in
    ((push_all (pushes_of fs) (init_activity_log no_rows new)).event_log
      ≡ newest max_events (no_rows.events ++ entries fs))
    × Explains "W" (closing ∷ opening ∷ []) (entries fs)
handled_log_example = handled_log ℕ ℕ ℕ env tenths "W" (closing ∷ opening ∷ []) world no_rows
