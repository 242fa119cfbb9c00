-- ===== src/Opening/Tests.antt =====
-- Runs of `copyOpenPosition`.
use clmm_copybot.Common.{
  ℕ, ◌≤◌, ◌≡◌, refl, inl, inr, String, true, false, ◌==◌, Option, none, some, List, [], ◌∷◌, arith,
  ltb, leb, ◌*◌, length, if◌then◌else◌,
}
use clmm_copybot.Common.Int.{pos, negsuc}
use clmm_copybot.Opening.{
  full, OpenConfig, Numerals, PositionInfo, Query, Reply, retry_get_position, get_pool_info,
  check_token_liquidity, check_concentration, get_token_symbol, get_token_balance, swap_for_token,
  swap_via_byreal_pool, get_actual_swap_output, send_open, Net, Opener,
}
use clmm_copybot.Opening.Cap.{Request, open_all, open_all-within_cap}
use clmm_copybot.Opening.Copy.{copy_open_position, open_unlocked}
use clmm_copybot.OpenedReferers
use clmm_copybot.OpenedReferers.{
  is_referer_duplicate, is_referer_duplicate_entry, get_opened_referer, add_opened_referer,
}
use clmm_copybot.Opening.Funding.{deposit}
use clmm_copybot.Ratios.{scale_amount, get_amount_ratio}
use clmm_copybot.Common.Dict.{lookup, insert, update}
use clmm_copybot.PositionMap
use clmm_copybot.PositionMap.{set, set_locked_sol, set_target_liquidity}
use clmm_copybot.PositionMap.Queries.{
  get, get_byreal_open_count, count_by_dex, count_from, has_duplicate_tick_range, duplicate_in,
}
use clmm_copybot.WriteChain.{idle}

abbrev config : OpenConfig ℕ ℕ
config = record {
  byreal_max_open_positions = 2;
  dry_run = false;
  skip_same_tick_range = true;
  pump_filter_mode = full;
  min_pool_age_days = 0;
  pool_age_whitelist = [];
  min_pool_tvl = 100;
  pool_tvl_whitelist = [];
  wallet_amount_ratios = ("W", 5) ∷ [];
  amount_ratio = 10;
  referer_policy = record {
    allow_same_wallet_reopen = false;
    allow_opened_by_wallets = [];
    allow_open_after_others_wallets = [];
  };
}

-- Ratios are tenths.
abbrev numerals : Numerals ℕ ℕ
numerals = record {
  ratios = record { is_one = λ r. r == 10; bps = λ r. r * 1000 };
  is_positive = λ n. ltb 0 n;
  is_below = λ m n. ltb m n;
  to_fixed = λ n. "n";
  to_text = λ n. "n";
  decimal = λ n. "n";
  age_days = λ a b. "n";
  to_lower_case = λ t. t;
}

abbrev target : PositionInfo
target = record {
  tick_lower = negsuc 4;
  tick_upper = pos 5;
  liquidity = "99";
  mint_a = "tokenA";
  mint_b = "tokenB";
  amount_a = 1000;
  amount_b = 600;
}

-- A node where the balance of A is short.
abbrev reply : (q : Query) → Reply ℕ q
reply (retry_get_position nft) = some target
reply (get_pool_info mint) = none
reply (check_token_liquidity mint) = some 500
reply (check_concentration a b wallet) = none
reply (get_token_symbol mint) = mint
reply (get_token_balance mint) = 400
reply (swap_for_token from to amount) = some "swap"
reply (swap_via_byreal_pool from to amount) = none
reply (get_actual_swap_output sig mint) = some 100
reply (send_open p d referer) = record { nft_address = "ours"; tx_sig = "sent" }

abbrev net : Net ℕ
net q past = inr (reply q)

-- The first sending fails in its simulation.
abbrev flaky : Net ℕ
flaky (send_open p d referer) past =
    if leb 9 (length past)
    then inr (record { nft_address = "ours"; tx_sig = "sent again" })
    else inl "simulation failed"
flaky q past = inr (reply q)

abbrev down : Net ℕ
down q past = inl "timeout"

abbrev idle_state : Opener ℕ
idle_state = record {
  positions = PositionMap.new;
  referers = OpenedReferers.new;
  pump = record { map = []; writes = idle; token_blacklist = []; token_whitelist = [] };
  busy = false;
  sol_paused = false;
  sol_paused_at = none;
  last_skip_reason = none;
  pool_id_to_mints = [];
  rent_per_position = 9;
  now = 1000;
  asked = [];
}

abbrev opened : Net ℕ → Option String × Opener ℕ
opened n = copy_open_position config numerals n "T" "pool" (some "ref") "W" idle_state

runs :
    ((opened net).0 ≡ some "sent")
    × (get "T" (opened net).1.positions ≡ some "ours")
    × ((opened flaky).0 ≡ some "sent again")
    × ((opened down).0 ≡ none)
    × ((opened down).1.busy ≡ false)
unfolding copy_open_position open_unlocked get lookup insert update is_referer_duplicate
    is_referer_duplicate_entry get_opened_referer get_byreal_open_count count_by_dex count_from
    has_duplicate_tick_range duplicate_in set set_locked_sol set_target_liquidity add_opened_referer
    scale_amount get_amount_ratio deposit
runs = (refl, refl, refl, refl, refl)

abbrev requests : List (Request ℕ)
requests =
    record { net = net; nft = "T"; pool_id = "pool"; referer = none; wallet = "W" }
    ∷ record { net = net; nft = "U"; pool_id = "pool"; referer = none; wallet = "V" }
    ∷ record { net = down; nft = "X"; pool_id = "pool"; referer = none; wallet = "W" }
    ∷ []

none_open : get_byreal_open_count idle_state.positions ≤ 2
unfolding get_byreal_open_count
none_open = omega arith

open_all-within_cap_example :
    get_byreal_open_count (open_all config numerals requests idle_state).positions ≤ 2
open_all-within_cap_example =
    open_all-within_cap config numerals requests idle_state (omega arith) none_open
