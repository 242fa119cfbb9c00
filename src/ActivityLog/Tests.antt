-- ===== src/ActivityLog/Tests.antt =====
-- Runs of the two feeds, and their theorems at concrete entries.
use clmm_copybot.Common.{
  ℕ, ◌≤◌, ◌≡◌, refl, String, true, Option, none, some, List, [], ◌∷◌, ◌++◌, map, length,
}
use clmm_copybot.Common.Dict.{dict, lookup}
use clmm_copybot.ActivityLog.{
  EventLogEntry, SwapHistoryEntry, ActivityLog, Tables, new, max_events, max_swap_history, trim_to,
  init_activity_log, push_write, push_event, push_swap, learn, backfill_event_pools, execute_write,
  replay_writes,
}
use clmm_copybot.ActivityLog.Feed.{
  event_push, swap_push, Push, push_one, push_all, events_of, swaps_of, newest, feeds_lem,
}
use clmm_copybot.ActivityLog.Restart.{restart_loses_nothing}

abbrev event : ℕ → String → Option String → EventLogEntry
event ts nft pool = record {
  ts = ts;
  type = "OPEN";
  target_wallet = "W";
  target_nft = some nft;
  our_nft = none;
  tx_sig = some "S";
  success = true;
  error = none;
  pool = pool;
  dex = none;
}

abbrev swap : ℕ → SwapHistoryEntry
swap ts = record {
  ts = ts;
  input_mint = "M";
  tx_sig = "S";
  input_amount_raw = some "5";
  input_decimals = none;
  output_amount_raw = none;
}

abbrev tables : Tables
tables = record {
  events = event 1 "N1" none ∷ event 2 "N2" (some "C/D") ∷ [];
  event_pool_map = [];
  swap_rows = swap 1 ∷ [];
}

abbrev pushes : List Push
pushes = event_push (event 3 "N3" (some "E/F")) (some "orca") ∷ swap_push (swap 4) ∷ []

abbrev positions : List (String × String)
positions = ("N1", "A/B") ∷ ("N9", "") ∷ []

feeds : Unit {0}
unfolding dict trim_to init_activity_log push_write push_event push_swap push_one push_all learn
    backfill_event_pools execute_write replay_writes
feeds = tt

push_tests :
    let s = push_all pushes (init_activity_log tables new) in
    (map (λ e. e.ts) s.event_log ≡ 1 ∷ 2 ∷ 3 ∷ [])
    × (map (λ e. e.dex) s.event_log ≡ none ∷ none ∷ some "orca" ∷ [])
    × (lookup "N3" s.pool_map ≡ some "E/F")
    × (length s.queue ≡ 2)
unfolding feeds
push_tests = (refl, refl, refl, refl)

trim_tests :
    (trim_to {A = ℕ} 2 (1 ∷ 2 ∷ 3 ∷ []) ≡ 2 ∷ 3 ∷ [])
    × (trim_to {A = ℕ} 3 (1 ∷ 2 ∷ []) ≡ 1 ∷ 2 ∷ [])
unfolding feeds
trim_tests = (refl, refl)

backfill_tests :
    let (s, r) = backfill_event_pools positions (init_activity_log tables new) in
    (map (λ e. e.pool) s.event_log ≡ some "A/B" ∷ some "C/D" ∷ [])
    × (r.backfilled ≡ 1)
    × (r.pool_count ≡ 3)
    × (length s.queue ≡ 3)
unfolding feeds
backfill_tests = (refl, refl, refl, refl)

feeds_lem_example :
    let s = push_all pushes (init_activity_log tables new) in
    (s.event_log ≡ newest max_events (tables.events ++ events_of pushes))
    × (s.swap_history ≡ newest max_swap_history (tables.swap_rows ++ swaps_of pushes))
    × (length s.event_log ≤ max_events)
    × (length s.swap_history ≤ max_swap_history)
feeds_lem_example = feeds_lem tables pushes

restart_loses_nothing_example :
    let s = push_all pushes (init_activity_log tables new) in
    let restarted = init_activity_log (replay_writes s.queue tables) new in
    (restarted.event_log ≡ s.event_log)
    × (restarted.swap_history ≡ s.swap_history)
    × (restarted.pool_map ≡ s.pool_map)
restart_loses_nothing_example = restart_loses_nothing tables pushes

abbrev started : ActivityLog
started = init_activity_log tables new
