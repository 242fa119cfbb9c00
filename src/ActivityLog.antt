-- ===== src/ActivityLog.antt =====
-- The event log and the swap history: src/state/activity-log.ts with the statements of
-- src/state/repo/events.ts and src/state/repo/swapHistory.ts.
-- An entry is written as it was when it was pushed: `backfillEventPools`, which changes entries in
-- place, runs once, when the bot starts, before any is pushed.
pub mod Feed
pub mod Restart
pub mod Backfill
mod Tests
use clmm_copybot.Common.{
  ℕ, suc, ◌+◌, String, Bool, true, false, ◌&&◌, not, Option, none, some, List, [], ◌∷◌, ◌++◌, ltb,
  length, if◌then◌else◌, has_text, value_or,
}
use clmm_copybot.Common.Dict.{lookup, insert}

pub record EventLogEntry : Type 0 where
  pub ts : ℕ
  pub type : String
  pub target_wallet : String
  pub target_nft : Option String
  pub our_nft : Option String
  pub tx_sig : Option String
  pub success : Bool
  pub error : Option String
  pub pool : Option String
  pub dex : Option String

pub record SwapHistoryEntry : Type 0 where
  pub ts : ℕ
  pub input_mint : String
  pub tx_sig : String
  pub input_amount_raw : Option String
  pub input_decimals : Option ℕ
  pub output_amount_raw : Option String

abbrev pub max_events : ℕ
max_events = 1000

abbrev pub max_swap_history : ℕ
max_swap_history = 40

-- One repository call that is queued.
pub data LogWrite : Type 0 where
  append_event : EventLogEntry → LogWrite
  set_pool_for : String → String → LogWrite
  push_swap_row : SwapHistoryEntry → LogWrite

pub record ActivityLog : Type 0 where
  pub event_log : List EventLogEntry
  pub swap_history : List SwapHistoryEntry
  pub pool_map : List (String × String)
  pub enabled : Bool
  pub queue : List LogWrite

-- The three tables, with the rows in the order of their ids.
pub record Tables : Type 0 where
  pub events : List EventLogEntry
  pub event_pool_map : List (String × String)
  pub swap_rows : List SwapHistoryEntry

abbrev pub new : ActivityLog
new = record { event_log = []; swap_history = []; pool_map = []; enabled = false; queue = [] }

-- `while (xs.length > max) xs.shift()`; so too the deletion of all rows but the newest.
unfoldable pub trim_to {ℓ} : {A : Type ℓ} → ℕ → List A → List A
trim_to max [] = []
trim_to max (x ∷ xs) =
    let rest = trim_to max xs in if ltb max (length (x ∷ xs)) then rest else x ∷ xs

unfoldable pub init_activity_log : Tables → ActivityLog → ActivityLog
unfolding trim_to
init_activity_log t s = record s {
  event_log = trim_to max_events t.events;
  swap_history = trim_to max_swap_history t.swap_rows;
  pool_map = t.event_pool_map;
  enabled = true;
}

unfoldable pub push_write : LogWrite → ActivityLog → ActivityLog
push_write w s = if s.enabled then record s { queue = s.queue ++ (w ∷ []) } else s

-- `if (dex && !entry.dex) entry.dex = dex`.
abbrev pub tag : Option String → EventLogEntry → EventLogEntry
tag dex e = if has_text dex && not (has_text e.dex) then record e { dex = dex } else e

-- The pool of a target NFT, where an entry names both.
abbrev pub learn_from : EventLogEntry → List (String × String) → List (String × String)
learn_from e m =
    if has_text e.pool && has_text e.target_nft
    then insert (value_or e.target_nft "") (value_or e.pool "") m
    else m

abbrev pub append : EventLogEntry → ActivityLog → ActivityLog
append e s = push_write (append_event e) (record s {
  pool_map = learn_from e s.pool_map;
  event_log = trim_to max_events (s.event_log ++ (e ∷ []));
})

unfoldable pub push_event : EventLogEntry → Option String → ActivityLog → ActivityLog
push_event e dex s = append (tag dex e) s

unfoldable pub push_swap : SwapHistoryEntry → ActivityLog → ActivityLog
push_swap e s =
    push_write (push_swap_row e)
      (record s { swap_history = trim_to max_swap_history (s.swap_history ++ (e ∷ [])) })

-- One call of the repository, on the tables.
unfoldable pub execute_write : LogWrite → Tables → Tables
unfolding trim_to
execute_write (append_event e) t = record t {
  events = trim_to max_events (t.events ++ (e ∷ []));
  event_pool_map = learn_from e t.event_pool_map;
}
execute_write (set_pool_for nft pool) t = record t {
  event_pool_map = insert nft pool t.event_pool_map;
}
execute_write (push_swap_row e) t = record t {
  swap_rows = trim_to max_swap_history (t.swap_rows ++ (e ∷ []));
}

-- All queued writes, in order, each of which lands.
unfoldable pub replay_writes : List LogWrite → Tables → Tables
unfolding execute_write
replay_writes [] t = t
replay_writes (w ∷ ws) t = replay_writes ws (execute_write w t)

-- `if (!poolMap[targetNft]) { poolMap[targetNft] = pool; writes.push(…) }`.
unfoldable pub learn : String → String → ActivityLog → ActivityLog
learn nft pool s =
    if has_text (lookup nft s.pool_map)
    then s
    else push_write (set_pool_for nft pool) (record s { pool_map = insert nft pool s.pool_map })

unfoldable pub learn_positions : List (String × String) → ActivityLog → ActivityLog
unfolding learn
learn_positions [] s = s
learn_positions ((nft, pool) ∷ ps) s = learn_positions ps (learn nft pool s)

abbrev learn_event : EventLogEntry → ActivityLog → ActivityLog
learn_event e s =
    if has_text e.pool && has_text e.target_nft
    then learn (value_or e.target_nft "") (value_or e.pool "") s
    else s

unfoldable pub learn_events : List EventLogEntry → ActivityLog → ActivityLog
unfolding learn
learn_events [] s = s
learn_events (e ∷ es) s = learn_events es (learn_event e s)

-- Whether an entry lacks its pool and the map has it.
abbrev pub gains : List (String × String) → EventLogEntry → Bool
gains m e =
    not (has_text e.pool)
    && (has_text e.target_nft && has_text (lookup (value_or e.target_nft "") m))

unfoldable pub label_events : List (String × String) → List EventLogEntry → List EventLogEntry × ℕ
label_events m [] = ([], 0)
label_events m (e ∷ es) =
    let (rest, n) = label_events m es in
    if gains m e
    then (record e { pool = lookup (value_or e.target_nft "") m } ∷ rest, suc n)
    else (e ∷ rest, n)

pub record Backfilled : Type 0 where
  pub backfilled : ℕ
  pub pool_count : ℕ

abbrev label_all : ActivityLog → ActivityLog × Backfilled
label_all s =
    let (labelled, n) = label_events s.pool_map s.event_log in
    (record s { event_log = labelled }, record { backfilled = n; pool_count = length s.pool_map })

unfoldable pub backfill_event_pools :
    List (String × String) → ActivityLog → ActivityLog × Backfilled
unfolding learn_positions learn_events label_events
backfill_event_pools position_pools s =
    let learned = learn_positions position_pools s in
    label_all (learn_events learned.event_log learned)
