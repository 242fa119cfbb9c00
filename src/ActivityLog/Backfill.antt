-- ===== src/ActivityLog/Backfill.antt =====
-- The pools that the event log gains when the bot starts (src/state/activity-log.ts,
-- `backfillEventPools`).
use clmm_copybot.Common.{
  ℕ, suc, ◌≡◌, refl, ap, sym, ◌∙◌, String, true, ◌&&◌, none, some, List, [], ◌∷◌, if◌then◌else◌,
  arith, Bool-cases, inl, inr, has_text, value_or, All, eq_iff,
}
use clmm_copybot.Common.Dict.{lookup, insert, lookup-insert}
use clmm_copybot.ActivityLog.{
  EventLogEntry, ActivityLog, set_pool_for, Tables, new, init_activity_log, execute_write,
  replay_writes, learn, learn_positions, learn_event, learn_events, backfill_event_pools,
}
use clmm_copybot.ActivityLog.Feed.{push_write_fields}
use clmm_copybot.ActivityLog.Restart.{replay-push_write}

-- What learning pools leaves alone, and that each of them is also written.
record Learns (s s' : ActivityLog) : Type 0 where
  kept :
      (k : String)
      → has_text (lookup k s.pool_map) ≡ true
      → lookup k s'.pool_map ≡ lookup k s.pool_map
  log : s'.event_log ≡ s.event_log
  armed : s'.enabled ≡ s.enabled
  saved :
      (t : Tables)
      → s.enabled ≡ true
      → (replay_writes s.queue t).event_pool_map ≡ s.pool_map
      → (replay_writes s'.queue t).event_pool_map ≡ s'.pool_map

Learns-refl : (s : ActivityLog) → Learns s s
Learns-refl s = record { kept = λ k h. refl; log = refl; armed = refl; saved = λ t on h. h }

Learns-trans : {s s' s'' : ActivityLog} → Learns s s' → Learns s' s'' → Learns s s''
Learns-trans a b = record {
  kept = λ k h. b.kept k (rw (a.kept k h) h) ∙ a.kept k h;
  log = b.log ∙ a.log;
  armed = b.armed ∙ a.armed;
  saved = λ t on h. b.saved t (a.armed ∙ on) (a.saved t on h);
}

learn-Learns : (nft pool : String) (s : ActivityLog) → Learns s (learn nft pool s)
unfolding learn
learn-Learns nft pool s = elim (Bool-cases (has_text (lookup nft s.pool_map))) [
  | inl known ↦ rw known (Learns-refl s)
  | inr fresh ↦
      let s1 = record s { pool_map = insert nft pool s.pool_map } in
      let (log, _, pools, on) = push_write_fields (set_pool_for nft pool) s1 in
      rw fresh (record {
        kept = λ k h.
            ap (lookup k) pools
            ∙ lookup-insert k nft pool s.pool_map
            ∙ ground (arith, eq_iff nft k, h, fresh);
        log = log;
        armed = on;
        saved = λ t armed h.
            ap (λ r. r.event_pool_map) (replay-push_write (set_pool_for nft pool) s1 t armed)
            ∙ unfold execute_write in ap (insert nft pool) h ∙ sym pools;
      })
]

learn_positions-Learns :
    (ps : List (String × String)) (s : ActivityLog) → Learns s (learn_positions ps s)
unfolding learn_positions
learn_positions-Learns [] s = Learns-refl s
learn_positions-Learns ((nft, pool) ∷ ps) s =
    Learns-trans (learn-Learns nft pool s) (learn_positions-Learns ps (learn nft pool s))

learn_event-Learns : (e : EventLogEntry) (s : ActivityLog) → Learns s (learn_event e s)
learn_event-Learns e s = elim (Bool-cases (has_text e.pool && has_text e.target_nft)) [
  | inl both ↦ rw both (learn-Learns (value_or e.target_nft "") (value_or e.pool "") s)
  | inr lacks ↦ rw lacks (Learns-refl s)
]

learn_events-Learns : (es : List EventLogEntry) (s : ActivityLog) → Learns s (learn_events es s)
unfolding learn_events
learn_events-Learns [] s = Learns-refl s
learn_events-Learns (e ∷ es) s =
    Learns-trans (learn_event-Learns e s) (learn_events-Learns es (learn_event e s))

-- The pool of each position that has one is known.
abbrev Known : List (String × String) → List (String × String) → Type 0
Known m ps =
    All (λ (p : String × String). has_text (some p.1) ≡ true → has_text (lookup p.0 m) ≡ true) ps

abbrev pub unlabelled : List EventLogEntry → ℕ
unlabelled [] = 0
unlabelled (e ∷ es) = let n = unlabelled es in if has_text e.pool then n else suc n

abbrev pub without_pool : EventLogEntry → EventLogEntry
without_pool e = record e { pool = none }

-- The pools that the backfill learns reach the table: at the start, once its writes have landed,
-- the table of pools is the pool map.
pub backfill_saved :
    (ps : List (String × String)) (t : Tables)
    → let s = (backfill_event_pools ps (init_activity_log t new)).0 in
      (replay_writes s.queue t).event_pool_map ≡ s.pool_map
unfolding backfill_event_pools init_activity_log replay_writes
backfill_saved ps t =
    let s = init_activity_log t new in
    let l1 = learn_positions ps s in
    (Learns-trans (learn_positions-Learns ps s) (learn_events-Learns l1.event_log l1)).saved t refl
      refl
