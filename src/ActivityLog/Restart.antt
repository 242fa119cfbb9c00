-- ===== src/ActivityLog/Restart.antt =====
-- What the tables keep of the feeds, for the next start (src/state/activity-log.ts).
use clmm_copybot.Common.{ℕ, ◌≡◌, refl, ap, sym, ◌∙◌, String, true, Option, List, [], ◌∷◌, ◌++◌}
use mathlib.Core.List.{append-nil}
use clmm_copybot.ActivityLog.{
  EventLogEntry, SwapHistoryEntry, ActivityLog, LogWrite, append_event, push_swap_row, Tables, new,
  init_activity_log, max_events, max_swap_history, trim_to, push_write, tag, learn_from, push_event,
  push_swap, execute_write, replay_writes,
}
use clmm_copybot.ActivityLog.Feed.{
  Push, event_push, swap_push, push_one, push_all, trim_to-append, push_write_fields,
}

trim_to_twice {ℓ} : {A : Type ℓ} (n : ℕ) (xs : List A) → trim_to n (trim_to n xs) ≡ trim_to n xs
trim_to_twice n xs =
    ap (trim_to n) (sym (append-nil (trim_to n xs)))
    ∙ trim_to-append n xs []
    ∙ ap (trim_to n) (append-nil xs)

replay_writes-append :
    (ws : List LogWrite) (w : LogWrite) (t : Tables)
    → replay_writes (ws ++ (w ∷ [])) t ≡ execute_write w (replay_writes ws t)
unfolding replay_writes
replay_writes-append [] w t = refl
replay_writes-append (v ∷ ws) w t = replay_writes-append ws w (execute_write v t)

pub replay-push_write :
    (w : LogWrite) (s : ActivityLog) (t : Tables)
    → s.enabled ≡ true
    → replay_writes (push_write w s).queue t ≡ execute_write w (replay_writes s.queue t)
unfolding push_write
replay-push_write w s t on = rw on (replay_writes-append s.queue w t)

-- The tables, once the queued writes have landed, are what the next start needs.
record Saves (t : Tables) (s : ActivityLog) : Type 0 where
  armed : s.enabled ≡ true
  events : trim_to max_events (replay_writes s.queue t).events ≡ s.event_log
  swaps : trim_to max_swap_history (replay_writes s.queue t).swap_rows ≡ s.swap_history
  pools : (replay_writes s.queue t).event_pool_map ≡ s.pool_map

-- A row is added and the oldest are dropped.
added {ℓ} :
    {A : Type ℓ} (n : ℕ) (rows log : List A) (x : A)
    → trim_to n rows ≡ log
    → trim_to n (trim_to n (rows ++ (x ∷ []))) ≡ trim_to n (log ++ (x ∷ []))
added n rows log x h =
    trim_to_twice n (rows ++ (x ∷ []))
    ∙ sym (trim_to-append n rows (x ∷ []))
    ∙ ap (λ l. trim_to n (l ++ (x ∷ []))) h

push_event-Saves :
    (t : Tables) (s : ActivityLog) (e : EventLogEntry) (dex : Option String)
    → Saves t s
    → Saves t (push_event e dex s)
unfolding push_event execute_write
push_event-Saves t s e dex v =
    let e' = tag dex e in
    let (log, swaps, pools, on) = push_write_fields (append_event e') _ in
    let landed = replay-push_write (append_event e') _ t v.armed in
    record {
      armed = on ∙ v.armed;
      events =
          ap (λ r. trim_to max_events r.events) landed
          ∙ added max_events (replay_writes s.queue t).events s.event_log e' v.events
          ∙ sym log;
      swaps = ap (λ r. trim_to max_swap_history r.swap_rows) landed ∙ v.swaps ∙ sym swaps;
      pools = ap (λ r. r.event_pool_map) landed ∙ ap (learn_from e') v.pools ∙ sym pools;
    }

push_swap-Saves :
    (t : Tables) (s : ActivityLog) (e : SwapHistoryEntry) → Saves t s → Saves t (push_swap e s)
unfolding push_swap execute_write
push_swap-Saves t s e v =
    let (log, swaps, pools, on) = push_write_fields (push_swap_row e) _ in
    let landed = replay-push_write (push_swap_row e) _ t v.armed in
    record {
      armed = on ∙ v.armed;
      events = ap (λ r. trim_to max_events r.events) landed ∙ v.events ∙ sym log;
      swaps =
          ap (λ r. trim_to max_swap_history r.swap_rows) landed
          ∙ added max_swap_history (replay_writes s.queue t).swap_rows s.swap_history e v.swaps
          ∙ sym swaps;
      pools = ap (λ r. r.event_pool_map) landed ∙ v.pools ∙ sym pools;
    }

push_all-Saves :
    (t : Tables) (ps : List Push) (s : ActivityLog) → Saves t s → Saves t (push_all ps s)
unfolding push_all push_one
push_all-Saves t [] s v = v
push_all-Saves t (event_push e dex ∷ ps) s v = push_all-Saves t ps _ (push_event-Saves t s e dex v)
push_all-Saves t (swap_push e ∷ ps) s v = push_all-Saves t ps _ (push_swap-Saves t s e v)

init-Saves : (t : Tables) → Saves t (init_activity_log t new)
unfolding init_activity_log replay_writes
init-Saves t = record { armed = refl; events = refl; swaps = refl; pools = refl }

-- After the feeds have been loaded, whatever is pushed: once the queued writes have landed, the
-- next start loads the event log, the swap history and the pool of every target NFT as the memory
-- has them.
pub restart_loses_nothing :
    (t : Tables) (ps : List Push)
    → let s = push_all ps (init_activity_log t new) in
      let restarted = init_activity_log (replay_writes s.queue t) new in
      (restarted.event_log ≡ s.event_log)
      × (restarted.swap_history ≡ s.swap_history)
      × (restarted.pool_map ≡ s.pool_map)
unfolding init_activity_log
restart_loses_nothing t ps =
    let v = push_all-Saves t ps _ (init-Saves t) in (v.events, v.swaps, v.pools)
