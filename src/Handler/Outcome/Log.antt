-- ===== src/Handler/Outcome/Log.antt =====
-- What the handling of a transaction leaves in the event log: `handleEvent` of src/index.ts and
-- src/state/activity-log.ts together.
use clmm_copybot.Common.{
  ◌≤◌, ◌≡◌, ◌⊎◌, refl, ap, String, Bool, true, none, List, [], ◌∷◌, ◌++◌, arith, Bool-cases, inl,
  inr, length, has_text, All,
}
use mathlib.Core.List.{append-nil}
use clmm_copybot.ActivityLog.{EventLogEntry, Tables, new, init_activity_log, max_events, tag}
use clmm_copybot.ActivityLog.Feed.{
  Push, event_push, swap_push, push_all, events_of, newest, feeds_lem,
}
use clmm_copybot.Parser.{
  ParsedEvent, jupiter_swap, byreal_open_position, byreal_increase_liquidity,
  byreal_decrease_liquidity, byreal_close_position, byreal_collect_fees, orca_open_position,
  orca_close_position, orca_increase_liquidity, orca_decrease_liquidity, meteora_open_position,
  meteora_close_position, meteora_add_liquidity, meteora_remove_liquidity, pcs_open_position,
  pcs_increase_liquidity, pcs_decrease_liquidity, pcs_close_position, pcs_collect_fees,
  dammv2_open_position, dammv2_close_position, dammv2_add_liquidity, dammv2_remove_liquidity,
  dammv2_claim_fee, unknown,
}
use clmm_copybot.Ratios.{RatioOps}
use clmm_copybot.Handler.{
  Call, Effect, called, logged, swap_logged, bot_received, price_refreshed, caches_invalidated,
  pnl_checked, World, Env, start,
}
use clmm_copybot.Handler.Dispatch.{event_dex, handle_event, handle_events}
use clmm_copybot.Handler.Shape.{
  Shape, silent, noted, threw, copied, unreported, after_receipt, IsAftermath,
}
use clmm_copybot.Handler.Outcome.Event.{Asks, about, handle_event_lem}

-- The appends to the two feeds among the effects, in order.
abbrev pub pushes_of : List Effect → List Push
pushes_of [] = []
pushes_of (called c ∷ fs) = pushes_of fs
pushes_of (logged e dex ∷ fs) = event_push e dex ∷ pushes_of fs
pushes_of (swap_logged e ∷ fs) = swap_push e ∷ pushes_of fs
pushes_of (bot_received rs ∷ fs) = pushes_of fs
pushes_of (price_refreshed ∷ fs) = pushes_of fs
pushes_of (caches_invalidated ∷ fs) = pushes_of fs
pushes_of (pnl_checked pool nft ∷ fs) = pushes_of fs

-- The entries that the effects add to the event log.
abbrev pub entries : List Effect → List EventLogEntry
entries fs = events_of (pushes_of fs)

entries-append : (fs gs : List Effect) → entries (fs ++ gs) ≡ entries fs ++ entries gs
entries-append [] gs = refl
entries-append (called c ∷ fs) gs = entries-append fs gs
entries-append (logged e dex ∷ fs) gs = ap (λ l. tag dex e ∷ l) (entries-append fs gs)
entries-append (swap_logged e ∷ fs) gs = entries-append fs gs
entries-append (bot_received rs ∷ fs) gs = entries-append fs gs
entries-append (price_refreshed ∷ fs) gs = entries-append fs gs
entries-append (caches_invalidated ∷ fs) gs = entries-append fs gs
entries-append (pnl_checked pool nft ∷ fs) gs = entries-append fs gs

quiet-entries : (fs : List Effect) → All IsAftermath fs → entries fs ≡ []
quiet-entries [] h = refl
quiet-entries (called c ∷ fs) h = absurd h.0
quiet-entries (logged e dex ∷ fs) h = absurd h.0
quiet-entries (swap_logged e ∷ fs) h = quiet-entries fs h.1
quiet-entries (bot_received rs ∷ fs) h = absurd h.0
quiet-entries (price_refreshed ∷ fs) h = quiet-entries fs h.1
quiet-entries (caches_invalidated ∷ fs) h = quiet-entries fs h.1
quiet-entries (pnl_checked pool nft ∷ fs) h = quiet-entries fs h.1

-- The venue of an event is tagged as it is.
event_dex-cases : (e : ParsedEvent) → (has_text (event_dex e) ≡ true) ⊎ (event_dex e ≡ none)
event_dex-cases (jupiter_swap s) = inr refl
event_dex-cases (byreal_open_position o) = inl refl
event_dex-cases (byreal_increase_liquidity m) = inl refl
event_dex-cases (byreal_decrease_liquidity m l) = inl refl
event_dex-cases (byreal_close_position m rs) = inl refl
event_dex-cases (byreal_collect_fees m) = inl refl
event_dex-cases (orca_open_position pool a b m) = inl refl
event_dex-cases (orca_close_position m rs) = inl refl
event_dex-cases (orca_increase_liquidity m) = inl refl
event_dex-cases (orca_decrease_liquidity m) = inl refl
event_dex-cases (meteora_open_position pool a b p) = inl refl
event_dex-cases (meteora_close_position p rs) = inl refl
event_dex-cases (meteora_add_liquidity p) = inl refl
event_dex-cases (meteora_remove_liquidity p) = inl refl
event_dex-cases (pcs_open_position o) = inl refl
event_dex-cases (pcs_increase_liquidity m) = inl refl
event_dex-cases (pcs_decrease_liquidity m l) = inl refl
event_dex-cases (pcs_close_position m rs) = inl refl
event_dex-cases (pcs_collect_fees m) = inl refl
event_dex-cases (dammv2_open_position pool m) = inl refl
event_dex-cases (dammv2_close_position m rs) = inl refl
event_dex-cases (dammv2_add_liquidity m) = inl refl
event_dex-cases (dammv2_remove_liquidity m) = inl refl
event_dex-cases (dammv2_claim_fee m) = inl refl
event_dex-cases unknown = inr refl

-- What an entry of the log says of the event that it is for.
abbrev pub IsFor : String → EventLogEntry → ParsedEvent → Type 0
IsFor wallet e event =
    (e.target_wallet ≡ wallet) × (e.target_nft ≡ about event) × (e.dex ≡ event_dex event)

tag-IsFor :
    (wallet : String) (event : ParsedEvent) (e : EventLogEntry)
    → (e.target_wallet ≡ wallet) × (e.target_nft ≡ about event) × (e.dex ≡ none)
    → IsFor wallet (tag (event_dex event) e) event
tag-IsFor wallet event e (a, b, c) = elim (event_dex-cases event) [
  | inl named ↦ (rw (named, c) a, rw (named, c) b, rw (named, c) refl)
  | inr unnamed ↦ rw unnamed (a, b, c)
]

module _ {S N R : Type 0} (env : Env S N R) (w : World S N R) (wallet : String)
    (event : ParsedEvent) (Asked : Call → Type 0) where
  -- One event adds at most one entry, which is for it.
  Shape-entries :
      {fs : List Effect} {t : Bool}
      → Shape env w wallet (event_dex event) (about event) Asked fs t
      → (length (entries fs) ≤ 1) × All (λ e. IsFor wallet e event) (entries fs)
  Shape-entries silent = (omega arith, tt)
  Shape-entries (noted e says) = (omega arith, (tag-IsFor wallet event e says, tt))
  Shape-entries (threw c w' allowed asked h) = (omega arith, tt)
  Shape-entries (copied c w' a e fs allowed asked h says reports rest) =
      rw (quiet-entries fs rest) (omega arith, (tag-IsFor wallet event e says, tt))
  Shape-entries (unreported c w' a fs allowed asked h quiet rest) =
      rw (quiet-entries fs rest) (omega arith, tt)
  Shape-entries (after_receipt rs s) = Shape-entries s

-- The entries belong to the events, in their order: an event has one or none.
pub data Explains (wallet : String) : List ParsedEvent → List EventLogEntry → Type 0 where
  none_left : (es : List ParsedEvent) → Explains wallet es []
  passed :
      (event : ParsedEvent) {es : List ParsedEvent} {xs : List EventLogEntry}
      → Explains wallet es xs
      → Explains wallet (event ∷ es) xs
  told :
      (event : ParsedEvent) (e : EventLogEntry) {es : List ParsedEvent} {xs : List EventLogEntry}
      → IsFor wallet e event
      → Explains wallet es xs
      → Explains wallet (event ∷ es) (e ∷ xs)

add_event :
    (wallet : String) (event : ParsedEvent) (es : List ParsedEvent) (xs ys : List EventLogEntry)
    → length xs ≤ 1
    → All (λ e. IsFor wallet e event) xs
    → Explains wallet es ys
    → Explains wallet (event ∷ es) (xs ++ ys)
add_event wallet event es [] ys short all rest = passed event rest
add_event wallet event es (x ∷ []) ys short all rest = told event x all.0 rest
add_event wallet event es (x ∷ y ∷ xs) ys short all rest = absurd (omega arith)

module _ {S N R : Type 0} (env : Env S N R) (ops : RatioOps R) (wallet : String) where
  entries-Explains :
      (es : List ParsedEvent) (w : World S N R)
      → Explains wallet es (entries (handle_events env ops wallet es w).effects)
  unfolding handle_events
  entries-Explains [] w = none_left []
  entries-Explains (e ∷ es) w =
      let done = handle_event env ops wallet e (start w) in
      let rest = handle_events env ops wallet es done.world in
      let (short, all) =
        Shape-entries env w wallet e (Asks wallet e) (handle_event_lem env ops wallet w e) in
      elim (Bool-cases done.thrown) [
        | inl thrown ↦ rw thrown (
            rw (← append-nil (entries done.effects))
              (add_event wallet e es (entries done.effects) [] short all (none_left es)))
        | inr fine ↦ rw fine (
            rw (entries-append done.effects rest.effects) (
              add_event wallet e es (entries done.effects) _ short all
                (entries-Explains es done.world)))
      ]

-- Whatever the events of a transaction, the state of the bot and the answers of the executors: the
-- event log, loaded from the tables, holds afterwards the last 1000 of the entries that it was
-- loaded with followed by the new ones; these belong to the events in their order, one or none to
-- each, and name the wallet, the position of the event and its venue.
pub handled_log :
    (S N R : Type 0) (env : Env S N R) (ops : RatioOps R) (wallet : String) (es : List ParsedEvent)
    (w : World S N R) (t : Tables)
    → let fs = (handle_events env ops wallet es w).effects in
      ((push_all (pushes_of fs) (init_activity_log t new)).event_log
        ≡ newest max_events (t.events ++ entries fs))
      × Explains wallet es (entries fs)
handled_log S N R env ops wallet es w t = (
  (feeds_lem t (pushes_of (handle_events env ops wallet es w).effects)).0,
  entries-Explains env ops wallet es w,
)
