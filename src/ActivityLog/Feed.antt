-- ===== src/ActivityLog/Feed.antt =====
-- What the two feeds hold after any pushes (src/state/activity-log.ts).
use clmm_copybot.Common.{
  ℕ, zero, suc, ◌-◌, ◌≤◌, ◌≡◌, refl, ap, sym, ◌∙◌, String, true, Option, List, [], ◌∷◌, ◌++◌, ltb,
  length, drop, arith, Bool-cases, inl, inr, length-append,
}
use mathlib.Core.List.{append-nil, append_assoc}
use clmm_copybot.ActivityLog.{
  EventLogEntry, SwapHistoryEntry, ActivityLog, LogWrite, Tables, new, init_activity_log,
  max_events, max_swap_history, trim_to, push_write, tag, push_event, push_swap,
}

-- A call of one of the two writers.
pub data Push : Type 0 where
  event_push : EventLogEntry → Option String → Push
  swap_push : SwapHistoryEntry → Push

unfoldable pub push_one : Push → ActivityLog → ActivityLog
push_one (event_push e dex) s = push_event e dex s
push_one (swap_push e) s = push_swap e s

unfoldable pub push_all : List Push → ActivityLog → ActivityLog
unfolding push_one
push_all [] s = s
push_all (p ∷ ps) s = push_all ps (push_one p s)

-- The events among the pushes, with their tags, and the swaps.
abbrev pub events_of : List Push → List EventLogEntry
events_of [] = []
events_of (event_push e dex ∷ ps) = tag dex e ∷ events_of ps
events_of (swap_push e ∷ ps) = events_of ps

abbrev pub swaps_of : List Push → List SwapHistoryEntry
swaps_of [] = []
swaps_of (event_push e dex ∷ ps) = swaps_of ps
swaps_of (swap_push e ∷ ps) = e ∷ swaps_of ps

-- The last `n` elements of a list.
abbrev pub newest {ℓ} : {A : Type ℓ} → ℕ → List A → List A
newest n xs = drop (length xs - n) xs

module _ {ℓ} {A : Type ℓ} where
  drop-nil : (n : ℕ) → drop {A = A} n [] ≡ []
  drop-nil zero = refl
  drop-nil (suc n) = refl

  drop_none : (n : ℕ) (xs : List A) → n ≡ 0 → drop n xs ≡ xs
  drop_none n xs h = rw h refl

  drop_more : (n k : ℕ) (x : A) (xs : List A) → k ≡ suc n → drop k (x ∷ xs) ≡ drop n xs
  drop_more n k x xs h = rw h refl

  -- Shifting until the list fits leaves its last elements.
  pub trim_to-eq-newest : (n : ℕ) (xs : List A) → trim_to n xs ≡ newest n xs
  unfolding trim_to
  trim_to-eq-newest n [] = sym (drop-nil (0 - n))
  trim_to-eq-newest n (x ∷ xs) = elim (Bool-cases (ltb n (length (x ∷ xs)))) [
    | inl over ↦ rw over (
        trim_to-eq-newest n xs
        ∙ sym (drop_more (length xs - n) (suc (length xs) - n) x xs (ground arith)))
    | inr fits ↦ rw fits (sym (drop_none (suc (length xs) - n) (x ∷ xs) (ground arith)))
  ]

  pub trim_to-append :
      (n : ℕ) (xs ys : List A) → trim_to n (trim_to n xs ++ ys) ≡ trim_to n (xs ++ ys)
  unfolding trim_to
  trim_to-append n [] ys = refl
  trim_to-append n (x ∷ xs) ys = elim (Bool-cases (ltb n (length (x ∷ xs)))) [
    | inl over ↦
        let still : ltb n (length (x ∷ (xs ++ ys))) ≡ true = ground (arith, length-append xs ys) in
        rw over (rw still (trim_to-append n xs ys))
    | inr fits ↦ rw fits refl
  ]

  pub length-trim_to : (n : ℕ) (xs : List A) → length (trim_to n xs) ≤ n
  unfolding trim_to
  length-trim_to n [] = omega arith
  length-trim_to n (x ∷ xs) = ground (arith, length-trim_to n xs)

pub push_write_fields :
    (w : LogWrite) (s : ActivityLog)
    → ((push_write w s).event_log ≡ s.event_log)
      × ((push_write w s).swap_history ≡ s.swap_history)
      × ((push_write w s).pool_map ≡ s.pool_map)
      × ((push_write w s).enabled ≡ s.enabled)
unfolding push_write
push_write_fields w s = (ground arith, ground arith, ground arith, ground arith)

-- The logs are what is left of the entries `es` and the swaps `hs`.
pub record Holds (es : List EventLogEntry) (hs : List SwapHistoryEntry) (s : ActivityLog)
    : Type 0 where
  pub events_kept : s.event_log ≡ trim_to max_events es
  pub swaps_kept : s.swap_history ≡ trim_to max_swap_history hs

push_event-Holds :
    (es : List EventLogEntry) (hs : List SwapHistoryEntry) (s : ActivityLog) (e : EventLogEntry)
    (dex : Option String)
    → Holds es hs s
    → Holds (es ++ (tag dex e ∷ [])) hs (push_event e dex s)
unfolding push_event
push_event-Holds es hs s e dex h =
    let (kept, swaps, _, _) = push_write_fields _ _ in
    record {
      events_kept =
          kept
          ∙ ap (λ l. trim_to max_events (l ++ (tag dex e ∷ []))) h.events_kept
          ∙ trim_to-append max_events es (tag dex e ∷ []);
      swaps_kept = swaps ∙ h.swaps_kept;
    }

push_swap-Holds :
    (es : List EventLogEntry) (hs : List SwapHistoryEntry) (s : ActivityLog) (e : SwapHistoryEntry)
    → Holds es hs s
    → Holds es (hs ++ (e ∷ [])) (push_swap e s)
unfolding push_swap
push_swap-Holds es hs s e h =
    let (kept, swaps, _, _) = push_write_fields _ _ in
    record {
      events_kept = kept ∙ h.events_kept;
      swaps_kept =
          swaps
          ∙ ap (λ l. trim_to max_swap_history (l ++ (e ∷ []))) h.swaps_kept
          ∙ trim_to-append max_swap_history hs (e ∷ []);
    }

push_all-Holds :
    (ps : List Push) (es : List EventLogEntry) (hs : List SwapHistoryEntry) (s : ActivityLog)
    → Holds es hs s
    → Holds (es ++ events_of ps) (hs ++ swaps_of ps) (push_all ps s)
unfolding push_all
push_all-Holds [] es hs s h = rw (append-nil, append-nil) h
push_all-Holds (event_push e dex ∷ ps) es hs s h =
    rw (← append_assoc es (tag dex e ∷ []) (events_of ps))
      (push_all-Holds ps _ _ _ (push_event-Holds es hs s e dex h))
push_all-Holds (swap_push e ∷ ps) es hs s h =
    rw (← append_assoc hs (e ∷ []) (swaps_of ps))
      (push_all-Holds ps _ _ _ (push_swap-Holds es hs s e h))

init-Holds : (t : Tables) → Holds t.events t.swap_rows (init_activity_log t new)
unfolding init_activity_log
init-Holds t = record { events_kept = refl; swaps_kept = refl }

-- After the feeds have been loaded from the tables, whatever is pushed: the event log holds the
-- last 1000 of the loaded events followed by those pushed, each with its venue, in order, and the
-- swap history the last 40 of the loaded swaps followed by those pushed; no push takes either
-- past its bound.
pub feeds_lem :
    (t : Tables) (ps : List Push)
    → let s = push_all ps (init_activity_log t new) in
      (s.event_log ≡ newest max_events (t.events ++ events_of ps))
      × (s.swap_history ≡ newest max_swap_history (t.swap_rows ++ swaps_of ps))
      × (length s.event_log ≤ max_events)
      × (length s.swap_history ≤ max_swap_history)
feeds_lem t ps =
    let s = push_all ps (init_activity_log t new) in
    let h = push_all-Holds ps t.events t.swap_rows _ (init-Holds t) in
    (
      h.events_kept ∙ trim_to-eq-newest max_events (t.events ++ events_of ps),
      h.swaps_kept ∙ trim_to-eq-newest max_swap_history (t.swap_rows ++ swaps_of ps),
      rw h.events_kept (length-trim_to max_events (t.events ++ events_of ps)),
      rw h.swaps_kept (length-trim_to max_swap_history (t.swap_rows ++ swaps_of ps)),
    )
