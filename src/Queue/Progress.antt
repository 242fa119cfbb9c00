-- ===== src/Queue/Progress.antt =====
-- Which operation runs next: HIGH before NORMAL, and an immediate one before both
-- (src/executor/queue.ts).
use clmm_copybot.Common.{
  ℕ, suc, ◌+◌, ◌-◌, ◌<◌, ◌≡◌, ◌⊎◌, inl, inr, refl, true, false, Option, none, some, List, [], ◌∷◌,
  arith, length, ap, ◌∙◌, Bool-cases, is_some, ltb, if◌then◌else◌, ◌||◌,
}
use clmm_copybot.Queue.{
  high, normal, Item, Queue, new, enqueue, leave_drain, start_next, drain_loop, drain, finish_item,
  poll, execute_now, immediate_done,
}
use clmm_copybot.Queue.Steps.{
  Step, enqueue_step, drain_step, finish_step, execute_now_step, poll_step, immediate_done_step,
  Reach,
}
use clmm_copybot.Queue.Exclusion.{Inv, Reach-Inv}

module _ {F : Type 0} where
  -- The item that the loop takes: the oldest of the HIGH queue, or of the NORMAL one.
  abbrev pub next_item : List (Item F) → List (Item F) → Option (Item F)
  next_item [] [] = none
  next_item [] (i ∷ rest) = some i
  next_item (i ∷ rest) waiting = some i

  start_next-running :
      (hs ns : List (Item F)) (q : Queue F)
      → q.running ≡ none
      → (start_next hs ns q).running ≡ next_item hs ns
  unfolding leave_drain
  start_next-running [] [] q r = ground arith
  start_next-running [] (n ∷ ns) q r = refl
  start_next-running (h ∷ hs) ns q r = refl

  drain_loop-running :
      (q : Queue F)
      → q.running ≡ none
      → (drain_loop q).running ≡ (
          if q.immediate_running || ltb 0 q.immediate_waiting
          then none
          else next_item q.high_queue q.normal_queue)
  unfolding drain_loop
  drain_loop-running q r = elim (Bool-cases (q.immediate_running || ltb 0 q.immediate_waiting)) [
    | inl held ↦ rw held (unfold leave_drain in ground (arith, held))
    | inr clear ↦ rw clear (start_next-running q.high_queue q.normal_queue q r)
  ]

  drain-running :
      (q : Queue F)
      → q.running ≡ none
      → q.draining ≡ false
      → (drain q).running ≡ (
          if q.immediate_running || ltb 0 q.immediate_waiting
          then none
          else next_item q.high_queue q.normal_queue)
  unfolding drain
  drain-running q r d =
      rw d (drain_loop-running (record q { scheduled = q.scheduled - 1; draining = true }) r)

  finish_item-running :
      (now : ℕ) (q : Queue F)
      → (finish_item now q).running ≡ (
          if q.immediate_running || ltb 0 q.immediate_waiting
          then none
          else next_item q.high_queue q.normal_queue)
  unfolding finish_item
  finish_item-running now q =
      drain_loop-running (record q { running = none; last_completed_at = now }) refl

  next_item-some :
      (hs ns : List (Item F))
      → 0 < length hs + length ns
      → (i : Item F) × (next_item hs ns ≡ some i)
  next_item-some [] [] h = absurd (omega arith)
  next_item-some [] (i ∷ rest) h = (i, refl)
  next_item-some (i ∷ rest) ns h = (i, refl)

  -- In a reachable state in which something is queued and nothing runs or waits to run at once, a
  -- call of `drain` is scheduled, and it starts an item: the oldest HIGH one, or the oldest NORMAL
  -- one if no HIGH one is queued.
  pub drain_starts :
      {q : Queue F}
      → Reach new q
      → q.running ≡ none
      → q.immediate_running ≡ false
      → q.immediate_waiting ≡ 0
      → 0 < length q.high_queue + length q.normal_queue
      → (0 < q.scheduled)
        × (i : Item F) × ((drain q).running ≡ some i)
        × (next_item q.high_queue q.normal_queue ≡ some i)
  drain_starts {q} r idle_now no_immediate no_waiting queued =
      let v = Reach-Inv r in
      let (i, e) = next_item-some q.high_queue q.normal_queue queued in
      (
        v.awake idle_now no_immediate no_waiting queued,
        i,
        drain-running q idle_now (v.suspended ∙ ap is_some idle_now)
            ∙ rw (no_immediate, no_waiting) e,
        e,
      )

  abbrev pub IsHeld : Queue F → Type 0
  IsHeld q = (0 < q.immediate_waiting) ⊎ (q.immediate_running ≡ true)

  held_test : (q : Queue F) → IsHeld q → (q.immediate_running || ltb 0 q.immediate_waiting) ≡ true
  held_test q h = ground arith

  drain-held :
      (q : Queue F) (i : Item F)
      → Inv q
      → IsHeld q
      → (drain q).running ≡ some i
      → q.running ≡ some i
  drain-held q i v held e = elim (Bool-cases q.draining) [
    | inl busy ↦ unfold drain in ground (arith, busy)
    | inr clear ↦
        let idle_now : q.running ≡ none = ground (arith, v.suspended) in
        ground (arith, drain-running q idle_now clear, held_test q held)
  ]

  finish_item-held : (now : ℕ) (q : Queue F) → IsHeld q → (finish_item now q).running ≡ none
  finish_item-held now q held = ground (arith, finish_item-running now q, held_test q held)

  -- While a caller of `executeNow` waits, or its operation runs, no step starts an item of the
  -- queue: what runs after a step ran before it.
  pub reservation_holds :
      {q r : Queue F} (i : Item F)
      → Inv q
      → IsHeld q
      → Step q r
      → r.running ≡ some i
      → q.running ≡ some i
  unfolding enqueue execute_now poll immediate_done
  reservation_holds i v held (enqueue_step q label high fn now) e = ground arith
  reservation_holds i v held (enqueue_step q label normal fn now) e = ground arith
  reservation_holds i v held (drain_step q h) e = drain-held q i v held e
  reservation_holds i v held (finish_step q j now h) e = ground (arith, finish_item-held now q held)
  reservation_holds i v held (execute_now_step q) e = ground arith
  reservation_holds i v held (poll_step q h) e = ground arith
  reservation_holds i v held (immediate_done_step q h) e = ground arith

  -- What the loop leaves alone.
  abbrev pub SameElsewhere : Queue F → Queue F → Type 0
  SameElsewhere q r =
      (r.immediate_running ≡ q.immediate_running)
      × (r.immediate_waiting ≡ q.immediate_waiting)
      × (r.scheduled ≡ q.scheduled)

  start_next-SameElsewhere :
      (hs ns : List (Item F)) (q : Queue F)
      → hs ≡ q.high_queue
      → ns ≡ q.normal_queue
      → SameElsewhere q (start_next hs ns q)
  unfolding leave_drain
  start_next-SameElsewhere [] [] q eh en = (ground arith, ground arith, ground arith)
  start_next-SameElsewhere [] (n ∷ ns) q eh en = (refl, refl, refl)
  start_next-SameElsewhere (h ∷ hs) ns q eh en = (refl, refl, refl)

  leave_drain-SameElsewhere :
      (q : Queue F)
      → (q.immediate_running || ltb 0 q.immediate_waiting) ≡ true
      → SameElsewhere q (leave_drain q)
  unfolding leave_drain
  leave_drain-SameElsewhere q held = (ground arith, ground arith, ground arith)

  drain_loop-SameElsewhere : (q : Queue F) → SameElsewhere q (drain_loop q)
  unfolding drain_loop
  drain_loop-SameElsewhere q =
      elim (Bool-cases (q.immediate_running || ltb 0 q.immediate_waiting)) [
        | inl held ↦ rw held (leave_drain-SameElsewhere q held)
        | inr clear ↦ rw clear (start_next-SameElsewhere q.high_queue q.normal_queue q refl refl)
      ]

  -- The look at the queue that follows the drain loop never schedules another drain: each callback
  -- of `drain` uses one up and adds none, and so does the end of an item.
  pub drain_schedules_nothing :
      (now : ℕ) (q : Queue F)
      → ((drain q).scheduled ≡ q.scheduled - 1) × ((finish_item now q).scheduled ≡ q.scheduled)
  unfolding drain finish_item
  drain_schedules_nothing now q = (
    ground (
      arith,
      drain_loop-SameElsewhere (record q { scheduled = q.scheduled - 1; draining = true }),
    ),
    (drain_loop-SameElsewhere (record q { running = none; last_completed_at = now })).2,
  )

  finish_item-SameElsewhere : (now : ℕ) (q : Queue F) → SameElsewhere q (finish_item now q)
  unfolding finish_item
  finish_item-SameElsewhere now q =
      drain_loop-SameElsewhere (record q { running = none; last_completed_at = now })

  -- A caller of `executeNow` waits for the running item alone: whatever is queued, once that item
  -- has settled, the caller's next test takes the queue.
  pub poll-finish_item :
      (now : ℕ) (q : Queue F) (i : Item F)
      → Inv q
      → q.running ≡ some i
      → 0 < q.immediate_waiting
      → let r = poll (finish_item now q) in
        (r.immediate_running ≡ true)
        × (r.running ≡ none)
        × (suc r.immediate_waiting ≡ q.immediate_waiting)
  unfolding poll
  poll-finish_item now q i v e h =
      let clear : q.immediate_running ≡ false = ground (arith, v.exclusive) in
      let idle_now = finish_item-held now q (inl h) in
      let (same, waiting, _) = finish_item-SameElsewhere now q in
      (ground arith, ground arith, ground arith)
