-- ===== src/Queue/Exclusion.antt =====
-- No two operations run at once, and a queue with work to do is never left asleep
-- (src/executor/queue.ts).
use clmm_copybot.Common.{
  Bool-cases, inl, inr, ℕ, ◌+◌, ◌-◌, ◌<◌, ◌≡◌, refl, true, false, ◌&&◌, none, some, List, [], ◌∷◌,
  arith, length, is_some, ltb, String, ◌||◌,
}
use clmm_copybot.Queue.{
  Priority, high, normal, Item, Queue, new, enqueue, leave_drain, start_next, drain_loop, drain,
  finish_item, poll, execute_now, immediate_done,
}
use clmm_copybot.Queue.Steps.{
  Step, enqueue_step, drain_step, finish_step, execute_now_step, poll_step, immediate_done_step,
  Reach, here, next,
}

module _ {F : Type 0} where
  -- What holds between two turns of the event loop.
  pub record Inv (q : Queue F) : Type 0 where
    -- A queued operation and an immediate one do not run together.
    pub exclusive : (is_some q.running && q.immediate_running) ≡ false
    -- The drain loop is suspended exactly while a queued operation runs.
    pub suspended : q.draining ≡ is_some q.running
    -- Work that nothing holds up has a drain scheduled.
    pub awake :
        q.running ≡ none
        → q.immediate_running ≡ false
        → q.immediate_waiting ≡ 0
        → 0 < length q.high_queue + length q.normal_queue
        → 0 < q.scheduled

  new-Inv : Inv new
  new-Inv = ground arith

  enqueue-Inv :
      (label : String) (p : Priority) (fn : F) (now : ℕ) (q : Queue F)
      → Inv q
      → Inv (enqueue label p fn now q)
  unfolding enqueue
  enqueue-Inv label high fn now q v = ground arith
  enqueue-Inv label normal fn now q v = ground arith

  poll-Inv : (q : Queue F) → Inv q → Inv (poll q)
  unfolding poll
  poll-Inv q v = ground arith

  execute_now-Inv : (q : Queue F) → Inv q → Inv (execute_now q)
  unfolding execute_now
  execute_now-Inv q v = ground arith

  immediate_done-Inv : (q : Queue F) → Inv q → q.immediate_running ≡ true → Inv (immediate_done q)
  unfolding immediate_done
  immediate_done-Inv q v h = ground arith

  start_next-Inv :
      (hs ns : List (Item F)) (q : Queue F)
      → hs ≡ q.high_queue
      → ns ≡ q.normal_queue
      → q.draining ≡ true
      → q.immediate_running ≡ false
      → q.running ≡ none
      → Inv (start_next hs ns q)
  unfolding leave_drain
  start_next-Inv [] [] q eh en d i r = ground arith
  start_next-Inv [] (n ∷ ns) q eh en d i r = ground arith
  start_next-Inv (h ∷ hs) ns q eh en d i r = ground arith

  leave_drain-Inv :
      (q : Queue F)
      → q.running ≡ none
      → (q.immediate_running || ltb 0 q.immediate_waiting) ≡ true
      → Inv (leave_drain q)
  unfolding leave_drain
  leave_drain-Inv q r h = ground arith

  -- The loop is entered with no operation of the queue running.
  drain_loop-Inv : (q : Queue F) → q.draining ≡ true → q.running ≡ none → Inv (drain_loop q)
  unfolding drain_loop
  drain_loop-Inv q d r = elim (Bool-cases (q.immediate_running || ltb 0 q.immediate_waiting)) [
    | inl held ↦ rw held (leave_drain-Inv q r held)
    | inr clear ↦
        rw clear (start_next-Inv q.high_queue q.normal_queue q refl refl d (ground arith) r)
  ]

  drain-Inv : (q : Queue F) → Inv q → Inv (drain q)
  unfolding drain
  drain-Inv q v = elim (Bool-cases q.draining) [
    | inl busy ↦ rw busy (ground (arith, v.suspended))
    | inr clear ↦ rw clear (
        drain_loop-Inv (record q { scheduled = q.scheduled - 1; draining = true }) refl
          (ground (arith, v.suspended)))
  ]

  finish_item-Inv :
      (now : ℕ) (q : Queue F) (i : Item F) → Inv q → q.running ≡ some i → Inv (finish_item now q)
  unfolding finish_item
  finish_item-Inv now q i v r =
      drain_loop-Inv (record q { running = none; last_completed_at = now })
        (ground (arith, v.suspended)) refl

  pub Step-Inv : {q r : Queue F} → Step q r → Inv q → Inv r
  Step-Inv (enqueue_step q label p fn now) v = enqueue-Inv label p fn now q v
  Step-Inv (drain_step q h) v = drain-Inv q v
  Step-Inv (finish_step q i now h) v = finish_item-Inv now q i v h
  Step-Inv (execute_now_step q) v = execute_now-Inv q v
  Step-Inv (poll_step q h) v = poll-Inv q v
  Step-Inv (immediate_done_step q h) v = immediate_done-Inv q v h

  pub Reach-Inv : {q : Queue F} → Reach new q → Inv q
  Reach-Inv here = new-Inv
  Reach-Inv (next r s) = Step-Inv s (Reach-Inv r)

  -- In every state that the event loop can reach, a queued operation and an immediate one do not
  -- run at the same time.
  pub Reach-exclusive :
      {q : Queue F} (i : Item F) → Reach new q → q.running ≡ some i → q.immediate_running ≡ false
  Reach-exclusive i r e = ground (arith, (Reach-Inv r).exclusive)
