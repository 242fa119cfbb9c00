-- ===== src/Queue/Activity.antt =====
-- What a caller learns from the sequence number of HIGH items (src/executor/queue.ts).
use clmm_copybot.Common.{
  ◌+◌, ◌-◌, ◌≡◌, ◌↔◌, refl, true, false, none, List, [], ◌∷◌, arith, ltb, ◌||◌, length,
  length-append, ap, Bool-cases, inl, inr,
}
use clmm_copybot.Queue.{
  high, normal, Item, Queue, enqueue, leave_drain, start_next, drain_loop, drain, finish_item, poll,
  execute_now, immediate_done, is_high, has_high_priority_activity_after,
}
use clmm_copybot.Queue.Steps.{
  Step, enqueue_step, drain_step, finish_step, execute_now_step, poll_step, immediate_done_step,
  Reach, here, next,
}
use clmm_copybot.Queue.History.{added, enqueued, by, by-append}

module _ {F : Type 0} where
  nil_of_length : (l : List (Item F)) → length l ≡ 0 → l ≡ []
  nil_of_length [] h = refl
  nil_of_length (i ∷ l) h = absurd (omega arith)

  start_next-seq :
      (hs ns : List (Item F)) (q : Queue F)
      → (start_next hs ns q).high_priority_seq ≡ q.high_priority_seq
  unfolding leave_drain
  start_next-seq [] [] q = ground arith
  start_next-seq [] (n ∷ ns) q = refl
  start_next-seq (h ∷ hs) ns q = refl

  drain_loop-seq : (q : Queue F) → (drain_loop q).high_priority_seq ≡ q.high_priority_seq
  unfolding drain_loop
  drain_loop-seq q = elim (Bool-cases (q.immediate_running || ltb 0 q.immediate_waiting)) [
    | inl held ↦ rw held (unfold leave_drain in ground arith)
    | inr clear ↦ rw clear (start_next-seq q.high_queue q.normal_queue q)
  ]

  Step-seq :
      {q r : Queue F} (s : Step q r)
      → r.high_priority_seq ≡ q.high_priority_seq + length (by high (added s))
  unfolding enqueue drain finish_item execute_now poll immediate_done
  Step-seq (enqueue_step q label high fn now) = ground arith
  Step-seq (enqueue_step q label normal fn now) = ground arith
  Step-seq (drain_step q h) =
      ground (arith, drain_loop-seq (record q { scheduled = q.scheduled - 1; draining = true }))
  Step-seq (finish_step q i now e) =
      ground (arith, drain_loop-seq (record q { running = none; last_completed_at = now }))
  Step-seq (execute_now_step q) = ground arith
  Step-seq (poll_step q h) = ground arith
  Step-seq (immediate_done_step q h) = ground arith

  -- The sequence number counts the HIGH items that were enqueued since any earlier state.
  Reach-seq :
      {q r : Queue F} (run : Reach q r)
      → r.high_priority_seq ≡ q.high_priority_seq + length (by high (enqueued run))
  Reach-seq here = omega arith
  Reach-seq (next {r = p} r s) = ground (
    arith,
    Reach-seq r,
    Step-seq s,
    ap (λ l. length l) (by-append high (enqueued r) (added s)),
    length-append (by high (enqueued r)) (by high (added s)),
  )

  -- A caller that took the sequence number in state `q` is told of no activity in a later state
  -- exactly if no HIGH item was enqueued in between, none runs and none is queued.
  pub has_high_priority_activity_after_lem :
      {q r : Queue F} (run : Reach q r)
      → (has_high_priority_activity_after q.high_priority_seq r ≡ false)
        ↔ ((by high (enqueued run) ≡ []) × (is_high r.running ≡ false) × (r.high_queue ≡ []))
  unfolding has_high_priority_activity_after
  has_high_priority_activity_after_lem {q} {r} run = (
    λ quiet. (
      nil_of_length _ (ground (arith, Reach-seq run)),
      ground arith,
      nil_of_length r.high_queue (ground arith),
    ),
    λ (none_added, idle, empty). ground (arith, Reach-seq run, ap (λ l. length l) none_added),
  )
