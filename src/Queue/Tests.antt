-- ===== src/Queue/Tests.antt =====
-- Runs of the operation queue, and its theorems at concrete runs.
use clmm_copybot.Common.{
  ℕ, ◌+◌, ◌<◌, ◌≡◌, ◌↔◌, refl, inl, true, false, none, some, [], ◌∷◌, ◌++◌, arith, length,
}
use clmm_copybot.Queue.{
  high, normal, Item, Queue, new, enqueue, drain, finish_item, poll, execute_now, immediate_done,
  get_status, pending_count, has_high_priority_activity_after, is_high,
}
use clmm_copybot.Queue.Steps.{
  enqueue_step, drain_step, execute_now_step, poll_step, Reach, here, next,
}
use clmm_copybot.Queue.Exclusion.{Reach-Inv, Reach-exclusive}
use clmm_copybot.Queue.Progress.{next_item, drain_starts, reservation_holds}
use clmm_copybot.Queue.History.{enqueued, started, by}
use clmm_copybot.Queue.Order.{enqueued-eq-started_queued}
use clmm_copybot.Queue.Activity.{has_high_priority_activity_after_lem}

queue : Unit {0}
unfolding enqueue drain finish_item poll execute_now immediate_done get_status pending_count
    has_high_priority_activity_after
queue = tt

-- A NORMAL item, then a HIGH one.
abbrev q1 : Queue ℕ
q1 = enqueue "orphan" normal 1 10 new

abbrev q2 : Queue ℕ
q2 = enqueue "copy" high 2 20 q1

abbrev q3 : Queue ℕ
q3 = drain q2

-- The HIGH one runs; a caller of `executeNow` waits for it.
abbrev q4 : Queue ℕ
q4 = execute_now q3

abbrev copy : Item ℕ
copy = record { id = 2; label = "copy"; priority = high; fn = 2; enqueued_at = 20 }

abbrev orphan : Item ℕ
orphan = record { id = 1; label = "orphan"; priority = normal; fn = 1; enqueued_at = 10 }

run_tests :
    (q3.running ≡ some copy)
    × (q4.immediate_waiting ≡ 1)
    × ((get_status q4).pending ≡ orphan ∷ [])
    × ((poll (finish_item 30 q4)).immediate_running ≡ true)
    × ((drain (immediate_done (poll (finish_item 30 q4)))).running ≡ some orphan)
unfolding queue
run_tests = (refl, refl, refl, refl, refl)

r2 : Reach new q2
r2 = next (next here (enqueue_step new "orphan" normal 1 10)) (enqueue_step q1 "copy" high 2 20)

scheduled_q2 : 0 < q2.scheduled
unfolding queue
scheduled_q2 = omega arith

r4 : Reach new q4
r4 = next (next r2 (drain_step q2 scheduled_q2)) (execute_now_step q3)

running_q4 : q4.running ≡ some copy
unfolding queue
running_q4 = refl

waiting_q4 : 0 < q4.immediate_waiting
unfolding queue
waiting_q4 = omega arith

facts_q2 :
    (q2.running ≡ none)
    × (q2.immediate_running ≡ false)
    × (q2.immediate_waiting ≡ 0)
    × (0 < length q2.high_queue + length q2.normal_queue)
unfolding queue
facts_q2 = (refl, refl, refl, omega arith)

Reach-exclusive_example : q4.immediate_running ≡ false
Reach-exclusive_example = Reach-exclusive copy r4 running_q4

drain_starts_example :
    (0 < q2.scheduled)
    × (i : Item ℕ) × ((drain q2).running ≡ some i)
    × (next_item q2.high_queue q2.normal_queue ≡ some i)
drain_starts_example = drain_starts r2 facts_q2.0 facts_q2.1 facts_q2.2 facts_q2.3

running_poll : (poll q4).running ≡ some copy
unfolding queue
running_poll = refl

reservation_holds_example : q4.running ≡ some copy
reservation_holds_example =
    reservation_holds copy (Reach-Inv r4) (inl waiting_q4) (poll_step q4 waiting_q4) running_poll

enqueued-eq-started_queued_example : by high (enqueued r4) ≡ by high (started r4) ++ q4.high_queue
enqueued-eq-started_queued_example = enqueued-eq-started_queued high r4

has_high_priority_activity_after_lem_example :
    (has_high_priority_activity_after 0 q4 ≡ false)
    ↔ ((by high (enqueued r4) ≡ []) × (is_high q4.running ≡ false) × (q4.high_queue ≡ []))
has_high_priority_activity_after_lem_example = has_high_priority_activity_after_lem r4
