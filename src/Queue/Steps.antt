-- ===== src/Queue/Steps.antt =====
-- The turns of the event loop that touch the queue (src/executor/queue.ts).
use clmm_copybot.Common.{ℕ, ◌<◌, ◌≡◌, String, true, some}
use clmm_copybot.Queue.{
  Priority, Item, Queue, enqueue, drain, finish_item, poll, execute_now, immediate_done,
}

module _ {F : Type 0} where
  pub data Step : Queue F → Queue F → Type 0 where
    enqueue_step :
        (q : Queue F) (label : String) (priority : Priority) (fn : F) (now : ℕ)
        → Step q (enqueue label priority fn now q)
    drain_step : (q : Queue F) → 0 < q.scheduled → Step q (drain q)
    finish_step :
        (q : Queue F) (i : Item F) (now : ℕ) → q.running ≡ some i → Step q (finish_item now q)
    execute_now_step : (q : Queue F) → Step q (execute_now q)
    -- The timer of a caller that waits has run out.
    poll_step : (q : Queue F) → 0 < q.immediate_waiting → Step q (poll q)
    immediate_done_step : (q : Queue F) → q.immediate_running ≡ true → Step q (immediate_done q)

  pub data Reach (q : Queue F) : Queue F → Type 0 where
    here : Reach q q
    next : {r s : Queue F} → Reach q r → Step r s → Reach q s
