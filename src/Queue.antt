-- ===== src/Queue.antt =====
-- The operation queue that serialises all writes to the chain: src/executor/queue.ts.
-- An operation runs between two turns of the event loop: each function below is the code from one
-- suspension (`await`, a timer, `setImmediate`) to the next, and `Queue.Steps` says in which states
-- it can run. `F` is the type of the closures that are queued.
pub mod Steps
pub mod Exclusion
pub mod Progress
pub mod History
pub mod Keeps
pub mod Order
pub mod Activity
mod Tests
use clmm_copybot.Common.{
  ℕ, suc, ◌+◌, ◌-◌, String, Bool, true, false, ◌&&◌, ◌||◌, not, Option, none, some, List, [], ◌∷◌,
  ◌++◌, if◌then◌else◌, is_some, length, ltb,
}

pub data Priority : Type 0 where
  high normal : Priority

pub record Item (F : Type 0) : Type 0 where
  pub id : ℕ  -- the number n of `q-n`
  pub label : String
  pub priority : Priority
  pub fn : F
  pub enqueued_at : ℕ

pub record Queue (F : Type 0) : Type 0 where
  pub high_queue : List (Item F)
  pub normal_queue : List (Item F)
  pub running : Option (Item F)
  pub immediate_running : Bool
  pub immediate_waiting : ℕ
  pub draining : Bool
  pub id_counter : ℕ
  pub high_priority_seq : ℕ
  pub last_completed_at : ℕ
  -- Callbacks that `setImmediate` holds for the next turns.
  pub scheduled : ℕ

pub record Status (F : Type 0) : Type 0 where
  pub running : Option (Item F)
  pub pending : List (Item F)
  pub immediate_running : Bool

module _ {F : Type 0} where
  abbrev pub new : Queue F
  new = record {
    high_queue = [];
    normal_queue = [];
    running = none;
    immediate_running = false;
    immediate_waiting = 0;
    draining = false;
    id_counter = 0;
    high_priority_seq = 0;
    last_completed_at = 0;
    scheduled = 0;
  }

  unfoldable pub schedule_drain : Queue F → Queue F
  schedule_drain q = if q.draining then q else record q { scheduled = suc q.scheduled }

  abbrev pub push_item : Priority → Item F → Queue F → Queue F
  push_item high i q = record q {
    high_priority_seq = suc q.high_priority_seq;
    high_queue = q.high_queue ++ (i ∷ []);
  }
  push_item normal i q = record q { normal_queue = q.normal_queue ++ (i ∷ []) }

  unfoldable pub new_item : String → Priority → F → ℕ → Queue F → Item F
  new_item label priority fn now q = record {
    id = suc q.id_counter;
    label = label;
    priority = priority;
    fn = fn;
    enqueued_at = now;
  }

  -- `now` is `Date.now()`.
  unfoldable pub enqueue : String → Priority → F → ℕ → Queue F → Queue F
  unfolding schedule_drain new_item
  enqueue label priority fn now q = schedule_drain (
      push_item priority (new_item label priority fn now q)
        (record q { id_counter = suc q.id_counter }))

  -- What follows the loop of `drain`: the flag is cleared, and the queue is looked at once more.
  unfoldable pub leave_drain : Queue F → Queue F
  unfolding schedule_drain
  leave_drain q =
      let done = record q { draining = false } in
      if (ltb 0 (length q.high_queue) || ltb 0 (length q.normal_queue))
        && (not q.immediate_running && not (ltb 0 q.immediate_waiting))
      then schedule_drain done
      else done

  -- The body of the loop up to `await item.fn()`, for the two queues: HIGH first, then NORMAL.
  abbrev pub start_next : List (Item F) → List (Item F) → Queue F → Queue F
  start_next [] [] q = leave_drain q
  start_next [] (i ∷ rest) q = record q { normal_queue = rest; running = some i }
  start_next (i ∷ rest) waiting q = record q { high_queue = rest; running = some i }

  -- The head of the loop.
  unfoldable pub drain_loop : Queue F → Queue F
  unfolding leave_drain
  drain_loop q =
      if q.immediate_running || ltb 0 q.immediate_waiting
      then leave_drain q
      else start_next q.high_queue q.normal_queue q

  -- A scheduled call of `drain` begins.
  unfoldable pub drain : Queue F → Queue F
  unfolding drain_loop
  drain q =
      let taken = record q { scheduled = q.scheduled - 1 } in
      if q.draining then taken else drain_loop (record taken { draining = true })

  -- `item.fn()` has settled, well or not (an error is logged and swallowed): the loop goes on.
  unfoldable pub finish_item : ℕ → Queue F → Queue F
  unfolding drain_loop
  finish_item now q = drain_loop (record q { running = none; last_completed_at = now })

  abbrev pub is_free : Queue F → Bool
  is_free q = not (is_some q.running || q.immediate_running)

  -- One test of the loop of `executeNow`, and what follows it where nothing runs: the operation
  -- takes the queue and gives its reservation back.
  unfoldable pub poll : Queue F → Queue F
  poll q =
      if is_free q
      then record q { immediate_running = true; immediate_waiting = q.immediate_waiting - 1 }
      else q

  -- A call of `executeNow`: it reserves the queue, and tests at once.
  unfoldable pub execute_now : Queue F → Queue F
  unfolding poll
  execute_now q = poll (record q { immediate_waiting = suc q.immediate_waiting })

  -- The operation of `executeNow` has settled.
  unfoldable pub immediate_done : Queue F → Queue F
  unfolding schedule_drain
  immediate_done q = schedule_drain (record q { immediate_running = false })

  unfoldable pub get_status : Queue F → Status F
  get_status q = record {
    running = q.running;
    pending = q.high_queue ++ q.normal_queue;
    immediate_running = q.immediate_running;
  }

  unfoldable pub pending_count : Queue F → ℕ
  pending_count q = length q.high_queue + length q.normal_queue

  abbrev pub is_high : Option (Item F) → Bool
  is_high none = false
  is_high (some i) = elim i.priority [ high ↦ true | normal ↦ false ]

  unfoldable pub is_high_priority_running_or_pending : Queue F → Bool
  is_high_priority_running_or_pending q = is_high q.running || ltb 0 (length q.high_queue)

  unfoldable pub has_high_priority_activity_after : ℕ → Queue F → Bool
  unfolding is_high_priority_running_or_pending
  has_high_priority_activity_after seq q =
      ltb seq q.high_priority_seq || is_high_priority_running_or_pending q

  unfoldable pub is_executing : Queue F → Bool
  is_executing q = is_some q.running || q.immediate_running
