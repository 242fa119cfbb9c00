-- ===== src/Queue/History.antt =====
-- What a run of the queue has enqueued and started, priority by priority
-- (src/executor/queue.ts).
use clmm_copybot.Common.{
  ◌≡◌, refl, ap, Bool, true, false, Option, none, some, List, [], ◌∷◌, ◌++◌, Bool-cases, inl, inr,
  if◌then◌else◌, All,
}
use clmm_copybot.Queue.{Priority, high, normal, Item, Queue, new_item, drain, finish_item}
use clmm_copybot.Queue.Steps.{
  Step, enqueue_step, drain_step, finish_step, execute_now_step, poll_step, immediate_done_step,
  Reach, here, next,
}

abbrev pub has_priority : Priority → Priority → Bool
has_priority high high = true
has_priority normal normal = true
has_priority _ _ = false

module _ {F : Type 0} where
  abbrev pub queue_of : Priority → Queue F → List (Item F)
  queue_of high q = q.high_queue
  queue_of normal q = q.normal_queue

  -- The items of one priority, in order.
  abbrev pub by : Priority → List (Item F) → List (Item F)
  by p [] = []
  by p (i ∷ is) = let rest = by p is in if has_priority p i.priority then i ∷ rest else rest

  abbrev pub to_list : Option (Item F) → List (Item F)
  to_list none = []
  to_list (some i) = i ∷ []

  -- The items that a step adds to the queue, and those that it starts.
  abbrev pub added : {q r : Queue F} → Step q r → List (Item F)
  added (enqueue_step q label priority fn now) = new_item label priority fn now q ∷ []
  added (drain_step q h) = []
  added (finish_step q i now h) = []
  added (execute_now_step q) = []
  added (poll_step q h) = []
  added (immediate_done_step q h) = []

  abbrev pub began : {q r : Queue F} → Step q r → List (Item F)
  began (enqueue_step q label priority fn now) = []
  began (drain_step q h) = if q.draining then [] else to_list (drain q).running
  began (finish_step q i now h) = to_list (finish_item now q).running
  began (execute_now_step q) = []
  began (poll_step q h) = []
  began (immediate_done_step q h) = []

  -- All items enqueued, and all items started, over a run, in order.
  abbrev pub enqueued : {q r : Queue F} → Reach q r → List (Item F)
  enqueued here = []
  enqueued (next r s) = enqueued r ++ added s

  abbrev pub started : {q r : Queue F} → Reach q r → List (Item F)
  started here = []
  started (next r s) = started r ++ began s

  pub by-append : (p : Priority) (xs ys : List (Item F)) → by p (xs ++ ys) ≡ by p xs ++ by p ys
  by-append p [] ys = refl
  by-append p (i ∷ xs) ys = elim (Bool-cases (has_priority p i.priority)) [
    | inl same ↦ rw same (ap (λ l. i ∷ l) (by-append p xs ys))
    | inr other ↦ rw other (by-append p xs ys)
  ]

  -- Each queue holds items of its own priority.
  pub record IsTagged (q : Queue F) : Type 0 where
    pub highs : All (λ i. i.priority ≡ high) q.high_queue
    pub normals : All (λ i. i.priority ≡ normal) q.normal_queue
