-- ===== src/Queue/Keeps.antt =====
-- What each step moves from the two queues, and what it adds to them
-- (src/executor/queue.ts).
use clmm_copybot.Common.{
  ℕ, ◌-◌, ◌<◌, ◌≡◌, refl, ◌∙◌, true, none, some, List, [], ◌∷◌, ◌++◌, arith, Bool-cases, inl, inr,
  ltb, ◌||◌, All, All-append, String,
}
use mathlib.Core.List.{append-nil}
use clmm_copybot.Queue.{
  Priority, high, normal, Item, Queue, enqueue, leave_drain, start_next, drain_loop, drain,
  finish_item, poll, execute_now, immediate_done,
}
use clmm_copybot.Queue.Steps.{
  Step, enqueue_step, drain_step, finish_step, execute_now_step, poll_step, immediate_done_step,
}
use clmm_copybot.Queue.History.{by, to_list, added, began, IsTagged}
use clmm_copybot.Queue.Exclusion.{Inv}

module _ {F : Type 0} where
  -- What a turn of the drain loop does to the two queues.
  abbrev Moves : Queue F → Queue F → Type 0
  Moves q r =
      (q.high_queue ≡ by high (to_list r.running) ++ r.high_queue)
      × (q.normal_queue ≡ by normal (to_list r.running) ++ r.normal_queue)
      × All (λ i. i.priority ≡ high) r.high_queue
      × All (λ i. i.priority ≡ normal) r.normal_queue

  leave_drain_fields :
      (q : Queue F)
      → ((leave_drain q).high_queue ≡ q.high_queue)
        × ((leave_drain q).normal_queue ≡ q.normal_queue)
        × ((leave_drain q).running ≡ q.running)
  unfolding leave_drain
  leave_drain_fields q = (ground arith, ground arith, ground arith)

  leave_drain-Moves : (q : Queue F) → q.running ≡ none → IsTagged q → Moves q (leave_drain q)
  leave_drain-Moves q r t =
      let (h, n, k) = leave_drain_fields q in rw (h, n, k, r) (refl, refl, t.highs, t.normals)

  start_next-Moves :
      (hs ns : List (Item F)) (q : Queue F)
      → hs ≡ q.high_queue
      → ns ≡ q.normal_queue
      → q.running ≡ none
      → IsTagged q
      → All (λ i. i.priority ≡ high) hs
      → All (λ i. i.priority ≡ normal) ns
      → Moves q (start_next hs ns q)
  start_next-Moves [] [] q eh en r t th tn = leave_drain-Moves q r t
  start_next-Moves [] (n ∷ ns) q eh en r t th tn =
      (ground (arith, tn.0), ground (arith, tn.0), t.highs, tn.1)
  start_next-Moves (h ∷ hs) ns q eh en r t th tn =
      (ground (arith, th.0), ground (arith, th.0), th.1, t.normals)

  drain_loop-Moves : (q : Queue F) → q.running ≡ none → IsTagged q → Moves q (drain_loop q)
  unfolding drain_loop
  drain_loop-Moves q r t = elim (Bool-cases (q.immediate_running || ltb 0 q.immediate_waiting)) [
    | inl held ↦ rw held (leave_drain-Moves q r t)
    | inr clear ↦
        rw clear (start_next-Moves q.high_queue q.normal_queue q refl refl r t t.highs t.normals)
  ]

  -- One step: what was queued and what is added is what it starts and what is queued after it.
  abbrev pub StepKeeps : {q r : Queue F} → Step q r → Type 0
  StepKeeps {q} {r} s =
      (q.high_queue ++ by high (added s) ≡ by high (began s) ++ r.high_queue)
      × (q.normal_queue ++ by normal (added s) ≡ by normal (began s) ++ r.normal_queue)
      × IsTagged r

  of_Moves :
      (q r : Queue F)
      → Moves q r
      → (q.high_queue ++ [] ≡ by high (to_list r.running) ++ r.high_queue)
        × (q.normal_queue ++ [] ≡ by normal (to_list r.running) ++ r.normal_queue)
        × IsTagged r
  of_Moves q r (h, n, th, tn) =
      (rw append-nil h, rw append-nil n, record { highs = th; normals = tn })

  drain-StepKeeps :
      (q : Queue F) (h : 0 < q.scheduled) → Inv q → IsTagged q → StepKeeps (drain_step q h)
  unfolding drain
  drain-StepKeeps q h v t = elim (Bool-cases q.draining) [
    | inl busy ↦
        rw busy
          (rw append-nil refl, rw append-nil refl, record { highs = t.highs; normals = t.normals })
    | inr clear ↦
        let idle_now : q.running ≡ none = ground (arith, v.suspended) in
        let woken = record q { scheduled = q.scheduled - 1; draining = true } in
        rw clear (
          of_Moves q (drain_loop woken)
            (drain_loop-Moves woken idle_now (record { highs = t.highs; normals = t.normals })))
  ]

  finish_item-StepKeeps :
      (q : Queue F) (i : Item F) (now : ℕ) (e : q.running ≡ some i)
      → IsTagged q
      → StepKeeps (finish_step q i now e)
  unfolding finish_item
  finish_item-StepKeeps q i now e t =
      let cleared = record q { running = none; last_completed_at = now } in
      of_Moves q (drain_loop cleared)
        (drain_loop-Moves cleared refl (record { highs = t.highs; normals = t.normals }))

  enqueue-StepKeeps :
      (q : Queue F) (label : String) (p : Priority) (fn : F) (now : ℕ)
      → IsTagged q
      → StepKeeps (enqueue_step q label p fn now)
  unfolding enqueue
  enqueue-StepKeeps q label high fn now t = elim (Bool-cases q.draining) [
    | inl busy ↦ rw busy (
      refl,
      rw append-nil refl,
      record { highs = All-append _ _ _ t.highs (refl, tt); normals = t.normals },
    )
    | inr clear ↦ rw clear (
      refl,
      rw append-nil refl,
      record { highs = All-append _ _ _ t.highs (refl, tt); normals = t.normals },
    )
  ]
  enqueue-StepKeeps q label normal fn now t = elim (Bool-cases q.draining) [
    | inl busy ↦ rw busy (
      rw append-nil refl,
      refl,
      record { highs = t.highs; normals = All-append _ _ _ t.normals (refl, tt) },
    )
    | inr clear ↦ rw clear (
      rw append-nil refl,
      refl,
      record { highs = t.highs; normals = All-append _ _ _ t.normals (refl, tt) },
    )
  ]

  tagged :
      {q : Queue F} (r : Queue F)
      → q.high_queue ≡ r.high_queue
      → q.normal_queue ≡ r.normal_queue
      → IsTagged q
      → IsTagged r
  tagged r h n t = record { highs = rw (← h) t.highs; normals = rw (← n) t.normals }

  quiet :
      (q r : Queue F)
      → q.high_queue ≡ r.high_queue
      → q.normal_queue ≡ r.normal_queue
      → IsTagged q
      → (q.high_queue ++ [] ≡ r.high_queue) × (q.normal_queue ++ [] ≡ r.normal_queue) × IsTagged r
  quiet q r h n t = (append-nil _ ∙ h, append-nil _ ∙ n, tagged r h n t)

  pub Step-keeps : {q r : Queue F} (s : Step q r) → Inv q → IsTagged q → StepKeeps s
  unfolding execute_now poll immediate_done
  Step-keeps (enqueue_step q label p fn now) v t = enqueue-StepKeeps q label p fn now t
  Step-keeps (drain_step q h) v t = drain-StepKeeps q h v t
  Step-keeps (finish_step q i now e) v t = finish_item-StepKeeps q i now e t
  Step-keeps (execute_now_step q) v t = quiet q (execute_now q) (ground arith) (ground arith) t
  Step-keeps (poll_step q h) v t = quiet q (poll q) (ground arith) (ground arith) t
  Step-keeps (immediate_done_step q h) v t =
      quiet q (immediate_done q) (ground arith) (ground arith) t
