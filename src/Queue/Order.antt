-- ===== src/Queue/Order.antt =====
-- Nothing that is enqueued is lost, doubled or overtaken within its priority
-- (src/executor/queue.ts).
use clmm_copybot.Common.{◌≡◌, refl, ap, sym, ◌∙◌, List, ◌++◌}
use mathlib.Core.List.{append_assoc}
use clmm_copybot.Queue.{Priority, high, normal, Item, Queue, new}
use clmm_copybot.Queue.Steps.{Reach, here, next}
use clmm_copybot.Queue.History.{queue_of, by, added, began, enqueued, started, by-append, IsTagged}
use clmm_copybot.Queue.Exclusion.{Reach-Inv}
use clmm_copybot.Queue.Keeps.{Step-keeps}

module _ {F : Type 0} where
  -- One more step of the same accounting, for one of the two queues.
  extend :
      (p : Priority) (es fs ds bs qs rs : List (Item F))
      → by p es ≡ by p fs ++ qs
      → qs ++ by p ds ≡ by p bs ++ rs
      → by p (es ++ ds) ≡ by p (fs ++ bs) ++ rs
  extend p es fs ds bs qs rs h k =
      by-append p es ds
      ∙ ap (λ l. l ++ by p ds) h
      ∙ append_assoc (by p fs) qs (by p ds)
      ∙ ap (λ l. by p fs ++ l) k
      ∙ sym (append_assoc (by p fs) (by p bs) rs)
      ∙ ap (λ l. l ++ rs) (sym (by-append p fs bs))

  abbrev Accounts : {q : Queue F} → Reach new q → Type 0
  Accounts {q} r =
      (by high (enqueued r) ≡ by high (started r) ++ q.high_queue)
      × (by normal (enqueued r) ≡ by normal (started r) ++ q.normal_queue)
      × IsTagged q

  Reach-Accounts : {q : Queue F} (r : Reach new q) → Accounts r
  Reach-Accounts here = (refl, refl, record { highs = tt; normals = tt })
  Reach-Accounts (next {r = p} {s = q} r s) =
      let (h, n, t) = Reach-Accounts r in
      let (h', n', t') = Step-keeps s (Reach-Inv r) t in
      (
        extend high (enqueued r) (started r) (added s) (began s) p.high_queue q.high_queue h h',
        extend normal (enqueued r) (started r) (added s) (began s) p.normal_queue q.normal_queue n
            n',
        t',
      )

  -- Over every run of the queue and for each priority, the items enqueued, in the order in which
  -- they were enqueued, are the items started, in the order in which they were started, followed
  -- by those still queued: none is lost, none starts twice, and none is overtaken by a later one
  -- of its priority.
  pub enqueued-eq-started_queued :
      {q : Queue F} (p : Priority) (r : Reach new q)
      → by p (enqueued r) ≡ by p (started r) ++ queue_of p q
  enqueued-eq-started_queued high r = (Reach-Accounts r).0
  enqueued-eq-started_queued normal r = (Reach-Accounts r).1
