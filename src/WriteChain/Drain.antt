-- ===== src/WriteChain/Drain.antt =====
-- What a drained chain leaves in the table, and the agreement of a table with the memory of a store.
use mathlib.Core.Option
use clmm_copybot.Common.{
  ℕ, suc, ◌≤◌, ◌≡◌, refl, ap, Bool, true, String, Option, none, some, List, [], ◌∷◌, ◌++◌, ◌∙◌,
  arith, length,
}
use clmm_copybot.Common.Dict.{
  lookup, insert, delete, update, lookup-insert, lookup-delete, lookup-update,
}
use clmm_copybot.WriteChain.{
  Write, upsert, remove, modify, remove_all, Chain, execute, push, persisted, Report, settle, drain,
  replay,
}
use clmm_copybot.WriteChain.Attempts.{persisted_of_success}

module _ {R : Type 0} where
  settle-persisted :
      (r : Report) (w : Write R) (rows : List (String × R))
      → r.outcome ≡ persisted
      → settle (some r) w rows ≡ execute w rows
  settle-persisted r w rows p = ground arith

  -- Where each queued write is accepted at one of its attempts, draining the chain carries out
  -- every write once, in the order in which they were pushed.
  pub drain-eq-replay :
      (delays : List ℕ) (ok : ℕ → ℕ → Bool) (n : ℕ) (ws : List (Write R)) (rows : List (String × R))
      → ((j : ℕ) → (i : ℕ) × (i ≤ length delays) × (ok j i ≡ true))
      → drain delays ok n ws rows ≡ replay ws rows
  unfolding drain replay
  drain-eq-replay delays ok n [] rows h = refl
  drain-eq-replay delays ok n (w ∷ ws) rows h =
      let (i, lo, good) = h n in
      let (r, e, p) = persisted_of_success delays (ok n) i lo good in
      rw (e, settle-persisted r w rows p) (drain-eq-replay delays ok (suc n) ws (execute w rows) h)

  replay-append :
      (ws : List (Write R)) (w : Write R) (rows : List (String × R))
      → replay (ws ++ (w ∷ [])) rows ≡ execute w (replay ws rows)
  unfolding replay
  replay-append [] w rows = refl
  replay-append (v ∷ ws) w rows = replay-append ws w (execute v rows)

  pub replay-push :
      (c : Chain R) (w : Write R) (rows : List (String × R))
      → c.enabled ≡ true
      → replay (push w c).queue rows ≡ execute w (replay c.queue rows)
  unfolding push
  replay-push c w rows on = rw on (replay-append c.queue w rows)

  pub push-enabled : (c : Chain R) (w : Write R) → (push w c).enabled ≡ c.enabled
  unfolding push
  push-enabled c w = ground arith

-- The rows, once the queued writes have landed, hold what the memory holds: `view` is the part of
-- an entry that its row keeps.
module _ {V R : Type 0} (view : V → R) where
  abbrev pub Agrees : List (String × R) → List (String × V) → Type 0
  Agrees rows mem = (k : String) → lookup k rows ≡ Option.map view (lookup k mem)

  map_commutes :
      (f : V → V) (g : R → R)
      → ((v : V) → g (view v) ≡ view (f v))
      → (o : Option V) → Option.map g (Option.map view o) ≡ Option.map view (Option.map f o)
  map_commutes f g same none = refl
  map_commutes f g same (some v) = ap some (same v)

  pub Agrees-insert :
      (k : String) (v : V) (rows : List (String × R)) (mem : List (String × V))
      → Agrees rows mem
      → Agrees (execute (upsert k (view v)) rows) (insert k v mem)
  unfolding execute
  Agrees-insert k v rows mem h j =
      rw (lookup-insert j k v mem) (rw (lookup-insert j k (view v) rows) (ground (arith, h j)))

  pub Agrees-delete :
      (k : String) (rows : List (String × R)) (mem : List (String × V))
      → Agrees rows mem
      → Agrees (execute (remove k) rows) (delete k mem)
  unfolding execute
  Agrees-delete k rows mem h j =
      rw (lookup-delete j k mem) (rw (lookup-delete j k rows) (ground (arith, h j)))

  -- A change of a row goes with the change of the entry that it keeps the `view` of.
  pub Agrees-update :
      (k : String) (f : V → V) (g : R → R) (rows : List (String × R)) (mem : List (String × V))
      → ((v : V) → g (view v) ≡ view (f v))
      → Agrees rows mem
      → Agrees (execute (modify k g) rows) (update k f mem)
  unfolding execute
  Agrees-update k f g rows mem same h j = rw (lookup-update j k f mem) (
      rw (lookup-update j k g rows)
        (ground (arith, h j, ap (Option.map g) (h k), map_commutes f g same (lookup k mem))))

  pub Agrees-clear : (rows : List (String × R)) → Agrees (execute remove_all rows) []
  unfolding execute lookup
  Agrees-clear rows j = refl

  -- A store is its memory and its chain. It mirrors the table if writes are armed and the rows,
  -- once the queue has landed, agree with the memory.
  abbrev pub Mirrors : List (String × R) → List (String × V) → Chain R → Type 0
  Mirrors rows mem c = (c.enabled ≡ true) × Agrees (replay c.queue rows) mem

module _ {V R : Type 0} (view : V → R) (rows : List (String × R)) (mem : List (String × V))
    (c : Chain R) (m : Mirrors view rows mem c) where
  push-Mirrors :
      (w : Write R) (mem' : List (String × V))
      → Agrees view (execute w (replay c.queue rows)) mem'
      → Mirrors view rows mem' (push w c)
  push-Mirrors w mem' h = (push-enabled c w ∙ m.0, rw (replay-push c w rows m.0) h)

  pub Mirrors-insert :
      (k : String) (v : V) → Mirrors view rows (insert k v mem) (push (upsert k (view v)) c)
  Mirrors-insert k v = push-Mirrors _ _ (Agrees-insert view k v (replay c.queue rows) mem m.1)

  pub Mirrors-delete : (k : String) → Mirrors view rows (delete k mem) (push (remove k) c)
  Mirrors-delete k = push-Mirrors _ _ (Agrees-delete view k (replay c.queue rows) mem m.1)

  pub Mirrors-update :
      (k : String) (f : V → V) (g : R → R)
      → ((v : V) → g (view v) ≡ view (f v))
      → Mirrors view rows (update k f mem) (push (modify k g) c)
  Mirrors-update k f g same =
      push-Mirrors _ _ (Agrees-update view k f g (replay c.queue rows) mem same m.1)

  pub Mirrors-clear : Mirrors view rows [] (push remove_all c)
  Mirrors-clear = push-Mirrors _ _ (Agrees-clear view (replay c.queue rows))
