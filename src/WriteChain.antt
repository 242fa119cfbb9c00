-- ===== src/WriteChain.antt =====
-- The write-through ordering of the stores: src/state/write-chain.ts.
-- A chain holds the repository calls that are queued; `Write` is what one such call does to the
-- rows of its table (the statements of src/state/repo). `drain` runs the queue against the rows,
-- with the outcome of each attempt given by the environment.
pub mod Attempts
pub mod Drain
mod Tests
use mathlib.Core.Option
use clmm_copybot.Common.{
  ℕ, zero, suc, String, Bool, true, false, Option, none, some, List, [], ◌∷◌, ◌++◌, leb,
  if◌then◌else◌, length, get_elem?, value_or,
}
use clmm_copybot.Common.Dict
use clmm_copybot.Common.Dict.{insert, delete, update}

-- One statement on a table keyed by text: `INSERT … ON CONFLICT DO UPDATE`, `DELETE … WHERE key`,
-- `UPDATE … WHERE key`, and `DELETE` of all rows.
pub data Write (R : Type 0) : Type 0 where
  upsert : String → R → Write R
  remove : String → Write R
  modify : String → (R → R) → Write R
  remove_all : Write R

pub record Chain (R : Type 0) : Type 0 where
  pub enabled : Bool
  pub queue : List (Write R)

module _ {R : Type 0} where
  unfoldable pub execute : Write R → List (String × R) → List (String × R)
  execute (upsert k r) rows = insert k r rows
  execute (remove k) rows = delete k rows
  execute (modify k f) rows = update k f rows
  execute remove_all rows = []

  -- A new chain: nothing is queued, and writes are disabled.
  abbrev pub idle : Chain R
  idle = record { enabled = false; queue = [] }

  unfoldable pub enable : Chain R → Chain R
  enable c = record c { enabled = true }

  -- Queue one repository call; a chain that is not enabled drops it.
  unfoldable pub push : Write R → Chain R → Chain R
  push w c = if c.enabled then record c { queue = c.queue ++ (w ∷ []) } else c

pub data Outcome : Type 0 where
  persisted dropped : Outcome

-- How the attempts of one write ended, and the pauses taken between them, in ms.
pub record Report : Type 0 where
  pub outcome : Outcome
  pub attempts : ℕ
  pub waits : List ℕ

abbrev pub after_wait : ℕ → Report → Report
after_wait ms r = record r { waits = ms ∷ r.waits }

-- The loop over `attempt`; `ok` says which attempts the database accepts. `none`: out of fuel.
unfoldable pub attempt_loop : List ℕ → (ℕ → Bool) → ℕ → ℕ → Option Report
attempt_loop delays ok zero attempt = none
attempt_loop delays ok (suc fuel) attempt =
    let rest =
      Option.map (after_wait (value_or (get_elem? delays attempt) 0))
        (attempt_loop delays ok fuel (suc attempt)) in
    if ok attempt
    then some (record { outcome = persisted; attempts = suc attempt; waits = [] })
    else if leb (length delays) attempt
    then some (record { outcome = dropped; attempts = suc attempt; waits = [] })
    else rest

unfoldable pub run_write : List ℕ → (ℕ → Bool) → Option Report
unfolding attempt_loop
run_write delays ok = attempt_loop delays ok (suc (length delays)) 0

-- `RETRY_DELAYS_MS`.
abbrev pub retry_delays_ms : List ℕ
retry_delays_ms = 500 ∷ 2000 ∷ 5000 ∷ []

abbrev pub settle : {R : Type 0} → Option Report → Write R → List (String × R) → List (String × R)
settle none w rows = rows
settle (some r) w rows = elim r.outcome [ persisted ↦ execute w rows | dropped ↦ rows ]

-- Run the queued writes one at a time, in order; `ok n` has the outcomes of the n-th write.
unfoldable pub drain :
    {R : Type 0}
    → List ℕ
    → (ℕ → ℕ → Bool)
    → ℕ
    → List (Write R)
    → List (String × R)
    → List (String × R)
unfolding run_write execute
drain delays ok n [] rows = rows
drain delays ok n (w ∷ ws) rows =
    drain delays ok (suc n) ws (settle (run_write delays (ok n)) w rows)

-- What the queued writes amount to when each of them lands.
unfoldable pub replay : {R : Type 0} → List (Write R) → List (String × R) → List (String × R)
unfolding execute
replay [] rows = rows
replay (w ∷ ws) rows = replay ws (execute w rows)

-- For tests: what a run computes with.
unfoldable pub chain : Unit {0}
unfolding push enable execute
chain = tt
