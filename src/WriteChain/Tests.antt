-- ===== src/WriteChain/Tests.antt =====
-- Runs of the write chain, and its theorems at concrete outcomes.
use clmm_copybot.Common.{ℕ, zero, suc, ◌≡◌, refl, Bool, true, false, some, List, [], ◌∷◌}
use clmm_copybot.WriteChain.{
  Write, upsert, remove, idle, enable, push, persisted, dropped, Report, retry_delays_ms, run_write,
}
use clmm_copybot.WriteChain.Attempts.{IsFaithful, run_write_total}

abbrev second : ℕ → Bool
second zero = false
second (suc i) = true

run_write_test :
    (run_write retry_delays_ms second
      ≡ some (record { outcome = persisted; attempts = 2; waits = 500 ∷ [] }))
    × (run_write retry_delays_ms (λ i. false)
        ≡ some (record { outcome = dropped; attempts = 4; waits = 500 ∷ 2000 ∷ 5000 ∷ [] }))
unfolding run_write
run_write_test = (refl, refl)

run_write_total_example :
    (r : Report) × (run_write retry_delays_ms second ≡ some r)
    × IsFaithful retry_delays_ms second 0 r
run_write_total_example = run_write_total retry_delays_ms second

abbrev two_writes : List (Write ℕ)
two_writes = upsert "a" 1 ∷ upsert "b" 2 ∷ remove "a" ∷ []

push_test :
    ((push {R = ℕ} (upsert "a" 1) idle).queue ≡ [])
    × ((push {R = ℕ} (upsert "a" 1) (enable idle)).queue ≡ upsert "a" 1 ∷ [])
unfolding push enable
push_test = (refl, refl)
