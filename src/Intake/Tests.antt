-- ===== src/Intake/Tests.antt =====
-- Runs of the intake, and its theorem at concrete notifications.
use clmm_copybot.Common.{ℕ, suc, ◌≡◌, refl, String, List, [], ◌∷◌, arith, map, if◌then◌else◌}
use clmm_copybot.Parser.Samples.{programs}
use clmm_copybot.Queue
use clmm_copybot.Queue.{enqueue}
use clmm_copybot.Intake.{Task, Intake, remember, is_filtered, on_transaction}
use clmm_copybot.Intake.Once.{on_all, queued, queued_once}

abbrev task : String → List String → Task
task signature logs = record { signature = signature; logs = logs; target_wallet = "WALLETWALLET" }

-- The success of a transfer of SOL.
abbrev sys : String
sys = "Program 11111111111111111111111111111111 success"

abbrev spam : List String
spam = sys ∷ sys ∷ sys ∷ sys ∷ sys ∷ []

abbrev at_start : Intake
at_start = record { processed = []; op_queue = Queue.new }

abbrev notified : List (ℕ × Task)
notified = (2, task "S1" []) ∷ (3, task "S2" spam) ∷ (4, task "S3" ("Program BYR" ∷ spam)) ∷ []

intake : Unit {0}
unfolding remember is_filtered on_transaction on_all enqueue
intake = tt

intake_tests :
    let s = on_all programs ((1, task "S1" []) ∷ notified) at_start in
    (s.processed ≡ "S1" ∷ "S2" ∷ "S3" ∷ [])
    × (map (λ i. i.label) s.op_queue.high_queue ≡ "TX:WALLETWA:S1" ∷ "TX:WALLETWA:S3" ∷ [])
unfolding intake
intake_tests = (refl, refl)

queued_once_example :
    let s' = on_all programs notified (on_transaction programs 1 (task "S1" []) at_start) in
    queued "S1" s'.op_queue.high_queue ≡ (
      if is_filtered programs []
      then queued "S1" at_start.op_queue.high_queue
      else suc (queued "S1" at_start.op_queue.high_queue))
queued_once_example = queued_once programs 1 (task "S1" []) notified at_start refl (omega arith)
