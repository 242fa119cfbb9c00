-- ===== src/PendingSwaps/Tests.antt =====
-- Runs of the pending swaps, and their theorems at concrete stores.
use clmm_copybot.Common.{
  ℕ, suc, ◌+◌, ◌*◌, ◌≤◌, ◌<◌, ◌≡◌, ◌≢◌, ◌⊎◌, refl, Bool, true, false, String, Option, some, List,
  [], ◌∷◌, arith, eq_iff, str_eq, All,
}
use clmm_copybot.Common.Dict.{lookup}
use clmm_copybot.WriteChain.{drain, retry_delays_ms}
use clmm_copybot.PendingSwaps.{PendingSwapEntry, Store, new, init_pending_swaps}
use clmm_copybot.PendingSwaps.Executor.{Received, swap_amount, record_bot_close_received, usdc_mint}
use clmm_copybot.PendingSwaps.Table.{
  Call, add_pending_call, add_bot_received_call, delete_call, Spares, run, table-eq-memory,
}
use clmm_copybot.PendingSwaps.Sums.{
  pending_of, received_of, credit, sum_for, tracked, pending_of-credit,
  received_of-record_bot_close_received,
}
use clmm_copybot.PendingSwaps.Proportion.{swap_amount_lem}

text_ne : (a b : String) → str_eq a b ≡ false → a ≢ b
text_ne a b h e = ground (arith, eq_iff a b)

abbrev held : PendingSwapEntry ℕ
held = record { pending = 50000; bot_received = some 2000000; created_at = 7; extra = 0 }

abbrev one : Store ℕ
one = record { map = ("M", held) ∷ []; writes = record { enabled = true; queue = [] } }

abbrev calls : List (Call ℕ)
calls =
    add_pending_call 0 9 "N" 40
    ∷ add_bot_received_call 0 9 "N" 60
    ∷ add_pending_call 0 9 "N" 2
    ∷ delete_call "K"
    ∷ []

abbrev first : ℕ → ℕ → Bool
first j i = true

table-eq-memory_example :
    let s = run calls (init_pending_swaps (("M", held) ∷ []) new) in
    lookup "N" (drain retry_delays_ms first 0 s.writes.queue (("M", held) ∷ [])) ≡ lookup "N" s.map
table-eq-memory_example =
    table-eq-memory (("M", held) ∷ []) calls retry_delays_ms first (λ j. (0, omega arith, refl)) "N"

others : All (Spares "M") calls
others = (
  λ h. absurd (text_ne "N" "M" refl h),
  (
    λ h. absurd (text_ne "N" "M" refl h),
    (λ h. absurd (text_ne "N" "M" refl h), (λ h. absurd (text_ne "K" "M" refl h), tt)),
  ),
)

abbrev amounts : List Received
amounts =
    record { mint = "M"; amount = 30 }
    ∷ record { mint = usdc_mint; amount = 900 }
    ∷ record { mint = "M"; amount = 12 }
    ∷ []

pending_of-credit_example :
    pending_of "M" (credit 0 9 amounts one) ≡ pending_of "M" one + tracked "M" (sum_for "M" amounts)
pending_of-credit_example = pending_of-credit 0 9 "M" amounts one

received_of-record_bot_close_received_example :
    received_of "M" (record_bot_close_received 0 9 amounts one)
    ≡ received_of "M" one + tracked "M" (sum_for "M" amounts)
received_of-record_bot_close_received_example =
    received_of-record_bot_close_received 0 9 "M" amounts one

swap_amount_lem_example :
    let amount = swap_amount 0 50000 1000000 (some 2000000) in
    (amount * 2000000 ≤ 50000 * 1000000)
    × (50000 * 1000000 < suc amount * 2000000)
    × ((amount ≤ 50000) ⊎ (2000000 < 1000000))
swap_amount_lem_example = swap_amount_lem 0 50000 1000000 2000000 (omega arith)

abbrev balance : String → ℕ
balance m = 0

abbrev still : Store ℕ → Store ℕ
still s = s

abbrev swap : String → ℕ → Store ℕ → Store ℕ × Option String
swap m n s = (s, some "sig")
