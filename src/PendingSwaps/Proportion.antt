-- ===== src/PendingSwaps/Proportion.antt =====
-- The swap of a pending amount: the target's proportion, what remains, and the dust rule
-- (src/executor/byreal-position.ts, `executePendingSwap` and `subtractPending`).
use clmm_copybot.Common.{
  ℕ, suc, ◌+◌, ◌-◌, ◌*◌, ◌/◌, ◌≤◌, ◌<◌, ◌≡◌, ◌⊎◌, inl, inr, false, Option, none, some, arith,
  if◌then◌else◌, value_or, leb, Bool-cases,
}
use native.Mathlib.Nat.{le_trans}
use clmm_copybot.PendingSwaps.{PendingSwapEntry}
use clmm_copybot.PendingSwaps.Executor.{dust, swap_amount}

not_zero : (n : ℕ) → 0 < n → leb n 0 ≡ false
not_zero n h = ground arith

div_floor : (n d : ℕ) → 0 < d → (n / d * d ≤ n) × (n < suc (n / d) * d)
div_floor n d h = (grind arith, grind arith)

mul_mono : (p a b : ℕ) → a ≤ b → p * a ≤ p * b
mul_mono p a b h = grind arith

le_of_mul : (d a p : ℕ) → 0 < d → a * d ≤ p * d → a ≤ p
le_of_mul d a p h k = grind arith

-- The amount is the target's share of what we hold, rounded down, and no more than we hold if the
-- target swaps no more than it received.
pub swap_amount_lem :
    (balance pending bot_swap received : ℕ)
    → 0 < received
    → let amount = swap_amount balance pending bot_swap (some received) in
      (amount * received ≤ pending * bot_swap)
      × (pending * bot_swap < suc amount * received)
      × ((amount ≤ pending) ⊎ (received < bot_swap))
unfolding swap_amount
swap_amount_lem balance pending bot_swap received h = rw (not_zero received h) (
  (div_floor (pending * bot_swap) received h).0,
  (div_floor (pending * bot_swap) received h).1,
  elim (Bool-cases (leb bot_swap received)) [
    | inl le ↦ inl (
        le_of_mul received (pending * bot_swap / received) pending h (
          le_trans (div_floor (pending * bot_swap) received h).0
            (mul_mono pending bot_swap received (ground (arith, le)))))
    | inr gt ↦ inr (ground (arith, gt))
  ],
)

module _ {X : Type 0} where
  -- What is left of an entry after a swap of `ours`, of which the target's part was `bots`.
  abbrev pub remains : PendingSwapEntry X → ℕ → ℕ → Option (PendingSwapEntry X)
  remains e ours bots =
      if leb e.pending (ours + dust)
      then none
      else some (record e {
        pending = e.pending - ours;
        bot_received = some (value_or e.bot_received 0 - bots);
      })
