-- ===== src/WriteChain/Attempts.antt =====
-- The retry loop of one write: it ends, keeps to its bound, and gives up only after the last try.

use clmm_copybot.Common.{
  ℕ, zero, suc, ◌+◌, ◌-◌, ◌≤◌, ◌<◌, ◌≡◌, ◌⊎◌, refl, ap, Bool, true, false, some, List, [], ◌∷◌,
  arith, leb, length, get_elem?, take, drop, value_or, Bool-cases, inl, inr,
}
use native.Mathlib.Decide.{ℕ_discrete}
use clmm_copybot.WriteChain.{
  Outcome, persisted, dropped, Report, after_wait, attempt_loop, run_write,
}

-- What a report says of the attempts from `first` on.
pub record IsFaithful (delays : List ℕ) (ok : ℕ → Bool) (first : ℕ) (r : Report) : Type 0 where
  pub started : first < r.attempts
  pub bounded : r.attempts ≤ suc (length delays)
  pub failed_before : (i : ℕ) → first ≤ i → suc i < r.attempts → ok i ≡ false
  pub last : ok (r.attempts - 1) ≡ elim r.outcome [ persisted ↦ true | dropped ↦ false ]
  pub gave_up : r.outcome ≡ dropped → r.attempts ≡ suc (length delays)
  pub paused : r.waits ≡ take (r.attempts - suc first) (drop first delays)

take-drop_step :
    (delays : List ℕ) (i n : ℕ)
    → i < length delays
    → take (suc n) (drop i delays) ≡ value_or (get_elem? delays i) 0 ∷ take n (drop (suc i) delays)
take-drop_step [] i n h = absurd (omega arith)
take-drop_step (d ∷ ds) zero n h = refl
take-drop_step (d ∷ ds) (suc i) n h = take-drop_step ds i n (omega arith)

pred-suc : (n : ℕ) → suc n - 1 ≡ n
pred-suc n = omega arith

Outcome-cases : (o : Outcome) → (o ≡ persisted) ⊎ (o ≡ dropped)
Outcome-cases persisted = inl refl
Outcome-cases dropped = inr refl

sub_self : (n : ℕ) → n - n ≡ 0
sub_self n = omega arith

module _ (delays : List ℕ) (ok : ℕ → Bool) where
  after_wait-IsFaithful :
      (a : ℕ) (r : Report)
      → ok a ≡ false
      → a < length delays
      → IsFaithful delays ok (suc a) r
      → IsFaithful delays ok a (after_wait (value_or (get_elem? delays a) 0) r)
  after_wait-IsFaithful a r refused room f = record {
    started = omega arith;
    bounded = f.bounded;
    failed_before = λ i lo hi. elim (ℕ_discrete i a) [
      | yes e ↦ rw e refused
      | no ne ↦ f.failed_before i (omega arith) hi
    ];
    last = f.last;
    gave_up = f.gave_up;
    paused =
        let split : r.attempts - suc a ≡ suc (r.attempts - suc (suc a)) = omega arith in
        rw (split, take-drop_step delays a (r.attempts - suc (suc a)) room, f.paused);
  }

  loop_total :
      (fuel attempt : ℕ)
      → attempt + fuel ≡ suc (length delays)
      → 0 < fuel
      → (r : Report) × (attempt_loop delays ok fuel attempt ≡ some r)
        × IsFaithful delays ok attempt r
  unfolding attempt_loop
  loop_total zero attempt h p = absurd (omega arith)
  loop_total (suc fuel) attempt h p = elim (Bool-cases (ok attempt)) [
    | inl landed ↦ (
      record { outcome = persisted; attempts = suc attempt; waits = [] },
      rw landed,
      record {
        started = omega arith;
        bounded = omega arith;
        failed_before = λ i lo hi. absurd (omega arith);
        last = rw (pred-suc attempt) landed;
        gave_up = λ e. cc;
        paused = rw (sub_self (suc attempt));
      },
    )
    | inr refused ↦ elim (Bool-cases (leb (length delays) attempt)) [
      | inl out ↦ (
        record { outcome = dropped; attempts = suc attempt; waits = [] },
        rw (refused, out),
        record {
          started = omega arith;
          bounded = omega arith;
          failed_before = λ i lo hi. absurd (omega arith);
          last = rw (pred-suc attempt) refused;
          gave_up = λ e. ground arith;
          paused = rw (sub_self (suc attempt));
        },
      )
      | inr room ↦
          let (r, e, f) = loop_total fuel (suc attempt) (omega arith) (ground arith) in
          (
            after_wait (value_or (get_elem? delays attempt) 0) r,
            rw (refused, room, e),
            after_wait-IsFaithful attempt r refused (ground arith) f,
          )
    ]
  ]

  -- The retry loop of a write ends for every list of delays and whatever the database answers: it
  -- makes at least one attempt and at most one more than there are delays, all attempts but the
  -- last have failed, the last has succeeded exactly if the write is persisted, a write is dropped
  -- only after the attempt that follows the last delay, and the pauses are the first delays, in
  -- order, one after each failed attempt that is retried.
  pub run_write_total : (r : Report) × (run_write delays ok ≡ some r) × IsFaithful delays ok 0 r
  unfolding run_write
  run_write_total = loop_total (suc (length delays)) 0 (omega arith) (omega arith)

  pub persisted_of_success :
      (i : ℕ)
      → i ≤ length delays
      → ok i ≡ true
      → (r : Report) × (run_write delays ok ≡ some r) × (r.outcome ≡ persisted)
  persisted_of_success i h good =
      let (r, e, f) = run_write_total in (r, e, outcome_of r f (Outcome-cases r.outcome))
    where
      outcome_of :
          (r : Report)
          → IsFaithful delays ok 0 r
          → (r.outcome ≡ persisted) ⊎ (r.outcome ≡ dropped)
          → r.outcome ≡ persisted
      outcome_of r f (inl e) = e
      outcome_of r f (inr e) = elim (ℕ_discrete i (r.attempts - 1)) [
        | yes q ↦ ground (arith, ap ok q, f.last)
        | no nq ↦ ground (arith, f.gave_up e, f.failed_before i)
      ]
