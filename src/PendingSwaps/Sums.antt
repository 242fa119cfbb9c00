-- ===== src/PendingSwaps/Sums.antt =====
-- Credits add up: none of the amounts that the executors record is lost
-- (src/executor/byreal-position.ts over src/state/pending-swaps-store.ts).
use clmm_copybot.Common.{
  ℕ, ◌+◌, ◌≡◌, refl, String, Option, none, some, List, [], ◌∷◌, arith, if◌then◌else◌, str_eq,
  eq_iff, value_or, Bool-cases, inl, inr,
}
use clmm_copybot.Common.Dict.{lookup, lookup-insert}
use clmm_copybot.PendingSwaps.{PendingSwapEntry, Store, add_pending, add_bot_received, seed}
use clmm_copybot.PendingSwaps.Executor.{
  is_quote, Received, add_pending_swap, receive, record_bot_close_received,
}

module _ {X : Type 0} where
  abbrev pub pending_in : Option (PendingSwapEntry X) → ℕ
  pending_in none = 0
  pending_in (some e) = e.pending

  abbrev pub received_in : Option (PendingSwapEntry X) → ℕ
  received_in none = 0
  received_in (some e) = value_or e.bot_received 0

  -- What is held of a mint, and what the target is known to have received of it.
  abbrev pub pending_of : String → Store X → ℕ
  pending_of mint s = pending_in (lookup mint s.map)

  abbrev pub received_of : String → Store X → ℕ
  received_of mint s = received_in (lookup mint s.map)

  -- The executor's credits, one after the other.
  unfoldable pub credit : X → ℕ → List Received → Store X → Store X
  credit x0 now [] s = s
  credit x0 now (r ∷ rs) s = credit x0 now rs (add_pending_swap x0 now r.mint r.amount s)

-- The amounts of one mint, added up.
abbrev pub sum_for : String → List Received → ℕ
sum_for mint [] = 0
sum_for mint (r ∷ rs) = (if str_eq r.mint mint then r.amount else 0) + sum_for mint rs

-- A quote token is never tracked.
abbrev pub tracked : String → ℕ → ℕ
tracked mint n = if is_quote mint then 0 else n

module _ {X : Type 0} (x0 : X) (now : ℕ) where
  pending-seed :
      (o : Option (PendingSwapEntry X)) → (value_or o (seed x0 now)).pending ≡ pending_in o
  pending-seed none = refl
  pending-seed (some e) = refl

  received-seed :
      (o : Option (PendingSwapEntry X))
      → value_or (value_or o (seed x0 now)).bot_received 0 ≡ received_in o
  received-seed none = refl
  received-seed (some e) = refl

  add_pending_sum :
      (k mint : String) (amount : ℕ) (s : Store X)
      → pending_of k (add_pending x0 now mint amount s).0
        ≡ pending_of k s + (if str_eq mint k then amount else 0)
  unfolding add_pending
  add_pending_sum k mint amount s = elim (Bool-cases (str_eq mint k)) [
    | inl e ↦
        rw lookup-insert
          (rw (e, (eq_iff mint k).0 e) (ground (arith, pending-seed (lookup k s.map))))
    | inr n ↦ rw lookup-insert (rw n (omega arith))
  ]

  add_bot_received_sum :
      (k mint : String) (amount : ℕ) (s : Store X)
      → received_of k (add_bot_received x0 now mint amount s).0
        ≡ received_of k s + (if str_eq mint k then amount else 0)
  unfolding add_bot_received
  add_bot_received_sum k mint amount s = elim (Bool-cases (str_eq mint k)) [
    | inl e ↦
        rw lookup-insert
          (rw (e, (eq_iff mint k).0 e) (ground (arith, received-seed (lookup k s.map))))
    | inr n ↦ rw lookup-insert (rw n (omega arith))
  ]

  -- One credit of either kind, with the quote tokens and the amounts of nothing left out.
  pending_step :
      (k mint : String) (amount : ℕ) (s : Store X)
      → pending_of k (add_pending_swap x0 now mint amount s)
        ≡ pending_of k s + (if str_eq mint k then tracked k amount else 0)
  unfolding add_pending_swap
  pending_step k mint amount s = elim (Bool-cases (is_quote mint)) [
    | inl quote ↦ rw quote (ground (arith, eq_iff mint k, quote))
    | inr other ↦ rw other (ground (arith, eq_iff mint k, other, add_pending_sum k mint amount s))
  ]

  -- After any credits, in any order and for any mints, what is held of a mint is what was held
  -- before and the sum of the amounts credited to it; of a quote token nothing is recorded.
  pub pending_of-credit :
      (k : String) (rs : List Received) (s : Store X)
      → pending_of k (credit x0 now rs s) ≡ pending_of k s + tracked k (sum_for k rs)
  unfolding credit
  pending_of-credit k [] s = ground arith
  pending_of-credit k (r ∷ rs) s = ground (
    arith,
    pending_of-credit k rs (add_pending_swap x0 now r.mint r.amount s),
    pending_step k r.mint r.amount s,
  )

  received_step :
      (k : String) (r : Received) (s : Store X)
      → received_of k (receive x0 now r s)
        ≡ received_of k s + (if str_eq r.mint k then tracked k r.amount else 0)
  unfolding receive
  received_step k r s = elim (Bool-cases (is_quote r.mint)) [
    | inl quote ↦ rw quote (ground (arith, eq_iff r.mint k, quote))
    | inr other ↦
        rw other (ground (arith, eq_iff r.mint k, other, add_bot_received_sum k r.mint r.amount s))
  ]

  -- Likewise for what the target receives: a close adds exactly the amounts of the list, per mint.
  pub received_of-record_bot_close_received :
      (k : String) (rs : List Received) (s : Store X)
      → received_of k (record_bot_close_received x0 now rs s)
        ≡ received_of k s + tracked k (sum_for k rs)
  unfolding record_bot_close_received
  received_of-record_bot_close_received k [] s = ground arith
  received_of-record_bot_close_received k (r ∷ rs) s =
      ground (
        arith,
        received_of-record_bot_close_received k rs (receive x0 now r s),
        received_step k r s,
      )
