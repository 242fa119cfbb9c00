-- ===== src/Opening/Funding.antt =====
-- The funding of an opening (src/executor/byreal-position.ts, `copyOpenPosition`, 3 and 3b): what is
-- missing of a token is swapped for, and what is then deposited.
use Prim.Native.Nat.{min}
use clmm_copybot.Common.{
  ℕ, ◌+◌, ◌-◌, String, Bool, true, false, ◌&&◌, not, Option, none, some, if◌then◌else◌, ltb, ◌==◌,
  has_text, str_eq, value_or,
}
use clmm_copybot.Opening.{
  PositionInfo, Deposit, get_token_balance, swap_for_token, swap_via_byreal_pool,
  get_actual_swap_output, Net, Opener, Result, ok, returned, and_then, ask,
}
use clmm_copybot.PendingSwaps.Executor.{usdc_mint, native_mint}

abbrev pub is_short : ℕ → ℕ → Bool
is_short held target = ltb held target && not (target == 0)

module _ {S N : Type 0} (net : Net N) where
  -- `if (!txSig) txSig = await …`.
  abbrev pub or_else :
      Option String
      → (Opener S → Result (Option String) × Opener S)
      → Opener S
      → Result (Option String) × Opener S
  or_else sig try s = if has_text sig then (ok sig, s) else try s

  abbrev pub swap_usdc : String → ℕ → Opener S → Result (Option String) × Opener S
  swap_usdc mint deficit s =
      if str_eq mint usdc_mint
      then (ok none, s)
      else ask net (swap_for_token usdc_mint mint deficit) s

  -- By Jupiter, or else through the pool itself.
  abbrev pub swap_pair : String → String → ℕ → Opener S → Result (Option String) × Opener S
  swap_pair from to deficit s =
      and_then (ask net (swap_for_token from to deficit) s)
        (λ sig s. or_else sig (ask net (swap_via_byreal_pool from to deficit)) s)

  abbrev pub swap_for_a : PositionInfo → ℕ → ℕ → Opener S → Result (Option String) × Opener S
  swap_for_a p deficit b s =
      if str_eq p.mint_a native_mint
      then swap_usdc p.mint_a deficit s
      else and_then (if b == 0 then (ok none, s) else swap_pair p.mint_b p.mint_a deficit s)
          (λ sig s. or_else sig (swap_usdc p.mint_a deficit) s)

  abbrev pub swap_for_b : PositionInfo → ℕ → ℕ → Opener S → Result (Option String) × Opener S
  swap_for_b p deficit a s =
      if str_eq p.mint_b native_mint
      then swap_usdc p.mint_b deficit s
      else and_then (swap_usdc p.mint_b deficit s) (λ sig s.
        or_else sig (λ s. if a == 0 then (ok sig, s) else swap_pair p.mint_a p.mint_b deficit s) s)

  -- The balance after a swap: with what it brought, or read again where that cannot be told.
  abbrev pub balance_after : String → ℕ → Option ℕ → Opener S → Result ℕ × Opener S
  balance_after mint held (some added) s = (ok (held + added), s)
  balance_after mint held none s = ask net (get_token_balance mint) s

  abbrev pub after_swap : String → ℕ → Option String → Opener S → Result ℕ × Opener S
  after_swap mint held sig s =
      if has_text sig
      then and_then (ask net (get_actual_swap_output (value_or sig "") mint) s)
          (balance_after mint held)
      else (returned none, s)

  unfoldable pub fund_a : PositionInfo → ℕ → ℕ → ℕ → Opener S → Result ℕ × Opener S
  fund_a p target a b s =
      if is_short a target
      then and_then (swap_for_a p (target - a) b s) (after_swap p.mint_a a)
      else (ok a, s)

  unfoldable pub fund_b : PositionInfo → ℕ → ℕ → ℕ → Opener S → Result ℕ × Opener S
  fund_b p target a b s =
      if is_short b target
      then and_then (swap_for_b p (target - b) a s) (after_swap p.mint_b b)
      else (ok b, s)

-- The target's amounts, scaled, and never more than is held.
unfoldable pub deposit : ℕ → ℕ → ℕ → ℕ → Deposit
deposit target_a target_b a b =
    if ltb 0 target_a
    then record {
      base_is_a = true;
      base_amount = min target_a a;
      other_amount_max = min target_b b;
    }
    else record {
      base_is_a = false;
      base_amount = min target_b b;
      other_amount_max = min target_a a;
    }
