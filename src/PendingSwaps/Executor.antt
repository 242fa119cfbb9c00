-- ===== src/PendingSwaps/Executor.antt =====
-- What the Byreal executor does with the pending swaps: src/executor/byreal-position.ts,
-- `addPendingSwap` to `clearPending`.
-- The balance of the wallet and the swap itself are the environment's.
use clmm_copybot.Common.{
  ℕ, ◌+◌, ◌-◌, ◌*◌, ◌/◌, String, Bool, true, ◌||◌, Option, none, some, List, [], ◌∷◌, leb,
  if◌then◌else◌, value_or, str_eq,
}
use clmm_copybot.PendingSwaps.{
  PendingSwapEntry, Store, get_pending_swap, set_pending_swap, add_pending, add_bot_received,
  delete_pending_swap,
}

abbrev pub usdc_mint : String
usdc_mint = "EPjFWdd5AufqSSqeM2qN1xzybapC8G4wEGGkZwyTDt1v"

abbrev pub usdt_mint : String
usdt_mint = "Es9vMFrzaCERmKfrE1SBVYuL9sSMdCL3DscMVPR1YnG5"

abbrev pub usdt_t22 : String
usdt_t22 = "Es9vMFrzaCERmJfrF4H2FYD4KCoNkY11McCe8BenwNYB"

-- `NATIVE_MINT`, wrapped SOL.
abbrev pub native_mint : String
native_mint = "So11111111111111111111111111111111111111112"

unfoldable pub is_quote : String → Bool
is_quote mint =
    str_eq mint usdc_mint
    || (str_eq mint usdt_mint || (str_eq mint usdt_t22 || str_eq mint native_mint))

-- What is worth less than a swap.
abbrev pub dust : ℕ
dust = 1000

pub record Received : Type 0 where
  pub mint : String
  pub amount : ℕ

-- The amount to swap: the share of what we hold that the target swaps of what it received.
-- `balance` is the wallet's, for an entry with nothing received.
unfoldable pub swap_amount : ℕ → ℕ → ℕ → Option ℕ → ℕ
swap_amount balance pending bot_swap none = balance
swap_amount balance pending bot_swap (some received) =
    if leb received 0 then balance else (pending * bot_swap) / received

-- Whether `swap_amount` asks the wallet for its balance.
abbrev pub asks_balance : Option ℕ → Bool
asks_balance none = true
asks_balance (some received) = leb received 0

module _ {X : Type 0} where
  unfoldable pub add_pending_swap : X → ℕ → String → ℕ → Store X → Store X
  add_pending_swap x0 now mint amount s =
      if is_quote mint then s else if leb amount 0 then s else (add_pending x0 now mint amount s).0

  -- The body of the loop.
  unfoldable pub receive : X → ℕ → Received → Store X → Store X
  receive x0 now r s =
      if is_quote r.mint
      then s
      else if leb r.amount 0
      then s
      else (add_bot_received x0 now r.mint r.amount s).0

  unfoldable pub record_bot_close_received : X → ℕ → List Received → Store X → Store X
  unfolding receive
  record_bot_close_received x0 now [] s = s
  record_bot_close_received x0 now (r ∷ rs) s =
      record_bot_close_received x0 now rs (receive x0 now r s)

  -- The entry after a swap; `remaining.lte(1000)` is tested without a subtraction.
  abbrev pub subtract_from : String → ℕ → ℕ → Option (PendingSwapEntry X) → Store X → Store X
  subtract_from mint ours bots none s = s
  subtract_from mint ours bots (some e) s =
      if leb e.pending (ours + dust)
      then delete_pending_swap mint s
      else set_pending_swap mint
          (record e {
            pending = e.pending - ours;
            bot_received = some (value_or e.bot_received 0 - bots);
          })
          s

  unfoldable pub subtract_pending : String → ℕ → ℕ → Store X → Store X
  unfolding get_pending_swap
  subtract_pending mint ours bots s = subtract_from mint ours bots (get_pending_swap mint s) s

  unfoldable pub clear_pending : String → Store X → Store X
  clear_pending = delete_pending_swap

  -- `meanwhile` and `swap` have what the other turns of the event loop do to the store while the
  -- balance and the swap are awaited; a swap that gives no signature, or throws, is `none`.
  module _ (dry_run : Bool) (busy : Bool) (balance : String → ℕ) (meanwhile : Store X → Store X)
      (swap : String → ℕ → Store X → Store X × Option String) where
    abbrev pub finish_swap : String → ℕ → ℕ → Store X × Option String → Store X × Option String
    finish_swap mint ours bots (s, none) = (s, none)
    finish_swap mint ours bots (s, some sig) = (subtract_pending mint ours bots s, some sig)

    unfoldable pub send_swap : String → ℕ → ℕ → Store X → Store X × Option String
    unfolding clear_pending
    send_swap mint amount bot_swap s =
        if leb amount dust
        then (clear_pending mint s, none)
        else if dry_run
        then (subtract_pending mint amount bot_swap s, some "dry-run-pending-swap")
        else if busy
        then (s, none)
        else finish_swap mint amount bot_swap (swap mint amount s)

    abbrev pub execute_entry :
        String → ℕ → Option (PendingSwapEntry X) → Store X → Store X × Option String
    execute_entry mint bot_swap none s = (s, none)
    execute_entry mint bot_swap (some e) s =
        if leb e.pending dust
        then (s, none)
        else send_swap mint (swap_amount (balance mint) e.pending bot_swap e.bot_received) bot_swap
            (if asks_balance e.bot_received then meanwhile s else s)

    unfoldable pub execute_pending_swap : String → ℕ → Store X → Store X × Option String
    unfolding get_pending_swap
    execute_pending_swap mint bot_swap s = execute_entry mint bot_swap (get_pending_swap mint s) s
