-- ===== src/Handler/Outcome/Attribution.antt =====
-- What is copied of a transaction: `parseTransaction` of src/monitor/parser.ts and `handleEvent` of
-- src/index.ts together.
use clmm_copybot.Common.{
  ℕ, ◌≡◌, String, Bool, true, Option, some, List, [], ◌∷◌, Bool-cases, inl, inr, All, All-append,
  All-map,
}
use clmm_copybot.ActivityLog.{EventLogEntry}
use clmm_copybot.PendingSwaps.Executor.{Received}
use clmm_copybot.Parser.{
  Tx, Programs, ParsedEvent, jupiter_swap, byreal_open_position, byreal_increase_liquidity,
  byreal_decrease_liquidity, byreal_close_position, byreal_collect_fees, orca_open_position,
  orca_close_position, orca_increase_liquidity, orca_decrease_liquidity, meteora_open_position,
  meteora_close_position, meteora_add_liquidity, meteora_remove_liquidity, pcs_open_position,
  pcs_increase_liquidity, pcs_decrease_liquidity, pcs_close_position, pcs_collect_fees,
  dammv2_open_position, dammv2_close_position, dammv2_add_liquidity, dammv2_remove_liquidity,
  dammv2_claim_fee, unknown,
}
use clmm_copybot.Parser.Swap.{Numbers}
use clmm_copybot.Parser.Meteora.{find_all_meteora_instructions}
use clmm_copybot.Parser.Held.{held}
use clmm_copybot.Parser.Emitted.Named.{names}
use clmm_copybot.Parser.Transaction.{Answer, fetch, parse_transaction}
use clmm_copybot.Parser.Outcome.Attribution.{Attributed, parse_transaction-Attributed}
use clmm_copybot.Ratios.{RatioOps}
use clmm_copybot.Handler
use clmm_copybot.Handler.{
  Venue, Call, copy_open_position, copy_increase_liquidity, copy_decrease_liquidity,
  copy_close_position, copy_claim_fee, swap_token_to_usdc, Effect, called, logged, bot_received,
  swap_logged, price_refreshed, caches_invalidated, pnl_checked, World, Env, start,
}
use clmm_copybot.Handler.Dispatch.{event_dex, handle_event, handle_events}
use clmm_copybot.Handler.Shape.{
  Allowed, Shape, silent, noted, threw, copied, unreported, after_receipt, IsAftermath, Says,
}
use clmm_copybot.Handler.Outcome.Event.{Asks, about, handle_event_lem}

module _ {S N R : Type 0} (env : Env S N R) (w : World S N R) (wallet : String)
    (dex : Option String) (nft : Option String) (Asked : Call → Type 0) (P : Effect → Type 0)
    (calls : (c : Call) → Allowed w wallet c → Asked c → P (called c))
    (entries : (e : EventLogEntry) → Says env w wallet dex nft Asked e → P (logged e dex))
    (others : (f : Effect) → IsAftermath f → P f)
    (receipts : (rs : List Received) → P (bot_received rs)) where
  -- A property of all effects of a handling, from its calls and its entries.
  pub Shape-All : {es : List Effect} {t : Bool} → Shape env w wallet dex nft Asked es t → All P es
  Shape-All silent = tt
  Shape-All (noted e says) = (entries e says, tt)
  Shape-All (threw c w' allowed asked h) = (calls c allowed asked, tt)
  Shape-All (copied c w' a e fs allowed asked h says reports rest) =
      (calls c allowed asked, (entries e says, All-map fs others rest))
  Shape-All (unreported c w' a fs allowed asked h quiet rest) =
      (calls c allowed asked, All-map fs others rest)
  Shape-All (after_receipt rs s) = (receipts rs, Shape-All s)

module _ {S N R : Type 0} (env : Env S N R) (ops : RatioOps R) (wallet : String) where
  -- What holds of the effects of each event holds of those of a transaction.
  pub handle_events-All :
      (P : Effect → Type 0) (es : List ParsedEvent)
      → All (λ e. (w : World S N R) → All P (handle_event env ops wallet e (start w)).effects) es
      → (w : World S N R) → All P (handle_events env ops wallet es w).effects
  unfolding handle_events
  handle_events-All P [] h w = tt
  handle_events-All P (e ∷ es) h w =
      let done = handle_event env ops wallet e (start w) in
      elim (Bool-cases done.thrown) [
        | inl thrown ↦ rw thrown (h.0 w)
        | inr fine ↦
            rw fine (All-append P done.effects _ (h.0 w) (handle_events-All P es h.1 done.world))
      ]

module _ (programs : Programs) (tx : Tx) (wallet : String) where
  abbrev Before : Venue → String → Type 0
  Before Handler.meteora nft = names wallet (find_all_meteora_instructions programs tx) nft ≡ true
  Before _ nft = held wallet tx.pre_token_balances nft ≡ true

  abbrev After : Venue → String → Type 0
  After Handler.meteora nft = names wallet (find_all_meteora_instructions programs tx) nft ≡ true
  After _ nft = held wallet tx.post_token_balances nft ≡ true

  -- The position of a call is the wallet's own: held after the transaction where it is opened and
  -- before it elsewhere, or, at Meteora, named with the wallet by an instruction.
  abbrev pub CopiesOwn : Effect → Type 0
  CopiesOwn (called (copy_open_position v nft pool referer target)) = After v nft
  CopiesOwn (called (copy_increase_liquidity v nft target)) = Before v nft
  CopiesOwn (called (copy_decrease_liquidity v nft)) = Before v nft
  CopiesOwn (called (copy_close_position v nft)) = Before v nft
  CopiesOwn (called (copy_claim_fee nft)) = Before Handler.dammv2 nft
  CopiesOwn _ = Unit

  asked_own :
      (e : ParsedEvent) (c : Call)
      → Attributed programs tx wallet e
      → Asks wallet e c
      → CopiesOwn (called c)
  asked_own (jupiter_swap s) c h (max_raw, k) = rw k tt
  asked_own (byreal_open_position o) c h k = rw k h
  asked_own (byreal_increase_liquidity m) c h k = rw k h
  asked_own (byreal_decrease_liquidity m l) c h k = rw k h
  asked_own (byreal_close_position m rs) c h k = rw k h
  asked_own (byreal_collect_fees m) c h k = absurd k
  asked_own (orca_open_position pool lower upper m) c h k = rw k h
  asked_own (orca_close_position m rs) c h k = rw k h
  asked_own (orca_increase_liquidity m) c h k = rw k h
  asked_own (orca_decrease_liquidity m) c h k = rw k h
  asked_own (meteora_open_position pool lower width p) c h k = rw k h
  asked_own (meteora_close_position p rs) c h k = rw k h
  asked_own (meteora_add_liquidity p) c h k = rw k h
  asked_own (meteora_remove_liquidity p) c h k = rw k h
  asked_own (pcs_open_position o) c h k = rw k h
  asked_own (pcs_increase_liquidity m) c h k = rw k h
  asked_own (pcs_decrease_liquidity m l) c h k = rw k h
  asked_own (pcs_close_position m rs) c h k = rw k h
  asked_own (pcs_collect_fees m) c h k = absurd k
  asked_own (dammv2_open_position pool m) c h k = rw k h
  asked_own (dammv2_close_position m rs) c h k = rw k h
  asked_own (dammv2_add_liquidity m) c h k = rw k h
  asked_own (dammv2_remove_liquidity m) c h k = rw k h
  asked_own (dammv2_claim_fee m) c h k = rw k h
  asked_own unknown c h k = absurd k

  quiet_own : (f : Effect) → IsAftermath f → CopiesOwn f
  quiet_own (called c) h = absurd h
  quiet_own (logged e dex) h = tt
  quiet_own (swap_logged e) h = tt
  quiet_own (bot_received rs) h = tt
  quiet_own price_refreshed h = tt
  quiet_own caches_invalidated h = tt
  quiet_own (pnl_checked pool nft) h = tt

-- Whatever a transaction of a followed wallet holds, whatever the state of the bot and the answers
-- of the executors: each call of an executor that the handling of its events makes, other than a
-- swap, is about a position of the wallet itself: one that it holds after the transaction, for an
-- opening, or held before it, for the rest; at Meteora, one that an instruction names together with
-- the wallet.
pub handled-CopiesOwn :
    (S N R : Type 0) (env : Env S N R) (ops : RatioOps R) (decode : String → Option (List ℕ))
    (M : Type 0) (num : Numbers M) (programs : Programs) (rpc : ℕ → Answer) (logs : List String)
    (wallet : String) (tx : Tx) (w : World S N R)
    → fetch rpc ≡ some tx
    → All
        (CopiesOwn programs tx wallet)
        (handle_events env ops wallet
          (parse_transaction decode num programs rpc logs wallet)
          w).effects
handled-CopiesOwn S N R env ops decode M num programs rpc logs wallet tx w h =
    handle_events-All env ops wallet (CopiesOwn programs tx wallet) _
      (All-map (parse_transaction decode num programs rpc logs wallet)
        (λ e own w.
          Shape-All env w wallet (event_dex e) (about e) (Asks wallet e)
            (CopiesOwn programs tx wallet)
            (λ c allowed asked. asked_own programs tx wallet e c own asked) (λ e says. tt)
            (quiet_own programs tx wallet) (λ rs. tt) (handle_event_lem env ops wallet w e))
        (parse_transaction-Attributed decode M num programs rpc logs wallet tx h))
      w
