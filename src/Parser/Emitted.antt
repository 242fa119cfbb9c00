-- ===== src/Parser/Emitted.antt =====
-- The events that the parsers emit: all of them satisfy what the events of each kind satisfy under
-- the guards of that kind (src/monitor/parser.ts).
pub mod Clmm
pub mod Orca
pub mod Dammv2
pub mod Named
pub mod Meteora
use clmm_copybot.Common.{
  ℕ, ◌≡◌, refl, String, Bool, true, false, ◌&&◌, ◌||◌, not, Option, none, some, List, [], ◌∷◌, ◌++◌,
  arith, if◌then◌else◌, All, All-append, All-if, All-map,
}
use clmm_copybot.Common.Int.{ℤ}
use clmm_copybot.PendingSwaps.Executor.{Received}
use clmm_copybot.Parser.{Instruction, Tx, Programs, ParsedEvent}
use clmm_copybot.Parser.Balances.{
  find_new_nft_mints_from_tx, find_closed_nft_mints_from_tx, first_nft, parse_bot_received_tokens,
}
use clmm_copybot.Parser.Held.{held, new_nfts-held, closed_nfts-held, first_nft-held}

module _ (P : ParsedEvent → Type 0) (tx : Tx) (wallet : String) where
  abbrev pub Before : String → Type 0
  Before m = held wallet tx.pre_token_balances m ≡ true

  abbrev pub After : String → Type 0
  After m = held wallet tx.post_token_balances m ≡ true

  pub new_After : All After (find_new_nft_mints_from_tx tx wallet)
  unfolding find_new_nft_mints_from_tx
  new_After = new_nfts-held wallet tx.pre_token_balances tx.post_token_balances

  pub closed_Before : All Before (find_closed_nft_mints_from_tx tx wallet)
  unfolding find_closed_nft_mints_from_tx
  closed_Before = closed_nfts-held wallet tx.post_token_balances tx.pre_token_balances

  pub closes-All :
      (close_event : String → ParsedEvent) (closes : List String → List ParsedEvent)
      → (closes [] ≡ [])
      → ((m : String) (ms : List String) → closes (m ∷ ms) ≡ close_event m ∷ closes ms)
      → ((m : String) → Before m → P (close_event m))
      → (ms : List String) → All Before ms
      → All P (closes ms)
  closes-All close_event closes z s h [] hs = rw z tt
  closes-All close_event closes z s h (m ∷ ms) (b, hs) =
      rw s (h m b, closes-All close_event closes z s h ms hs)

  pub first-All :
      (one : Option String → List ParsedEvent) (event : String → ParsedEvent)
      → (one none ≡ [])
      → ((m : String) → one (some m) ≡ event m ∷ [])
      → ((m : String) → Before m → P (event m))
      → All P (one (first_nft wallet tx.pre_token_balances))
  first-All one event z s h =
      go (first_nft wallet tx.pre_token_balances)
        (λ m e. first_nft-held wallet tx.pre_token_balances m e)
    where
      go : (o : Option String) → ((m : String) → o ≡ some m → Before m) → All P (one o)
      go none k = rw z tt
      go (some m) k = rw s (h m (k m refl), tt)

  pub partial-All :
      (has_close : Bool) (partial : List String → List ParsedEvent) (one : List ParsedEvent)
      → (partial [] ≡ (if has_close then [] else one))
      → ((m : String) (ms : List String) → partial (m ∷ ms) ≡ [])
      → (has_close ≡ false → All P one)
      → (ms : List String) → All P (partial ms)
  partial-All true partial one z s h [] = rw z tt
  partial-All false partial one z s h [] = rw z (h refl)
  partial-All has_close partial one z s h (m ∷ ms) = rw s tt
