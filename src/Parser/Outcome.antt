-- ===== src/Parser/Outcome.antt =====
-- What `parseTransaction` can return (src/monitor/parser.ts).
pub mod Attribution
pub mod Exclusion
pub mod Errors
pub mod Origin
use clmm_copybot.Common.{
  ℕ, zero, suc, ◌<◌, ◌≡◌, ◌≢◌, ◌⊎◌, inl, inr, refl, String, Bool, true, false, ◌&&◌, ◌||◌, not,
  Option, none, some, List, [], ◌∷◌, ◌++◌, arith, if◌then◌else◌, All, All-append, All-if,
  Bool-cases, str_eq, is_text,
}
use clmm_copybot.Parser.{Tx, Programs, JupiterSwap, ParsedEvent, jupiter_swap, unknown}
use clmm_copybot.Parser.Byreal.{parse_byreal_operations}
use clmm_copybot.Parser.Pcs.{parse_pcs_operations}
use clmm_copybot.Parser.Orca.{parse_orca_operations}
use clmm_copybot.Parser.Meteora.{parse_meteora_operations}
use clmm_copybot.Parser.Dammv2.{parse_dammv2_operations}
use clmm_copybot.Parser.Swap.{
  Numbers, sol_mint, is_single, swap_of, Found, sol_change, index_of, find_changes, changes_post,
  changes_pre, not_found, parse_jupiter_swap,
}
use clmm_copybot.Parser.Transaction.{
  Answer, found, not_yet, failed, try_fetch, fetch, Involved, involved, is_spam, dex_events,
  with_swap, or_unknown, parse_fetched, parse_transaction, swap_event,
}

-- Both sides of a swap are known, and it does more than wrap SOL.
abbrev pub IsSwap : JupiterSwap → Type 0
IsSwap s =
    (is_text s.input_mint ≡ true)
    × ((is_text s.output_mint ≡ true)
        × ((str_eq s.input_mint sol_mint && str_eq s.output_mint sol_mint) ≡ false))

pick-All :
    (P : ParsedEvent → Type 0) (a b c : Bool) (e : ParsedEvent)
    → (a ≡ true → b ≡ false → P e)
    → All P (swap_event (if a then (if b then none else if c then none else some e) else none))
pick-All P true false false e h = (h refl refl, tt)
pick-All P true false true e h = tt
pick-All P true true c e h = tt
pick-All P false b c e h = tt

module _ (P : ParsedEvent → Type 0) {N : Type 0} (num : Numbers N) where
  swap_of-All :
      (f : Found)
      → ((s : JupiterSwap) → IsSwap s → P (jupiter_swap s))
      → All P (swap_event (swap_of num f))
  unfolding swap_of
  swap_of-All f h =
      pick-All P (is_text f.input_mint && is_text f.output_mint)
        (str_eq f.input_mint sol_mint && str_eq f.output_mint sol_mint)
        (is_single num f.input_decimals f.input_amount
          || is_single num f.output_decimals f.output_amount)
        _ (λ t n. h _ (ground (arith, t), (ground (arith, t), n)))

  swap-All :
      (tx : Tx) (wallet : String)
      → ((s : JupiterSwap) → IsSwap s → P (jupiter_swap s))
      → All P (swap_event (parse_jupiter_swap num tx wallet))
  unfolding parse_jupiter_swap
  swap-All tx wallet h =
      swap_of-All
        (sol_change num tx.pre_balances tx.post_balances (index_of wallet tx.account_keys) tx.fee (
          find_changes num
            (changes_post num wallet tx.post_token_balances
              (changes_pre num wallet tx.pre_token_balances []))
            not_found))
        h

  with_swap-All :
      (decode : String → Option (List ℕ)) (byreal : Bool) (tx : Tx) (wallet : String)
      (es : List ParsedEvent)
      → (byreal ≡ false → es ≡ [] → (s : JupiterSwap) → IsSwap s → P (jupiter_swap s))
      → All P es
      → All P (with_swap decode num byreal tx wallet es)
  with_swap-All decode true tx wallet [] h hs = tt
  with_swap-All decode false tx wallet [] h hs = swap-All tx wallet (h refl refl)
  with_swap-All decode byreal tx wallet (e ∷ es) h hs = hs

or_unknown-All :
    (P : ParsedEvent → Type 0) (es : List ParsedEvent)
    → All P es
    → P unknown
    → All P (or_unknown es)
or_unknown-All P [] h u = (u, tt)
or_unknown-All P (e ∷ es) h u = h

module _ (P : ParsedEvent → Type 0) (decode : String → Option (List ℕ)) {N : Type 0}
    (num : Numbers N) (programs : Programs) (logs : List String) (wallet : String) where
  -- The events of a transaction, parser by parser.
  pub parse_transaction-All :
      (rpc : ℕ → Answer)
      → let v = involved programs logs in
        ((tx : Tx)
          → fetch rpc ≡ some tx
          → v.byreal ≡ true
          → All P (parse_byreal_operations programs tx logs v.memo wallet))
        → ((tx : Tx)
            → fetch rpc ≡ some tx
            → v.byreal ≡ false
            → All P (parse_orca_operations decode programs tx wallet))
        → ((tx : Tx)
            → fetch rpc ≡ some tx
            → v.byreal ≡ false
            → All P (parse_meteora_operations decode programs tx wallet))
        → ((tx : Tx)
            → fetch rpc ≡ some tx
            → v.byreal ≡ false
            → v.pcs ≡ true
            → All P (parse_pcs_operations programs tx logs v.memo wallet))
        → ((tx : Tx)
            → fetch rpc ≡ some tx
            → v.byreal ≡ false
            → All P (parse_dammv2_operations decode tx wallet))
        → (v.byreal ≡ false → (s : JupiterSwap) → IsSwap s → P (jupiter_swap s))
        → P unknown
        → All P (parse_transaction decode num programs rpc logs wallet)
  unfolding parse_transaction dex_events
  parse_transaction-All rpc byreal orca meteora pcs dammv2 swap u = spam (
      not v.byreal
      && (not v.orca && (not v.meteora && (not v.pcs && (not v.dammv2 && is_spam logs)))))
    where
      v : Involved
      v = involved programs logs

      or_fail :
          (t : Bool) (es : List ParsedEvent) → All P es → All P (if t then unknown ∷ [] else es)
      or_fail true es h = (u, tt)
      or_fail false es h = h

      fetched :
          (o : Option Tx)
          → fetch rpc ≡ o
          → All P (parse_fetched decode num programs v o logs wallet)
      fetched none e = (u, tt)
      fetched (some tx) e = or_fail tx.err _ (
          or_unknown-All P _
            (with_swap-All P num decode v.byreal tx wallet
              (dex_events decode num programs v tx logs wallet) (λ b _. swap b)
              (All-append P _ _ (All-if P v.byreal _ (byreal tx e)) (
                All-append P _ _
                  (All-if P (v.orca && not v.byreal) _ (λ g. orca tx e (ground (arith, g))))
                  (All-append P _ _
                    (All-if P (v.meteora && (not v.byreal && not v.orca)) _
                      (λ g. meteora tx e (ground (arith, g))))
                    (All-append P _ _
                      (All-if P (v.pcs && (not v.byreal && (not v.orca && not v.meteora))) _
                        (λ g. pcs tx e (ground (arith, g)) (ground (arith, g))))
                      (All-if P (v.dammv2 && (not v.byreal && not v.orca)) _
                        (λ g. dammv2 tx e (ground (arith, g)))))))))
            u)

      spam :
          (t : Bool)
          → All P (
              if t
              then unknown ∷ []
              else parse_fetched decode num programs v (fetch rpc) logs wallet)
      spam true = (u, tt)
      spam false = fetched (fetch rpc) refl
