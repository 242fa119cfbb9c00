-- ===== src/Parser/Emitted/Meteora.antt =====
-- The events of the parser of Meteora's DLMM: each is on a position that an instruction of the
-- wallet names (src/monitor/parser.ts).
use clmm_copybot.Common.{
  ℕ, ◌+◌, ◌≡◌, refl, String, Bool, true, false, ◌&&◌, ◌||◌, not, Option, List, [], ◌∷◌, arith,
  if◌then◌else◌, All, All-append, All-if, has, str_eq, length, leb, ltb, value_or,
}
use clmm_copybot.Common.Int.{ℤ}
use clmm_copybot.PendingSwaps.Executor.{Received}
use clmm_copybot.Parser.{
  Instruction, Tx, Programs, ParsedEvent, meteora_open_position, meteora_close_position,
  meteora_add_liquidity, meteora_remove_liquidity,
}
use clmm_copybot.Parser.Balances.{parse_bot_received_tokens}
use clmm_copybot.Parser.Instructions.{account_at, accounts_of, decoded}
use clmm_copybot.Parser.Meteora.{
  find_all_meteora_instructions, no_flags, meteora_flags, is_close, is_add, is_remove, is_claim,
  is_init, named, name_of, positions_of, first_claim, adds, removes, meteora_closes,
  removed_or_claimed, closed_or_removed, bin_range, parse_meteora_open_positions,
  parse_meteora_add_liquidity, parse_meteora_remove_or_close, parse_meteora_operations,
}
use clmm_copybot.Parser.Emitted.Named.{
  Names, names, both_lem, or_left, or_right, positions_of-Names,
}

module _ (decode : String → Option (List ℕ)) (wallet : String) where
  module _ (P : ParsedEvent → Type 0) where
    adds-All :
        (ixs : List Instruction) (ps : List String)
        → ((q : String) → Names wallet ixs q → P (meteora_add_liquidity q))
        → All (Names wallet ixs) ps
        → All P (adds ps)
    adds-All ixs [] f h = tt
    adds-All ixs (q ∷ ps) f (h, hs) = (f q h, adds-All ixs ps f hs)

    removes-All :
        (ixs : List Instruction) (ps : List String)
        → ((q : String) → Names wallet ixs q → P (meteora_remove_liquidity q))
        → All (Names wallet ixs) ps
        → All P (removes ps)
    removes-All ixs [] f h = tt
    removes-All ixs (q ∷ ps) f (h, hs) = (f q h, removes-All ixs ps f hs)

    closes-All :
        (ixs : List Instruction) (rs : List Received) (ps : List String)
        → ((q : String) → Names wallet ixs q → P (meteora_close_position q rs))
        → All (Names wallet ixs) ps
        → All P (meteora_closes rs ps)
    closes-All ixs rs [] f h = tt
    closes-All ixs rs (q ∷ ps) f (h, hs) = (f q h, closes-All ixs rs ps f hs)

    first_claim-All :
        (every ixs : List Instruction)
        → ((q : String) → Names wallet ixs q → Names wallet every q)
        → ((q : String) → Names wallet every q → P (meteora_remove_liquidity q))
        → All P (first_claim decode ixs wallet)
    unfolding first_claim
    first_claim-All every [] sub f = tt
    first_claim-All every (ix ∷ ixs) sub f =
        go
          (first_claim-All every ixs
            (λ q k. sub q (
              or_right (has wallet (accounts_of ix) && has q (accounts_of ix)) (names wallet ixs q)
                k))
            f)
          (str_eq (value_or (name_of decode ix) "") "claim_fee2")
          (named is_claim (name_of decode ix)
            && (leb 3 (length (accounts_of ix)) && str_eq (account_at 2 (accounts_of ix)) wallet))
          refl
      where
        go :
            All P (first_claim decode ixs wallet)
            → (two t : Bool)
            → t ≡ (
                named is_claim (name_of decode ix)
                && (leb 3 (length (accounts_of ix))
                    && str_eq (account_at 2 (accounts_of ix)) wallet))
            → All P (
                if t
                then meteora_remove_liquidity (account_at (if two then 1 else 0) (accounts_of ix))
                  ∷ []
                else first_claim decode ixs wallet)
        go later two false e = later
        go later two true e = (
          f (account_at (if two then 1 else 0) (accounts_of ix)) (
              sub (account_at (if two then 1 else 0) (accounts_of ix)) (
                or_left _ (names wallet ixs (account_at (if two then 1 else 0) (accounts_of ix))) (
                  both_lem wallet 2 (if two then 1 else 0) (accounts_of ix)
                    (ground (arith, e), ground (arith, e), ground (arith, e))))),
          tt,
        )

    opens-All :
        (every ixs : List Instruction)
        → ((q : String) → Names wallet ixs q → Names wallet every q)
        → ((pool : String) (a b : ℤ) (q : String)
            → Names wallet every q
            → P (meteora_open_position pool a b q))
        → All P (parse_meteora_open_positions decode ixs wallet)
    unfolding parse_meteora_open_positions
    opens-All every [] sub f = tt
    opens-All every (ix ∷ ixs) sub f =
        go
          (opens-All every ixs
            (λ q k. sub q (
              or_right (has wallet (accounts_of ix) && has q (accounts_of ix)) (names wallet ixs q)
                k))
            f)
          (if str_eq (value_or (name_of decode ix) "") "initialize_position_pda" then 1 else 0) _
          refl
      where
        go :
            All P (parse_meteora_open_positions decode ixs wallet)
            → (shift : ℕ) (t : Bool)
            → t ≡ (
                named is_init (name_of decode ix)
                && (ltb (2 + shift) (length (accounts_of ix))
                    && str_eq (account_at 0 (accounts_of ix)) wallet))
            → All P (
                if t
                then meteora_open_position
                    (account_at (2 + shift) (accounts_of ix))
                    (bin_range (decoded decode ix.data_text)).0
                    (bin_range (decoded decode ix.data_text)).1
                    (account_at (1 + shift) (accounts_of ix))
                  ∷ parse_meteora_open_positions decode ixs wallet
                else parse_meteora_open_positions decode ixs wallet)
        go later shift false e = later
        go later shift true e = (
          f _ _ _ (account_at (1 + shift) (accounts_of ix)) (
              sub (account_at (1 + shift) (accounts_of ix)) (
                or_left _ (names wallet ixs (account_at (1 + shift) (accounts_of ix))) (
                  both_lem wallet 0 (1 + shift) (accounts_of ix)
                    (ground (arith, e), ground (arith, e), ground (arith, e))))),
          later,
        )

    remove_or_close-All :
        (tx : Tx) (ixs : List Instruction)
        → ((q : String) (rs : List Received) → Names wallet ixs q → P (meteora_close_position q rs))
        → ((q : String) → Names wallet ixs q → P (meteora_remove_liquidity q))
        → All P (parse_meteora_remove_or_close decode tx ixs wallet)
    unfolding parse_meteora_remove_or_close
    remove_or_close-All tx ixs close remove =
        closed (positions_of decode is_close 1 ixs wallet [])
          (positions_of-Names decode wallet is_close 1 ixs ixs [] (omega arith) (λ q k. k) tt)
      where
        removed :
            (ps : List String)
            → All (Names wallet ixs) ps
            → All P (removed_or_claimed decode ixs wallet ps)
        removed [] h = first_claim-All ixs ixs (λ q k. k) remove
        removed (q ∷ ps) h = removes-All ixs (q ∷ ps) remove h

        closed :
            (ps : List String)
            → All (Names wallet ixs) ps
            → All P (closed_or_removed decode tx ixs wallet ps)
        closed [] h =
            removed (positions_of decode is_remove 2 ixs wallet [])
              (positions_of-Names decode wallet is_remove 2 ixs ixs [] (omega arith) (λ q k. k) tt)
        closed (q ∷ ps) h =
            closes-All ixs (parse_bot_received_tokens tx wallet) (q ∷ ps)
              (λ q. close q (parse_bot_received_tokens tx wallet)) h

    pub meteora-All :
        (programs : Programs) (tx : Tx)
        → let ixs = find_all_meteora_instructions programs tx in
          let f = meteora_flags decode ixs no_flags in
          (f.initialized ≡ true
            → (pool : String) (a b : ℤ) (q : String) → Names wallet ixs q
            → P (meteora_open_position pool a b q))
          → (f.initialized ≡ false
              → (q : String) → Names wallet ixs q
              → P (meteora_add_liquidity q))
          → ((q : String) (rs : List Received)
              → Names wallet ixs q
              → P (meteora_close_position q rs))
          → ((q : String) → Names wallet ixs q → P (meteora_remove_liquidity q))
          → All P (parse_meteora_operations decode programs tx wallet)
    unfolding parse_meteora_operations parse_meteora_add_liquidity
    meteora-All programs tx opened add close remove =
        let ixs = find_all_meteora_instructions programs tx in
        let f = meteora_flags decode ixs no_flags in
        All-append P _ _ (All-if P f.initialized _ (λ o. opens-All ixs ixs (λ q k. k) (opened o))) (
          All-append P _ _
            (All-if P (f.added && not f.initialized) _ (λ i.
              adds-All ixs (positions_of decode is_add 2 ixs wallet []) (add (ground (arith, i)))
                (positions_of-Names decode wallet is_add 2 ixs ixs [] (omega arith) (λ q k. k) tt)))
            (All-append P _ _
              (All-if P ((f.removed && not f.initialized) || f.closed) _
                (λ d. remove_or_close-All tx ixs close remove))
              (All-if P
                (f.claimed
                  && (not f.removed && (not f.closed && (not f.initialized && not f.added))))
                _ (λ d. remove_or_close-All tx ixs close remove))))
