-- ===== src/Parser/Outcome/Errors.antt =====
-- Transactions that cannot be read, and the attempts to fetch one (src/monitor/parser.ts,
-- `parseTransaction`).
use clmm_copybot.Common.{
  ℕ, zero, suc, ◌<◌, ◌≡◌, ◌⊎◌, inl, inr, refl, String, Bool, true, false, ◌&&◌, ◌||◌, not, Option,
  none, some, List, [], ◌∷◌, arith, if◌then◌else◌,
}
use clmm_copybot.Parser.{Tx, Programs, ParsedEvent, unknown}
use clmm_copybot.Parser.Swap.{Numbers}
use clmm_copybot.Parser.Transaction.{
  Answer, found, not_yet, failed, first_of, fetch, involved, Involved, is_spam, or_unknown,
  parse_fetched, parse_transaction,
}

abbrev pub is_found : Answer → Bool
is_found (found tx) = true
is_found not_yet = false
is_found failed = false

fetch_steps :
    (rpc : ℕ → Answer) → fetch rpc ≡ first_of (rpc 0) (first_of (rpc 1) (first_of (rpc 2) none))
unfolding fetch
fetch_steps rpc = refl

skip : (a : Answer) (rest : Option Tx) → is_found a ≡ false → first_of a rest ≡ rest
skip (found tx) rest h = absurd (ground (arith, h))
skip not_yet rest h = refl
skip failed rest h = refl

-- A transaction that the node returns at the third attempt at the latest is read, whatever the
-- attempts before it did: returned nothing yet, or threw.
pub fetch_lem :
    (rpc : ℕ → Answer) (tx : Tx) (j : ℕ)
    → j < 3
    → rpc j ≡ found tx
    → ((i : ℕ) → i < j → is_found (rpc i) ≡ false)
    → fetch rpc ≡ some tx
fetch_lem rpc tx zero h e before = rw (fetch_steps rpc) (rw e refl)
fetch_lem rpc tx (suc zero) h e before =
    rw (fetch_steps rpc) (rw (skip (rpc 0) _ (before 0 (omega arith))) (rw e refl))
fetch_lem rpc tx (suc (suc zero)) h e before = rw (fetch_steps rpc) (
    rw (skip (rpc 0) _ (before 0 (omega arith)))
      (rw (skip (rpc 1) _ (before 1 (omega arith))) (rw e refl)))
fetch_lem rpc tx (suc (suc (suc j))) h e before = absurd (ground (arith, h))

fetch-none :
    (rpc : ℕ → Answer)
    → (is_found (rpc 0) || (is_found (rpc 1) || is_found (rpc 2))) ≡ false
    → fetch rpc ≡ none
fetch-none rpc h = rw (fetch_steps rpc) (
    rw (skip (rpc 0) _ (ground (arith, h)))
      (rw (skip (rpc 1) _ (ground (arith, h))) (rw (skip (rpc 2) _ (ground (arith, h))) refl)))

-- None of the three answers has the transaction, or the transaction has failed on the chain.
abbrev pub IsUnreadable : (ℕ → Answer) → Type 0
IsUnreadable rpc =
    ((is_found (rpc 0) || (is_found (rpc 1) || is_found (rpc 2))) ≡ false)
    ⊎ ((tx : Tx) × ((fetch rpc ≡ some tx) × (tx.err ≡ true)))

if_same : {A : Type 0} (t : Bool) (x y : A) → y ≡ x → (if t then x else y) ≡ x
if_same true x y h = refl
if_same false x y h = h

abbrev pub IsNonempty : List ParsedEvent → Type 0
IsNonempty [] = ⊥
IsNonempty (e ∷ es) = Unit

or_unknown-IsNonempty : (es : List ParsedEvent) → IsNonempty (or_unknown es)
or_unknown-IsNonempty [] = tt
or_unknown-IsNonempty (e ∷ es) = tt

if-IsNonempty :
    (t : Bool) (xs ys : List ParsedEvent)
    → IsNonempty xs
    → IsNonempty ys
    → IsNonempty (if t then xs else ys)
if-IsNonempty true xs ys hx hy = hx
if-IsNonempty false xs ys hx hy = hy

module _ (decode : String → Option (List ℕ)) (N : Type 0) (num : Numbers N) (programs : Programs)
    (rpc : ℕ → Answer) (logs : List String) (wallet : String) where
  abbrev quiet : Involved → Bool
  quiet v =
      not v.byreal
      && (not v.orca && (not v.meteora && (not v.pcs && (not v.dammv2 && is_spam logs))))

  -- There is always an event to handle.
  pub parse_transaction-IsNonempty :
      IsNonempty (parse_transaction decode num programs rpc logs wallet)
  unfolding parse_transaction
  parse_transaction-IsNonempty =
      if-IsNonempty (quiet (involved programs logs)) (unknown ∷ []) _ tt (go (fetch rpc))
    where
      go :
          (o : Option Tx)
          → IsNonempty (parse_fetched decode num programs (involved programs logs) o logs wallet)
      go none = tt
      go (some tx) = if-IsNonempty tx.err (unknown ∷ []) _ tt (or_unknown-IsNonempty _)

  -- Where none of the three answers has the transaction, or the transaction has failed on the
  -- chain, the unknown event is all that is read, whatever the logs say.
  pub parse_transaction_unreadable :
      IsUnreadable rpc → parse_transaction decode num programs rpc logs wallet ≡ unknown ∷ []
  unfolding parse_transaction
  parse_transaction_unreadable (inl h) =
      rw (fetch-none rpc h)
        (if_same (quiet (involved programs logs)) (unknown ∷ []) (unknown ∷ []) refl)
  parse_transaction_unreadable (inr (tx, (e, f))) =
      rw e (rw f (if_same (quiet (involved programs logs)) (unknown ∷ []) (unknown ∷ []) refl))
