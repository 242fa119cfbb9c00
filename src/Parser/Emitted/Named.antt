-- ===== src/Parser/Emitted/Named.antt =====
-- The positions that the parser of Meteora's DLMM finds: an instruction has the wallet and the
-- position among its accounts (src/monitor/parser.ts).
use clmm_copybot.Common.{
  ℕ, zero, suc, ◌<◌, ◌≡◌, refl, String, Bool, true, false, ◌&&◌, ◌||◌, Option, List, [], ◌∷◌, arith,
  if◌then◌else◌, All, All-append, All-map, any, has, str_eq, eq_refl, length, Bool-cases, inl, inr,
  leb,
}
use clmm_copybot.Parser.{Instruction}
use clmm_copybot.Parser.Instructions.{account_at, accounts_of}
use clmm_copybot.Parser.Meteora.{named, add_once, name_of, positions_of}

-- Whether one of the instructions has both the wallet and the position among its accounts.
abbrev pub names : String → List Instruction → String → Bool
names wallet ixs p = any (λ ix. has wallet (accounts_of ix) && has p (accounts_of ix)) ixs

pub has-account_at :
    (i : ℕ) (accounts : List String) (k : String)
    → i < length accounts
    → str_eq (account_at i accounts) k ≡ true
    → has k accounts ≡ true
has-account_at zero [] k h e = ground arith
has-account_at (suc i) [] k h e = ground arith
has-account_at zero (x ∷ xs) k h e = ground arith
has-account_at (suc i) (x ∷ xs) k h e = ground (arith, has-account_at i xs k)

-- The position at one index and the wallet at another.
pub both_lem :
    (wallet : String) (i j : ℕ) (accounts : List String)
    → (i < length accounts) × (j < length accounts) × (str_eq (account_at i accounts) wallet ≡ true)
    → (has wallet accounts && has (account_at j accounts) accounts) ≡ true
both_lem wallet i j accounts (hi, hj, e) =
    rw
      (
        has-account_at i accounts wallet hi e,
        has-account_at j accounts (account_at j accounts) hj (eq_refl (account_at j accounts)),
      )
      refl

pub or_left : (a b : Bool) → a ≡ true → (a || b) ≡ true
or_left a b h = ground arith

pub or_right : (a b : Bool) → b ≡ true → (a || b) ≡ true
or_right a b h = ground arith

abbrev pub Names : String → List Instruction → String → Type 0
Names wallet ixs p = names wallet ixs p ≡ true

pub later :
    (wallet : String) (ix : Instruction) (ixs : List Instruction) (ps : List String)
    → All (Names wallet ixs) ps
    → All (Names wallet (ix ∷ ixs)) ps
later wallet ix ixs ps h =
    All-map ps
      (λ p k.
        or_right (has wallet (accounts_of ix) && has p (accounts_of ix)) (names wallet ixs p) k)
      h

add_once-All :
    (P : String → Type 0) (x : String) (xs : List String) → P x → All P xs → All P (add_once x xs)
add_once-All P x xs hx hxs = elim (Bool-cases (has x xs)) [
  | inl e ↦ rw e hxs
  | inr n ↦ rw n (All-append P xs (x ∷ []) hxs (hx, tt))
]

module _ (decode : String → Option (List ℕ)) (wallet : String) where
  -- What is seen already may be named by earlier instructions, `all`.
  pub positions_of-Names :
      (p : String → Bool) (sender : ℕ) (every ixs : List Instruction) (seen : List String)
      → sender < 3
      → ((q : String) → Names wallet ixs q → Names wallet every q)
      → All (Names wallet every) seen
      → All (Names wallet every) (positions_of decode p sender ixs wallet seen)
  unfolding positions_of
  positions_of-Names p sender every [] seen h sub hs = hs
  positions_of-Names p sender every (ix ∷ ixs) seen h sub hs =
      positions_of-Names p sender every ixs _ h
        (λ q k.
          sub q (
            or_right (has wallet (accounts_of ix) && has q (accounts_of ix)) (names wallet ixs q)
              k))
        (go
          (named p (name_of decode ix)
            && (leb 3 (length (accounts_of ix))
                && str_eq (account_at sender (accounts_of ix)) wallet))
          refl)
    where
      go :
          (t : Bool)
          → t ≡ (
              named p (name_of decode ix)
              && (leb 3 (length (accounts_of ix))
                  && str_eq (account_at sender (accounts_of ix)) wallet))
          → All
              (Names wallet every)
              (if t then add_once (account_at 0 (accounts_of ix)) seen else seen)
      go false e = hs
      go true e =
          add_once-All (Names wallet every) (account_at 0 (accounts_of ix)) seen
            (sub (account_at 0 (accounts_of ix)) (
              or_left _ (names wallet ixs (account_at 0 (accounts_of ix))) (
                both_lem wallet sender 0 (accounts_of ix)
                  (ground (arith, e), ground (arith, e), ground (arith, e)))))
            hs
