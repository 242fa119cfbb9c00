-- ===== src/Parser/Transaction.antt =====
-- A transaction, fetched and parsed into events (src/monitor/parser.ts, `parseTransaction`).
-- What the RPC node answers at each of the attempts is the environment's.
use clmm_copybot.Common.{
  ℕ, suc, zero, String, Bool, ◌&&◌, not, Option, none, some, List, [], ◌∷◌, ◌++◌, leb,
  if◌then◌else◌, str_eq, includes, any,
}
use clmm_copybot.Parser.{Tx, Programs, ParsedEvent, unknown}
use clmm_copybot.Parser.Byreal.{parse_byreal_operations}
use clmm_copybot.Parser.Pcs.{parse_pcs_operations}
use clmm_copybot.Parser.Orca.{parse_orca_operations}
use clmm_copybot.Parser.Meteora.{parse_meteora_operations}
use clmm_copybot.Parser.Dammv2.{parse_dammv2_operations, dammv2_program_id}
use clmm_copybot.Parser.Swap.{Numbers, parse_jupiter_swap}

unfoldable pub involves : String → List String → Bool
involves program logs = any (λ l. includes l program) logs

abbrev pub count_system_success : List String → ℕ
count_system_success [] = 0
count_system_success (l ∷ logs) =
    let n = count_system_success logs in
    if str_eq l "Program 11111111111111111111111111111111 success" then suc n else n

-- Many transfers of SOL without a compute budget.
unfoldable pub is_spam : List String → Bool
is_spam logs =
    leb 5 (count_system_success logs)
    && not (any (λ l. includes l "Program ComputeBudget111111111111111111111111111111 invoke") logs)

-- An attempt of the loop returns a transaction, nothing yet, or throws.
pub data Answer : Type 0 where
  found : Tx → Answer
  not_yet : Answer
  failed : Answer

-- The loop breaks at an answer with a transaction.
abbrev pub first_of : Answer → Option Tx → Option Tx
first_of (found tx) rest = some tx
first_of not_yet rest = rest
first_of failed rest = rest

-- `left` attempts, the next with number `i`.
abbrev pub try_fetch : ℕ → ℕ → (ℕ → Answer) → Option Tx
try_fetch zero i rpc = none
try_fetch (suc left) i rpc = let rest = try_fetch left (suc i) rpc in first_of (rpc i) rest

unfoldable pub fetch : (ℕ → Answer) → Option Tx
fetch rpc = try_fetch 3 0 rpc

-- Which of the programs the logs name.
pub record Involved : Type 0 where
  pub byreal : Bool
  pub orca : Bool
  pub meteora : Bool
  pub pcs : Bool
  pub dammv2 : Bool
  pub memo : Bool

unfoldable pub involved : Programs → List String → Involved
unfolding involves
involved programs logs = record {
  byreal = involves programs.byreal logs;
  orca = involves programs.orca logs;
  meteora = involves programs.meteora logs;
  pcs = programs.pcs_enabled && involves programs.pcs logs;
  dammv2 = involves dammv2_program_id logs;
  memo = involves programs.memo logs;
}

abbrev pub or_unknown : List ParsedEvent → List ParsedEvent
or_unknown [] = unknown ∷ []
or_unknown (e ∷ es) = e ∷ es

abbrev pub swap_event : Option ParsedEvent → List ParsedEvent
swap_event none = []
swap_event (some e) = e ∷ []

module _ (decode : String → Option (List ℕ)) {N : Type 0} (num : Numbers N) where
  -- The parsers of the exchanges, each where the earlier ones are not involved.
  unfoldable pub dex_events : Programs → Involved → Tx → List String → String → List ParsedEvent
  dex_events programs v tx logs wallet =
      (if v.byreal then parse_byreal_operations programs tx logs v.memo wallet else [])
      ++ ((if v.orca && not v.byreal then parse_orca_operations decode programs tx wallet else [])
          ++ ((if v.meteora && (not v.byreal && not v.orca)
                then parse_meteora_operations decode programs tx wallet
                else [])
              ++ ((if v.pcs && (not v.byreal && (not v.orca && not v.meteora))
                    then parse_pcs_operations programs tx logs v.memo wallet
                    else [])
                  ++ (if v.dammv2 && (not v.byreal && not v.orca)
                      then parse_dammv2_operations decode tx wallet
                      else []))))

  abbrev pub with_swap : Bool → Tx → String → List ParsedEvent → List ParsedEvent
  with_swap byreal tx wallet [] =
      if byreal then [] else swap_event (parse_jupiter_swap num tx wallet)
  with_swap byreal tx wallet (e ∷ es) = e ∷ es

  abbrev pub parse_fetched :
      Programs → Involved → Option Tx → List String → String → List ParsedEvent
  parse_fetched programs v none logs wallet = unknown ∷ []
  parse_fetched programs v (some tx) logs wallet =
      if tx.err
      then unknown ∷ []
      else or_unknown (with_swap v.byreal tx wallet (dex_events programs v tx logs wallet))

  unfoldable pub parse_transaction :
      Programs → (ℕ → Answer) → List String → String → List ParsedEvent
  unfolding fetch involved dex_events
  parse_transaction programs rpc logs wallet =
      let v = involved programs logs in
      if not v.byreal
        && (not v.orca && (not v.meteora && (not v.pcs && (not v.dammv2 && is_spam logs))))
      then unknown ∷ []
      else parse_fetched programs v (fetch rpc) logs wallet
