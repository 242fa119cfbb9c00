-- ===== src/Intake.antt =====
-- The intake of transactions: the callback that `main` of src/index.ts gives to `monitor.start`.
pub mod Once
mod Tests
use clmm_copybot.Common.{
  ℕ, String, Bool, true, false, ◌&&◌, ◌||◌, not, Option, none, some, List, [], ◌∷◌, ◌++◌, ltb, leb,
  length, if◌then◌else◌, has, is_text, str_eq, includes, any, concat,
}
use Prim.Native.String.{slice}
use clmm_copybot.Parser.{Programs}
use clmm_copybot.Parser.Dammv2.{dammv2_program_id}
use clmm_copybot.Parser.Transaction.{count_system_success, involves}
use clmm_copybot.Queue.{Queue, high, enqueue}

-- The task that is queued: to parse the transaction of a wallet and to handle its events.
pub record Task : Type 0 where
  pub signature : String
  pub logs : List String
  pub target_wallet : String

-- `processedSignatures`, a set in the order of insertion, and the queue of operations.
pub record Intake : Type 0 where
  pub processed : List String
  pub op_queue : Queue Task

abbrev pub max_processed : ℕ
max_processed = 1000

-- `if (first) processedSignatures.delete(first)`.
abbrev pub drop_first : List String → List String
drop_first [] = []
drop_first (first ∷ rest) = if is_text first then rest else first ∷ rest

unfoldable pub remember : String → List String → List String
remember signature processed =
    let added = processed ++ (signature ∷ []) in
    if ltb max_processed (length added) then drop_first added else added

unfoldable pub involves_dex : Programs → List String → Bool
unfolding involves
involves_dex p logs =
    any
      (λ l.
        includes l p.byreal
        || (includes l p.orca
            || (includes l p.meteora
                || ((p.pcs_enabled && includes l p.pcs) || includes l dammv2_program_id))))
      logs

-- Many transfers of SOL, no compute budget, and no exchange.
unfoldable pub is_filtered : Programs → List String → Bool
unfolding involves_dex
is_filtered p logs =
    not (involves_dex p logs)
    && (leb 5 (count_system_success logs)
        && not (any (λ l. includes l "ComputeBudget111111111111111111111111111111") logs))

-- `TX:${botLabel}:${signature.slice(0, 8)}`. Keys and signatures are ASCII.
abbrev label_of : Task → String
label_of t = concat "TX:" (concat (slice t.target_wallet 0 8) (concat ":" (slice t.signature 0 8)))

unfoldable pub on_transaction : Programs → ℕ → Task → Intake → Intake
unfolding remember is_filtered
on_transaction p now t s =
    if has t.signature s.processed
    then s
    else if is_filtered p t.logs
    then record s { processed = remember t.signature s.processed }
    else record s {
      processed = remember t.signature s.processed;
      op_queue = enqueue (label_of t) high t now s.op_queue;
    }
