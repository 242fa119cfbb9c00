-- ===== src/PendingSwaps.antt =====
-- Tokens received from closed positions, held until the target swaps its own:
-- src/state/pending-swaps-store.ts, with the statements of src/state/repo/pendingSwaps.ts.
-- Amounts, decimal strings in the source, are numbers here; `X` is the type of the further fields
-- that an entry may carry.
pub mod Executor
pub mod Table
pub mod Sums
pub mod Proportion
mod Tests
use clmm_copybot.Common.{
  ℕ, ◌+◌, String, Bool, true, false, Option, none, some, List, [], ◌∷◌, length, value_or,
}
use clmm_copybot.Common.Dict.{lookup, insert, delete}
use clmm_copybot.WriteChain.{Write, upsert, remove, remove_all, Chain, idle, enable, push}

-- `bot_received` is missing in entries of an older shape.
pub record PendingSwapEntry (X : Type 0) : Type 0 where
  pub pending : ℕ
  pub bot_received : Option ℕ
  pub created_at : ℕ
  pub extra : X

pub record Store (X : Type 0) : Type 0 where
  pub map : List (String × PendingSwapEntry X)
  pub writes : Chain (PendingSwapEntry X)

module _ {X : Type 0} where
  abbrev pub new : Store X
  new = record { map = []; writes = idle }

  -- The statements of the repository.
  abbrev pub pending_swaps_set : String → PendingSwapEntry X → Write (PendingSwapEntry X)
  pending_swaps_set mint payload = upsert mint payload

  abbrev pub pending_swaps_delete : String → Write (PendingSwapEntry X)
  pending_swaps_delete mint = remove mint

  abbrev pub pending_swaps_clear : Write (PendingSwapEntry X)
  pending_swaps_clear = remove_all

  unfoldable pub init_pending_swaps : List (String × PendingSwapEntry X) → Store X → Store X
  init_pending_swaps rows s = record { map = rows; writes = enable s.writes }

  unfoldable pub count_pending_swaps : Store X → ℕ
  count_pending_swaps s = length s.map

  unfoldable pub get_pending_swap : String → Store X → Option (PendingSwapEntry X)
  get_pending_swap mint s = lookup mint s.map

  -- `x0` stands for no further fields.
  abbrev pub seed : X → ℕ → PendingSwapEntry X
  seed x0 now = record { pending = 0; bot_received = some 0; created_at = now; extra = x0 }

  abbrev pub persist :
      String → PendingSwapEntry X → Chain (PendingSwapEntry X) → Chain (PendingSwapEntry X)
  persist mint e = push (pending_swaps_set mint e)

  unfoldable pub set_pending_swap : String → PendingSwapEntry X → Store X → Store X
  set_pending_swap mint e s = record { map = insert mint e s.map; writes = persist mint e s.writes }

  -- Both additions return the new total.
  unfoldable pub add_pending : X → ℕ → String → ℕ → Store X → Store X × ℕ
  unfolding set_pending_swap
  add_pending x0 now mint amount s =
      let entry = value_or (lookup mint s.map) (seed x0 now) in
      let total = entry.pending + amount in
      (set_pending_swap mint (record entry { pending = total }) s, total)

  unfoldable pub add_bot_received : X → ℕ → String → ℕ → Store X → Store X × ℕ
  unfolding set_pending_swap
  add_bot_received x0 now mint amount s =
      let entry = value_or (lookup mint s.map) (seed x0 now) in
      let total = value_or entry.bot_received 0 + amount in
      (set_pending_swap mint (record entry { bot_received = some total }) s, total)

  unfoldable pub delete_pending_swap : String → Store X → Store X
  delete_pending_swap mint s = record {
    map = delete mint s.map;
    writes = push (pending_swaps_delete mint) s.writes;
  }

  unfoldable pub clear_pending_swaps : Store X → Store X
  clear_pending_swaps s = record { map = []; writes = push pending_swaps_clear s.writes }
