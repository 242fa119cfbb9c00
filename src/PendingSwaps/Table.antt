-- ===== src/PendingSwaps/Table.antt =====
-- The table `pending_swaps` follows the store, and what is done for one mint leaves the others
-- alone (src/state/pending-swaps-store.ts).
use mathlib.Core.Option
use clmm_copybot.Common.{
  ℕ, ◌≤◌, ◌≡◌, ◌≢◌, ◌∙◌, refl, sym, Bool, true, String, Option, none, some, List, [], ◌∷◌, arith,
  length, eq_iff, All,
}
use clmm_copybot.Common.Dict.{lookup, lookup-insert, lookup-delete}
use clmm_copybot.WriteChain.{enable, drain, replay}
use clmm_copybot.WriteChain.Drain.{
  drain-eq-replay, Mirrors, Mirrors-insert, Mirrors-delete, Mirrors-clear,
}
use clmm_copybot.PendingSwaps.{
  PendingSwapEntry, Store, new, init_pending_swaps, set_pending_swap, add_pending, add_bot_received,
  delete_pending_swap, clear_pending_swaps,
}

-- A call of one of the operations that change the store.
pub data Call (X : Type 0) : Type 0 where
  set_call : String → PendingSwapEntry X → Call X
  add_pending_call : X → ℕ → String → ℕ → Call X
  add_bot_received_call : X → ℕ → String → ℕ → Call X
  delete_call : String → Call X
  clear_call : Call X

module _ {X : Type 0} where
  unfoldable pub call : Call X → Store X → Store X
  call (set_call mint e) s = set_pending_swap mint e s
  call (add_pending_call x0 now mint amount) s = (add_pending x0 now mint amount s).0
  call (add_bot_received_call x0 now mint amount) s = (add_bot_received x0 now mint amount s).0
  call (delete_call mint) s = delete_pending_swap mint s
  call clear_call s = clear_pending_swaps s

  unfoldable pub run : List (Call X) → Store X → Store X
  unfolding call
  run [] s = s
  run (c ∷ cs) s = run cs (call c s)

  abbrev same : PendingSwapEntry X → PendingSwapEntry X
  same e = e

  abbrev Follows : List (String × PendingSwapEntry X) → Store X → Type 0
  Follows rows s = Mirrors same rows s.map s.writes

  call-Follows :
      (rows : List (String × PendingSwapEntry X)) (c : Call X) (s : Store X)
      → Follows rows s
      → Follows rows (call c s)
  unfolding call set_pending_swap add_pending add_bot_received delete_pending_swap
      clear_pending_swaps
  call-Follows rows (set_call mint e) s h = Mirrors-insert same rows s.map s.writes h mint e
  call-Follows rows (add_pending_call x0 now mint amount) s h =
      Mirrors-insert same rows s.map s.writes h mint _
  call-Follows rows (add_bot_received_call x0 now mint amount) s h =
      Mirrors-insert same rows s.map s.writes h mint _
  call-Follows rows (delete_call mint) s h = Mirrors-delete same rows s.map s.writes h mint
  call-Follows rows clear_call s h = Mirrors-clear same rows s.map s.writes h

  run-Follows :
      (rows : List (String × PendingSwapEntry X)) (cs : List (Call X)) (s : Store X)
      → Follows rows s
      → Follows rows (run cs s)
  unfolding run
  run-Follows rows [] s h = h
  run-Follows rows (c ∷ cs) s h = run-Follows rows cs (call c s) (call-Follows rows c s h)

  map-same : (o : Option (PendingSwapEntry X)) → Option.map same o ≡ o
  map-same none = refl
  map-same (some e) = refl

  init-Follows :
      (rows : List (String × PendingSwapEntry X)) → Follows rows (init_pending_swaps rows new)
  unfolding init_pending_swaps enable replay
  init-Follows rows = (refl, λ k. sym (map-same (lookup k rows)))

  -- After the store has been loaded from the table, whatever calls the executors and the dashboard
  -- make, in any order: once the queued writes are drained, each accepted at one of its attempts,
  -- the table holds exactly the entries that the memory holds.
  pub table-eq-memory :
      (rows : List (String × PendingSwapEntry X)) (cs : List (Call X)) (delays : List ℕ)
      (ok : ℕ → ℕ → Bool)
      → ((j : ℕ) → (i : ℕ) × (i ≤ length delays) × (ok j i ≡ true))
      → (mint : String)
      → let s = run cs (init_pending_swaps rows new) in
        lookup mint (drain delays ok 0 s.writes.queue rows) ≡ lookup mint s.map
  table-eq-memory rows cs delays ok good mint =
      let s = run cs (init_pending_swaps rows new) in
      rw (drain-eq-replay delays ok 0 s.writes.queue rows good) (
        (run-Follows rows cs (init_pending_swaps rows new) (init-Follows rows)).1 mint
        ∙ map-same (lookup mint s.map))

  -- Whether a call names no mint but others than this one.
  abbrev pub Spares : String → Call X → Type 0
  Spares mint (set_call m e) = m ≢ mint
  Spares mint (add_pending_call x0 now m amount) = m ≢ mint
  Spares mint (add_bot_received_call x0 now m amount) = m ≢ mint
  Spares mint (delete_call m) = m ≢ mint
  Spares mint clear_call = ⊥

  call-Spares :
      (mint : String) (c : Call X) (s : Store X)
      → Spares mint c
      → lookup mint (call c s).map ≡ lookup mint s.map
  unfolding call set_pending_swap add_pending add_bot_received delete_pending_swap
  call-Spares mint (set_call m e) s h = ground (arith, eq_iff m mint, lookup-insert mint m e s.map)
  call-Spares mint (add_pending_call x0 now m amount) s h =
      rw lookup-insert (ground (arith, eq_iff m mint))
  call-Spares mint (add_bot_received_call x0 now m amount) s h =
      rw lookup-insert (ground (arith, eq_iff m mint))
  call-Spares mint (delete_call m) s h = ground (arith, eq_iff m mint, lookup-delete mint m s.map)
  call-Spares mint clear_call s h = absurd h

  -- A write for one mint cannot touch another: calls that name other mints only leave a mint's
  -- entry as it was, however many and in whatever order.
  pub run-Spares :
      (mint : String) (cs : List (Call X)) (s : Store X)
      → All (Spares mint) cs
      → lookup mint (run cs s).map ≡ lookup mint s.map
  unfolding run
  run-Spares mint [] s h = refl
  run-Spares mint (c ∷ cs) s (h, hs) = run-Spares mint cs (call c s) hs ∙ call-Spares mint c s h
