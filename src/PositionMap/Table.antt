-- ===== src/PositionMap/Table.antt =====
-- The table `positions` follows the position map: whatever operations run, draining the chain
-- leaves the rows in agreement with the memory (src/state/position-map.ts).
use mathlib.Core.Option
use clmm_copybot.Common.{
  ℕ, ◌≤◌, ◌≡◌, refl, Bool, true, String, Option, none, some, List, [], ◌∷◌, length, Bool-cases, inl,
  inr, is_some, is_text,
}
use clmm_copybot.Common.Dict.{lookup, map_values, lookup-map_values}
use clmm_copybot.Common.Int.{ℤ}
use clmm_copybot.WriteChain.{modify, enable, drain, replay}
use clmm_copybot.WriteChain.Drain.{
  drain-eq-replay, Mirrors, Mirrors-insert, Mirrors-delete, Mirrors-update,
}
use clmm_copybot.PositionMap.{
  Entry, Row, PositionMap, new, init, set, delete_mapping, find_by_our_nft, delete_found,
  delete_by_our_nft, change, set_dex, set_pool, set_locked_sol, set_target_liquidity,
}

-- What a row keeps of an entry: all but `createdAt`.
abbrev pub to_row : {S : Type 0} → Entry S → Row S
to_row e = record {
  our_nft = e.our_nft;
  pool = e.pool;
  target_wallet = e.target_wallet;
  locked_sol = e.locked_sol;
  tick_lower = e.tick_lower;
  tick_upper = e.tick_upper;
  dex = e.dex;
  target_liquidity = e.target_liquidity;
}

-- A call of one of the operations that change the map.
pub data Call (S : Type 0) : Type 0 where
  set_call :
      String
      → String
      → Option String
      → Option String
      → Option ℤ
      → Option ℤ
      → Option String
      → ℕ
      → Call S
  delete_call : String → Call S
  delete_by_our_nft_call : String → Call S
  set_dex_call : String → String → Call S
  set_pool_call : String → String → Call S
  set_locked_sol_call : String → S → Call S
  set_target_liquidity_call : String → String → Call S

module _ {S : Type 0} where
  unfoldable pub call : Call S → PositionMap S → PositionMap S
  call (set_call nft our pool wallet lower upper dex now) m =
      set nft our pool wallet lower upper dex now m
  call (delete_call nft) m = delete_mapping nft m
  call (delete_by_our_nft_call our) m = (delete_by_our_nft our m).0
  call (set_dex_call nft dex) m = set_dex nft dex m
  call (set_pool_call nft pool) m = set_pool nft pool m
  call (set_locked_sol_call nft sol) m = set_locked_sol nft sol m
  call (set_target_liquidity_call nft l) m = set_target_liquidity nft l m

  unfoldable pub run : List (Call S) → PositionMap S → PositionMap S
  unfolding call
  run [] m = m
  run (c ∷ cs) m = run cs (call c m)

  abbrev pub Follows : List (String × Row S) → PositionMap S → Type 0
  Follows rows m = Mirrors to_row rows m.map m.writes

  change-Follows :
      (rows : List (String × Row S)) (nft : String) (f : Entry S → Entry S) (g : Row S → Row S)
      (m : PositionMap S)
      → ((e : Entry S) → g (to_row e) ≡ to_row (f e))
      → Follows rows m
      → Follows rows (change nft f (modify nft g) m)
  change-Follows rows nft f g m same h = elim (Bool-cases (is_some (lookup nft m.map))) [
    | inl there ↦ rw there (Mirrors-update to_row rows m.map m.writes h nft f g same)
    | inr missing ↦ rw missing h
  ]

  delete-Follows :
      (rows : List (String × Row S)) (nft : String) (m : PositionMap S)
      → Follows rows m
      → Follows rows (delete_mapping nft m)
  unfolding delete_mapping
  delete-Follows rows nft m h = Mirrors-delete to_row rows m.map m.writes h nft

  delete_found-Follows :
      (rows : List (String × Row S)) (o : Option String) (m : PositionMap S)
      → Follows rows m
      → Follows rows (delete_found o m).0
  delete_found-Follows rows none m h = h
  delete_found-Follows rows (some nft) m h = elim (Bool-cases (is_text nft)) [
    | inl key ↦ rw key (delete-Follows rows nft m h)
    | inr blank ↦ rw blank h
  ]

  call-Follows :
      (rows : List (String × Row S)) (c : Call S) (m : PositionMap S)
      → Follows rows m
      → Follows rows (call c m)
  unfolding call set set_dex set_pool set_locked_sol set_target_liquidity delete_by_our_nft
  call-Follows rows (set_call nft our pool wallet lower upper dex now) m h =
      Mirrors-insert to_row rows m.map m.writes h nft _
  call-Follows rows (delete_call nft) m h = delete-Follows rows nft m h
  call-Follows rows (delete_by_our_nft_call our) m h =
      delete_found-Follows rows (find_by_our_nft our m) m h
  call-Follows rows (set_dex_call nft dex) m h = change-Follows rows nft _ _ m (λ e. refl) h
  call-Follows rows (set_pool_call nft pool) m h = change-Follows rows nft _ _ m (λ e. refl) h
  call-Follows rows (set_locked_sol_call nft sol) m h = change-Follows rows nft _ _ m (λ e. refl) h
  call-Follows rows (set_target_liquidity_call nft l) m h =
      change-Follows rows nft _ _ m (λ e. refl) h

  run-Follows :
      (rows : List (String × Row S)) (cs : List (Call S)) (m : PositionMap S)
      → Follows rows m
      → Follows rows (run cs m)
  unfolding run
  run-Follows rows [] m h = h
  run-Follows rows (c ∷ cs) m h = run-Follows rows cs (call c m) (call-Follows rows c m h)

  init-Follows :
      (loaded : List (String × Entry S)) → Follows (map_values to_row loaded) (init loaded new)
  unfolding init enable replay
  init-Follows loaded = (refl, λ k. lookup-map_values to_row k loaded)

  -- After `init` has loaded the table, whatever operations run on the map: once the queued writes
  -- are drained, each of them accepted at one of its attempts, every key has a row in the table
  -- exactly if it has an entry in memory, with the same fields (all but `createdAt`).
  pub drained-eq-memory :
      (loaded : List (String × Entry S)) (cs : List (Call S)) (delays : List ℕ) (ok : ℕ → ℕ → Bool)
      → ((j : ℕ) → (i : ℕ) × (i ≤ length delays) × (ok j i ≡ true))
      → (nft : String)
      → let m = run cs (init loaded new) in
        lookup nft (drain delays ok 0 m.writes.queue (map_values to_row loaded))
        ≡ Option.map to_row (lookup nft m.map)
  drained-eq-memory loaded cs delays ok good nft =
      let m = run cs (init loaded new) in
      let rows = map_values to_row loaded in
      rw (drain-eq-replay delays ok 0 m.writes.queue rows good)
        ((run-Follows rows cs (init loaded new) (init-Follows loaded)).1 nft)
