-- ===== src/OpenedReferers/Table.antt =====
-- The table `opened_referers` follows the store (src/state/opened-referers-store.ts).
use clmm_copybot.Common.{
  ℕ, ◌≤◌, ◌≡◌, refl, Bool, true, String, Option, none, some, List, [], ◌∷◌, length,
}
use mathlib.Core.Option
use clmm_copybot.Common.Dict.{lookup}
use clmm_copybot.WriteChain.{enable, drain, replay}
use clmm_copybot.WriteChain.Drain.{drain-eq-replay, Mirrors, Mirrors-insert, Mirrors-delete}
use clmm_copybot.OpenedReferers.{
  Entry, Store, new, init_opened_referers, add_opened_referer, find_target, remove_found,
  remove_opened_referer_by_target_nft,
}

-- A call of one of the operations that change the store.
pub data Call : Type 0 where
  add_call : String → String → String → String → ℕ → Call
  remove_call : String → Call

unfoldable pub call : Call → Store → Store
call (add_call r target our wallet now) s = add_opened_referer r target our wallet now s
call (remove_call target) s = (remove_opened_referer_by_target_nft target s).0

unfoldable pub run : List Call → Store → Store
unfolding call
run [] s = s
run (c ∷ cs) s = run cs (call c s)

abbrev Follows : List (String × Entry) → Store → Type 0
Follows rows s = Mirrors (λ (e : Entry). e) rows s.map s.writes

remove_found-Follows :
    (rows : List (String × Entry)) (o : Option String) (s : Store)
    → Follows rows s
    → Follows rows (remove_found o s).0
remove_found-Follows rows none s h = h
remove_found-Follows rows (some r) s h = Mirrors-delete (λ e. e) rows s.map s.writes h r

call-Follows :
    (rows : List (String × Entry)) (c : Call) (s : Store) → Follows rows s → Follows rows (call c s)
unfolding call add_opened_referer remove_opened_referer_by_target_nft
call-Follows rows (add_call r target our wallet now) s h =
    Mirrors-insert (λ e. e) rows s.map s.writes h r _
call-Follows rows (remove_call target) s h =
    remove_found-Follows rows (find_target target s.map) s h

run-Follows :
    (rows : List (String × Entry)) (cs : List Call) (s : Store)
    → Follows rows s
    → Follows rows (run cs s)
unfolding run
run-Follows rows [] s h = h
run-Follows rows (c ∷ cs) s h = run-Follows rows cs (call c s) (call-Follows rows c s h)

same_row : (o : Option Entry) → Option.map (λ e. e) o ≡ o
same_row none = refl
same_row (some e) = refl

init-Follows : (loaded : List (String × Entry)) → Follows loaded (init_opened_referers loaded new)
unfolding init_opened_referers enable replay
init-Follows loaded = (refl, λ k. rw (same_row (lookup k loaded)) refl)

-- After the store has been loaded from the table, whatever positions are recorded and released:
-- once the queued writes are drained, each of them accepted at one of its attempts, the table has
-- for every referer position the entry that the memory has, and none where it has none.
pub drained-eq-store :
    (loaded : List (String × Entry)) (cs : List Call) (delays : List ℕ) (ok : ℕ → ℕ → Bool)
    → ((j : ℕ) → (i : ℕ) × (i ≤ length delays) × (ok j i ≡ true))
    → (r : String)
    → let s = run cs (init_opened_referers loaded new) in
      lookup r (drain delays ok 0 s.writes.queue loaded) ≡ lookup r s.map
drained-eq-store loaded cs delays ok good r =
    let s = run cs (init_opened_referers loaded new) in
    rw (drain-eq-replay delays ok 0 s.writes.queue loaded good) (
      rw (← same_row (lookup r s.map))
        ((run-Follows loaded cs (init_opened_referers loaded new) (init-Follows loaded)).1 r))
