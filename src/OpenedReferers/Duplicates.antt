-- ===== src/OpenedReferers/Duplicates.antt =====
-- Which positions are duplicates, over the life of a record: src/state/opened-referers-store.ts with
-- the policy of src/utils/byreal-allow-same-tick.ts.
use clmm_copybot.Common.{
  ℕ, ◌≡◌, ◌≢◌, ◌↔◌, ◌⊎◌, refl, true, false, String, Option, none, some, List, [], ◌∷◌, arith,
  Bool-cases, inl, inr, is_text, str_eq, eq_iff, has, trim, All,
}
use clmm_copybot.Common.Dict.{
  lookup, IsUnique, insert-IsUnique, delete-IsUnique, lookup-insert, lookup-delete,
}
use clmm_copybot.OpenedReferers.{
  Entry, Store, Policy, add_opened_referer, find_target, remove_found,
  remove_opened_referer_by_target_nft, get_opened_referer, should_ignore_referer_blocker,
  is_referer_duplicate_entry, is_referer_duplicate,
}
use clmm_copybot.OpenedReferers.Table.{Call, add_call, remove_call, call, run}

remove_found-IsUnique :
    (o : Option String) (s : Store) → IsUnique s.map → IsUnique (remove_found o s).0.map
remove_found-IsUnique none s u = u
remove_found-IsUnique (some r) s u = delete-IsUnique r s.map u

call-IsUnique : (c : Call) (s : Store) → IsUnique s.map → IsUnique (call c s).map
unfolding call add_opened_referer remove_opened_referer_by_target_nft
call-IsUnique (add_call r target our wallet now) s u = insert-IsUnique r _ s.map u
call-IsUnique (remove_call target) s u = remove_found-IsUnique (find_target target s.map) s u

find_target-some :
    (target r : String) (m : List (String × Entry))
    → IsUnique m
    → find_target target m ≡ some r
    → (e : Entry) × (lookup r m ≡ some e) × (e.target_nft ≡ target)
unfolding find_target lookup
find_target-some target r [] u h = ground arith
find_target-some target r ((k, e) ∷ m) u h = elim (Bool-cases (str_eq e.target_nft target)) [
  | inl same ↦ (e, ground (arith, eq_iff k r), (eq_iff e.target_nft target).0 same)
  | inr other ↦
      let (d, found, ours) = find_target-some target r m u.1 (ground arith) in
      (d, ground (arith, eq_iff k r, found, u.0), ours)
]

-- A call that neither records the referer position again nor releases the target NFT.
abbrev pub Spares : String → String → Call → Type 0
Spares r target (add_call k t our wallet now) = k ≢ r
Spares r target (remove_call t) = t ≢ target

remove_found-lookup :
    (r t : String) (e : Entry) (o : Option String) (s : Store)
    → ((k : String) → o ≡ some k → (d : Entry) × (lookup k s.map ≡ some d) × (d.target_nft ≡ t))
    → t ≢ e.target_nft
    → lookup r s.map ≡ some e
    → lookup r (remove_found o s).0.map ≡ some e
remove_found-lookup r t e none s found apart h = h
remove_found-lookup r t e (some k) s found apart h =
    let (d, there, is_t) = found k refl in
    rw (lookup-delete r k s.map) (ground (arith, eq_iff k r, there, is_t, apart))

call-lookup :
    (r : String) (e : Entry) (c : Call) (s : Store)
    → IsUnique s.map
    → Spares r e.target_nft c
    → lookup r s.map ≡ some e
    → lookup r (call c s).map ≡ some e
unfolding call add_opened_referer remove_opened_referer_by_target_nft
call-lookup r e (add_call k t our wallet now) s u apart h =
    rw (lookup-insert r k _ s.map) (ground (arith, eq_iff k r, apart))
call-lookup r e (remove_call t) s u apart h =
    remove_found-lookup r t e (find_target t s.map) s (λ k. find_target-some t k s.map u) apart h

run-lookup :
    (r : String) (e : Entry) (cs : List Call) (s : Store)
    → IsUnique s.map
    → All (Spares r e.target_nft) cs
    → lookup r s.map ≡ some e
    → lookup r (run cs s).map ≡ some e
unfolding run
run-lookup r e [] s u all h = h
run-lookup r e (c ∷ cs) s u all h =
    run-lookup r e cs (call c s) (call-IsUnique c s u) all.1 (call-lookup r e c s u all.0 h)

-- Why a wallet may copy a position although another entry records it: it is the same wallet and
-- reopening is allowed, or the two are distinct and one of them is on the list that frees it.
abbrev pub Exempts : Policy → String → String → Type 0
Exempts p holder candidate =
    ((p.allow_same_wallet_reopen ≡ true) × (holder ≡ candidate))
    ⊎ ((trim holder ≢ "")
        × (trim candidate ≢ "")
        × (trim holder ≢ trim candidate)
        × ((has (trim holder) p.allow_opened_by_wallets ≡ true)
            ⊎ (has (trim candidate) p.allow_open_after_others_wallets ≡ true)))

is_referer_duplicate_entry_lem :
    (e : Entry) (candidate : String) (p : Policy)
    → (is_referer_duplicate_entry (some e) candidate p ≡ false)
      ↔ Exempts p e.target_wallet candidate
unfolding is_referer_duplicate_entry should_ignore_referer_blocker
is_referer_duplicate_entry_lem e candidate p =
    let a = trim e.target_wallet in
    let b = trim candidate in
    (
      λ h. ground (arith, eq_iff e.target_wallet candidate, eq_iff a b, eq_iff a "", eq_iff b ""),
      λ h. ground (arith, eq_iff e.target_wallet candidate, eq_iff a b, eq_iff a "", eq_iff b ""),
    )

-- A position that is recorded for a wallet stays a duplicate for every candidate, whatever other
-- positions are recorded and released meanwhile, except for a candidate that the policy exempts:
-- from any store with no referer twice, until the referer is recorded again or the target's NFT is
-- released.
pub blocked_until_released :
    (r target our holder : String) (now : ℕ) (cs : List Call) (s : Store) (candidate : String)
    (p : Policy)
    → IsUnique s.map
    → is_text r ≡ true
    → All (Spares r target) cs
    → (is_referer_duplicate
          (some r)
          candidate
          p
          (run cs (add_opened_referer r target our holder now s))
        ≡ false)
      ↔ Exempts p holder candidate
unfolding is_referer_duplicate get_opened_referer add_opened_referer
blocked_until_released r target our holder now cs s candidate p u key all =
    let e : Entry = record {
      target_nft = target;
      our_nft = our;
      target_wallet = holder;
      opened_at = now;
    } in
    let s' = add_opened_referer r target our holder now s in
    let kept : lookup r (run cs s').map ≡ some e =
      run-lookup r e cs s' (insert-IsUnique r e s.map u) all
        (rw (lookup-insert r r e s.map) (ground (arith, eq_iff r r))) in
    rw key (rw kept (is_referer_duplicate_entry_lem e candidate p))
