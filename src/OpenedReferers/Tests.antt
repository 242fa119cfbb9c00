-- ===== src/OpenedReferers/Tests.antt =====
-- Runs of the opened referers, and their theorems at concrete records.
use clmm_copybot.Common.{
  ◌≡◌, ◌↔◌, refl, String, true, false, none, some, List, [], ◌∷◌, arith, eq_iff, length, trim, All,
}
use clmm_copybot.Common.Dict.{dict, lookup}
use clmm_copybot.WriteChain.{chain, drain, retry_delays_ms}
use clmm_copybot.OpenedReferers.{
  Entry, Policy, new, init_opened_referers, count_opened_referers, add_opened_referer, find_target,
  remove_opened_referer_by_target_nft, should_ignore_referer_blocker, is_referer_duplicate_entry,
  is_referer_duplicate, get_opened_referer,
}
use clmm_copybot.OpenedReferers.Table.{Call, add_call, remove_call, call, run, drained-eq-store}
use clmm_copybot.OpenedReferers.Duplicates.{Spares, Exempts, blocked_until_released}

abbrev loaded : List (String × Entry)
loaded =
    ("R1", record { target_nft = "T1"; our_nft = "O1"; target_wallet = "W1"; opened_at = 1000 })
    ∷ []

abbrev calls : List Call
calls = add_call "R2" "T2" "O2" "W2" 2000 ∷ remove_call "T1" ∷ remove_call "T9" ∷ []

abbrev meanwhile : List Call
meanwhile = add_call "R2" "T2" "O2" "W2" 2000 ∷ remove_call "T9" ∷ []

abbrev frees_w3 : Policy
frees_w3 = record {
  allow_same_wallet_reopen = false;
  allow_opened_by_wallets = [];
  allow_open_after_others_wallets = "W3" ∷ [];
}

referers : Unit {0}
unfolding dict chain trim run call init_opened_referers add_opened_referer find_target
    remove_opened_referer_by_target_nft count_opened_referers get_opened_referer
    should_ignore_referer_blocker is_referer_duplicate_entry is_referer_duplicate
referers = tt

trim_tests : (trim " W3\n" ≡ "W3") × (trim "a b" ≡ "a b") × (trim " \t" ≡ "")
unfolding referers
trim_tests = (refl, refl, refl)

run_tests :
    let s = run calls (init_opened_referers loaded new) in
    (count_opened_referers s ≡ 1)
    × (length s.writes.queue ≡ 2)
    × (is_referer_duplicate (some "R1") "W2" frees_w3 s ≡ false)
    × (is_referer_duplicate (some "R2") "W1" frees_w3 s ≡ true)
    × (is_referer_duplicate (some "R2") " W3" frees_w3 s ≡ false)
    × (is_referer_duplicate none "W1" frees_w3 s ≡ false)
unfolding referers
run_tests = (refl, refl, refl, refl, refl, refl)

drained-eq-store_example :
    let s = run calls (init_opened_referers loaded new) in
    lookup "R2" (drain retry_delays_ms (λ j i. true) 0 s.writes.queue loaded) ≡ lookup "R2" s.map
drained-eq-store_example =
    drained-eq-store loaded calls retry_delays_ms (λ j i. true) (λ j. (0, ground arith, refl)) "R2"

apart : All (Spares "R1" "T1") meanwhile
apart = (λ h. ground (arith, eq_iff "R2" "R1"), (λ h. ground (arith, eq_iff "T9" "T1"), tt))

blocked_until_released_example :
    (is_referer_duplicate
        (some "R1")
        "W3"
        frees_w3
        (run meanwhile (add_opened_referer "R1" "T1" "O1" "W1" 1000 new))
      ≡ false)
    ↔ Exempts frees_w3 "W1" "W3"
blocked_until_released_example =
    blocked_until_released "R1" "T1" "O1" "W1" 1000 meanwhile new "W3" frees_w3 tt refl apart
