-- ===== src/PumpPending/Tests.antt =====
-- Runs of the pump approvals, and their theorems at concrete entries.
use clmm_copybot.Common.{
  ℕ, ◌≡◌, refl, String, true, false, Option, none, some, List, [], ◌∷◌, is_some, value_or,
}
use clmm_copybot.Common.Dict.{dict, lookup}
use clmm_copybot.PumpPending.{
  pending, PumpEntry, Pump, Decision, resolve_pump, is_pump_approved, is_pump_rejected,
  expire_entries, poll_approvals,
}
use clmm_copybot.PumpPending.Expiry.{stale_in, no_stale}
use clmm_copybot.PumpPending.Approval.{MayApprove, poll_approvals_lem}

abbrev token : ℕ → PumpEntry
token at = record {
  mint = "T";
  symbol = "TOK";
  pool = "T/SOL";
  target_wallet = "W";
  detected_at = at;
  status = pending;
  notified_at = none;
  resolved_at = none;
}

abbrev two_tokens : Pump
two_tokens = record {
  map = ("OLD", token 1000) ∷ ("NEW", token 4000000) ∷ [];
  writes = record { enabled = true; queue = [] };
  token_blacklist = [];
  token_whitelist = "OLD" ∷ [];
}

abbrev yes_to_both : Option (List (String × Decision))
yes_to_both = some (
    ("OLD", record { status = "approved"; timestamp = 4000001 })
    ∷ ("NEW", record { status = "approved"; timestamp = 4000001 })
    ∷ [])

abbrev polled : Pump
polled = poll_approvals 5000000 yes_to_both two_tokens

pump : Unit {0}
unfolding dict poll_approvals resolve_pump is_pump_approved is_pump_rejected
pump = tt

poll_tests :
    (is_pump_rejected "OLD" polled ≡ true)
    × ((is_pump_approved "NEW" polled ≡ true)
        × ((polled.token_blacklist ≡ "OLD" ∷ []) × (polled.token_whitelist ≡ [])))
unfolding pump
poll_tests = (refl, (refl, (refl, refl)))

no_stale_example :
    stale_in 5000000 (lookup "OLD" (expire_entries 5000000 two_tokens.map two_tokens).map) ≡ false
no_stale_example = no_stale 5000000 two_tokens "OLD"

known : is_some (lookup "NEW" two_tokens.map) ≡ true
unfolding dict
known = refl

found_new : lookup "NEW" two_tokens.map ≡ some (token 4000000)
unfolding dict
found_new = refl

approved_new : is_pump_approved "NEW" polled ≡ true
unfolding pump
approved_new = refl

poll_approvals_lem_example : MayApprove 5000000 "NEW" (token 4000000) (value_or yes_to_both [])
poll_approvals_lem_example =
    poll_approvals_lem 5000000 "NEW" yes_to_both two_tokens (token 4000000) found_new approved_new
