-- ===== src/PumpPending.antt =====
-- The pump.fun tokens that wait for an approval: src/state/pump-pending.ts, with the statements of
-- src/state/repo/pumpPending.ts and the two token lists of src/config.ts.
-- One reading of the clock, `now`, stands for those of one run; what the source awaits within
-- `pollApprovals` is taken to let no other turn of the event loop change the entries.
pub mod Expiry
pub mod Approval
mod Tests
use clmm_copybot.Common.{
  ℕ, ◌+◌, ◌-◌, ◌*◌, String, Bool, true, false, ◌&&◌, ◌||◌, not, Option, none, some, List, [], ◌∷◌,
  ◌++◌, ltb, leb, if◌then◌else◌, str_eq, has, any,
}
use clmm_copybot.Common.Dict.{lookup, insert, delete, update}
use clmm_copybot.WriteChain.{Write, upsert, remove, modify, Chain, idle, enable, push}

pub data Status : Type 0 where
  pending : Status
  approved : Status
  rejected : Status

pub record PumpEntry : Type 0 where
  pub mint : String
  pub symbol : String
  pub pool : String
  pub target_wallet : String
  pub detected_at : ℕ
  pub status : Status
  pub notified_at : Option ℕ
  pub resolved_at : Option ℕ

pub record Pump : Type 0 where
  pub map : List (String × PumpEntry)
  pub writes : Chain PumpEntry
  pub token_blacklist : List String
  pub token_whitelist : List String

abbrev pub is_pending_status : Status → Bool
is_pending_status pending = true
is_pending_status _ = false

abbrev pub is_approved_status : Status → Bool
is_approved_status approved = true
is_approved_status _ = false

abbrev pub is_rejected_status : Status → Bool
is_rejected_status rejected = true
is_rejected_status _ = false

-- `EXPIRY_MS`, one hour.
abbrev pub expiry_ms : ℕ
expiry_ms = 60 * 60 * 1000

-- The statements of the repository: a token that is added again waits again.
abbrev pub pump_pending_add : PumpEntry → Write PumpEntry
pump_pending_add e = upsert e.mint (record e { status = pending; resolved_at = none })

abbrev pub pump_pending_set_status : String → Status → ℕ → Write PumpEntry
pump_pending_set_status mint status at =
    modify mint (λ e. record e { status = status; resolved_at = some at })

abbrev pub pump_pending_delete : String → Write PumpEntry
pump_pending_delete mint = remove mint

-- `detectedAt` before `now` by more than an hour; for a later `detectedAt` the difference of the
-- source is negative, as here it is 0.
abbrev pub is_expired : ℕ → PumpEntry → Bool
is_expired now e = ltb expiry_ms (now - e.detected_at)

unfoldable pub add_pump_pending : PumpEntry → Pump → Pump
add_pump_pending e s = record s {
  map = insert e.mint (record e { status = pending }) s.map;
  writes = push (pump_pending_add e) s.writes;
}

abbrev pub pending_in : ℕ → Option PumpEntry → Bool
pending_in now none = false
pending_in now (some e) = is_pending_status e.status && not (is_expired now e)

unfoldable pub is_pump_pending : ℕ → String → Pump → Bool
is_pump_pending now mint s = pending_in now (lookup mint s.map)

abbrev pub approved_in : Option PumpEntry → Bool
approved_in none = false
approved_in (some e) = is_approved_status e.status

unfoldable pub is_pump_approved : String → Pump → Bool
is_pump_approved mint s = approved_in (lookup mint s.map)

abbrev pub rejected_in : Option PumpEntry → Bool
rejected_in none = false
rejected_in (some e) = is_rejected_status e.status

unfoldable pub is_pump_rejected : String → Pump → Bool
is_pump_rejected mint s = rejected_in (lookup mint s.map)

abbrev pub without : String → List String → List String
without x [] = []
without x (y ∷ ys) = let rest = without x ys in if str_eq y x then rest else y ∷ rest

-- A rejected token is blacklisted, and no longer whitelisted.
abbrev pub list_rejected : Status → String → Pump → Pump
list_rejected rejected mint s = record s {
  token_blacklist =
      if has mint s.token_blacklist then s.token_blacklist else s.token_blacklist ++ (mint ∷ []);
  token_whitelist = without mint s.token_whitelist;
}
list_rejected _ mint s = s

abbrev pub resolve_found : ℕ → String → Status → Option PumpEntry → Pump → Pump
resolve_found now mint status none s = s
resolve_found now mint status (some e) s = list_rejected status mint (record s {
  map = update mint (λ e. record e { status = status; resolved_at = some now }) s.map;
  writes = push (pump_pending_set_status mint status now) s.writes;
})

unfoldable pub resolve_pump : ℕ → String → Status → Pump → Pump
resolve_pump now mint status s = resolve_found now mint status (lookup mint s.map) s

unfoldable pub delete_pump_entry : String → Pump → Pump
delete_pump_entry mint s = record s {
  map = delete mint s.map;
  writes = push (pump_pending_delete mint) s.writes;
}

-- `pollApprovals` first rejects what has waited for too long.
abbrev pub is_stale : ℕ → PumpEntry → Bool
is_stale now e = is_pending_status e.status && is_expired now e

unfoldable pub expire_entries : ℕ → List (String × PumpEntry) → Pump → Pump
unfolding resolve_pump
expire_entries now [] s = s
expire_entries now ((mint, e) ∷ es) s =
    expire_entries now es (if is_stale now e then resolve_pump now mint rejected s else s)

-- A decision of the worker; a timestamp of 0 is none.
pub record Decision : Type 0 where
  pub status : String
  pub timestamp : ℕ

abbrev pub is_outdated : Decision → PumpEntry → Bool
is_outdated d e = ltb 0 d.timestamp && ltb d.timestamp e.detected_at

abbrev pub decided : String → Option Status
decided text =
    if str_eq text "approved"
    then some approved
    else if str_eq text "rejected"
    then some rejected
    else none

abbrev pub apply_status : ℕ → String → Option Status → Pump → Pump
apply_status now mint none s = s
apply_status now mint (some status) s = resolve_pump now mint status s

abbrev pub apply_found : ℕ → String → Decision → Option PumpEntry → Pump → Pump
apply_found now mint d none s = s
apply_found now mint d (some e) s =
    if is_pending_status e.status && not (is_outdated d e)
    then apply_status now mint (decided d.status) s
    else s

unfoldable pub apply_decisions : ℕ → List (String × Decision) → Pump → Pump
apply_decisions now [] s = s
apply_decisions now ((mint, d) ∷ ds) s =
    apply_decisions now ds (apply_found now mint d (lookup mint s.map) s)

-- `answer` is what the worker returns, `none` where there is no worker or no good answer.
abbrev pub apply_answer : ℕ → Option (List (String × Decision)) → Pump → Pump
apply_answer now none s = s
apply_answer now (some ds) s =
    if any (λ b. is_pending_status b.1.status) s.map then apply_decisions now ds s else s

unfoldable pub poll_approvals : ℕ → Option (List (String × Decision)) → Pump → Pump
unfolding expire_entries apply_decisions
poll_approvals now answer s = apply_answer now answer (expire_entries now s.map s)
