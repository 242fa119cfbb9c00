-- ===== src/PumpPending/Approval.antt =====
-- What lets a pump token be approved (src/state/pump-pending.ts, `pollApprovals`).
use mathlib.Core.Option
use mathlib.Core.Path.{subst}
use clmm_copybot.Common.{
  ℕ, ◌≡◌, ◌⊎◌, inl, inr, refl, sym, ap, ◌∙◌, String, Bool, true, false, ◌&&◌, not, Option, none,
  some, List, [], ◌∷◌, arith, if◌then◌else◌, str_eq, eq_iff, eq_refl, Bool-cases, any, value_or,
}
use clmm_copybot.Common.Dict.{lookup}
use clmm_copybot.PumpPending.{
  Status, pending, approved, rejected, PumpEntry, Pump, is_pending_status, is_approved_status,
  is_rejected_status, is_pump_approved, approved_in, rejected_in, resolve_pump, is_stale,
  is_expired, expire_entries, Decision, is_outdated, decided, apply_status, apply_found,
  apply_decisions, apply_answer, poll_approvals,
}
use clmm_copybot.PumpPending.Expiry.{lookup-resolve_pump, settle, stale_in, no_stale}

-- A decision of the worker that approves the token and is not older than its entry.
abbrev pub approving : String → PumpEntry → List (String × Decision) → Bool
approving k e ds =
    any (λ b. str_eq b.0 k && (str_eq b.1.status "approved" && not (is_outdated b.1 e))) ds

-- Approved before, or pending with such a decision.
abbrev Grounds : String → PumpEntry → List (String × Decision) → Type 0
Grounds k e ds =
    (is_approved_status e.status ≡ true)
    ⊎ ((is_pending_status e.status ≡ true) × (approving k e ds ≡ true))

weaken :
    (k m : String) (d : Decision) (e : PumpEntry) (ds : List (String × Decision))
    → Grounds k e ds
    → Grounds k e ((m, d) ∷ ds)
weaken k m d e ds (inl a) = inl a
weaken k m d e ds (inr (p, a)) = inr (p, ground (arith, a))

settled_rejected :
    (now : ℕ) (k : String) (e : PumpEntry) (ds : List (String × Decision))
    → {A : Type 0} → Grounds k (settle now rejected e) ds
    → A
settled_rejected now k e ds (inl a) = absurd (ground (arith, a))
settled_rejected now k e ds (inr (p, a)) = absurd (ground (arith, p))

abbrev Later : ℕ → String → List (String × Decision) → Type 0
Later now k ds =
    (s : Pump) (e : PumpEntry)
    → lookup k s.map ≡ some e
    → approved_in (lookup k (apply_decisions now ds s).map) ≡ true
    → Grounds k e ds

-- A decision that is for the token, pending and in time.
own_decision :
    (now : ℕ) (k : String) (d : Decision) (ds : List (String × Decision)) (s : Pump) (e : PumpEntry)
    → Later now k ds
    → lookup k s.map ≡ some e
    → is_pending_status e.status ≡ true
    → is_outdated d e ≡ false
    → (a r : Bool) → str_eq d.status "approved" ≡ a
    → approved_in (
        lookup k
          (apply_decisions now ds (
            apply_status now k
              (if a then some approved else if r then some rejected else none)
              s)).map)
      ≡ true
    → Grounds k e ((k, d) ∷ ds)
own_decision now k d ds s e later found p fresh true r is_a h = inr (p, head_approves)
  where
    head_approves : approving k e ((k, d) ∷ ds) ≡ true
    head_approves = rw (eq_refl k) (rw is_a (rw fresh refl))
own_decision now k d ds s e later found p fresh false true is_a h = settled_rejected now k e ds (
    later (resolve_pump now k rejected s) (settle now rejected e)
      (lookup-resolve_pump now k rejected s k ∙ rw (eq_refl k) (rw found refl)) h)
own_decision now k d ds s e later found p fresh false false is_a h =
    weaken k k d e ds (later s e found h)

own_found :
    (now : ℕ) (k : String) (d : Decision) (ds : List (String × Decision)) (s : Pump) (e : PumpEntry)
    → Later now k ds
    → lookup k s.map ≡ some e
    → (t : Bool) → t ≡ (is_pending_status e.status && not (is_outdated d e))
    → approved_in (
        lookup k
          (apply_decisions now ds (if t then apply_status now k (decided d.status) s else s)).map)
      ≡ true
    → Grounds k e ((k, d) ∷ ds)
own_found now k d ds s e later found true q h =
    own_decision now k d ds s e later found (ground (arith, q)) (ground (arith, q))
      (str_eq d.status "approved") (str_eq d.status "rejected") refl h
own_found now k d ds s e later found false q h = weaken k k d e ds (later s e found h)

own_step :
    (now : ℕ) (k : String) (d : Decision) (ds : List (String × Decision)) (s : Pump) (e : PumpEntry)
    → Later now k ds
    → lookup k s.map ≡ some e
    → approved_in (lookup k (apply_decisions now ds (apply_found now k d (lookup k s.map) s)).map)
      ≡ true
    → Grounds k e ((k, d) ∷ ds)
own_step now k d ds s e later found h = own_found now k d ds s e later found _ refl (
    subst
      (λ o. approved_in (lookup k (apply_decisions now ds (apply_found now k d o s)).map) ≡ true)
      found h)

-- A decision for another token.
other_status :
    (now : ℕ) (m k : String) (s : Pump) (o : Option Status)
    → str_eq m k ≡ false
    → lookup k (apply_status now m o s).map ≡ lookup k s.map
other_status now m k s none n = refl
other_status now m k s (some st) n = rw (lookup-resolve_pump now m st s k) (rw n refl)

other_if :
    (now : ℕ) (m k : String) (s : Pump) (o : Option Status) (t : Bool)
    → str_eq m k ≡ false
    → lookup k (if t then apply_status now m o s else s).map ≡ lookup k s.map
other_if now m k s o true n = other_status now m k s o n
other_if now m k s o false n = refl

other_found :
    (now : ℕ) (m k : String) (d : Decision) (s : Pump) (o : Option PumpEntry)
    → str_eq m k ≡ false
    → lookup k (apply_found now m d o s).map ≡ lookup k s.map
other_found now m k d s none n = refl
other_found now m k d s (some x) n =
    other_if now m k s (decided d.status) (is_pending_status x.status && not (is_outdated d x)) n

decisions_lem : (now : ℕ) (k : String) (ds : List (String × Decision)) → Later now k ds
unfolding apply_decisions
decisions_lem now k [] s e found h = inl (subst (λ o. approved_in o ≡ true) found h)
decisions_lem now k ((m, d) ∷ ds) s e found h = elim (Bool-cases (str_eq m k)) [
  | inl same ↦
      subst
        (λ x.
          approved_in
              (lookup k (apply_decisions now ds (apply_found now x d (lookup x s.map) s)).map)
            ≡ true
          → Grounds k e ((x, d) ∷ ds))
        (sym ((eq_iff m k).0 same)) (own_step now k d ds s e (decisions_lem now k ds) found) h
  | inr other ↦ weaken k m d e ds (
      decisions_lem now k ds (apply_found now m d (lookup m s.map) s) e
        (other_found now m k d s (lookup m s.map) other ∙ found) h)
]

-- What the first part of the poll does with a token: nothing, or it is rejected.
abbrev Kept : String → Pump → Pump → Type 0
Kept k s s' = (lookup k s'.map ≡ lookup k s.map) ⊎ (rejected_in (lookup k s'.map) ≡ true)

rejected-settle :
    (now : ℕ) (o : Option PumpEntry)
    → (Option.map (settle now rejected) o ≡ o)
      ⊎ (rejected_in (Option.map (settle now rejected) o) ≡ true)
rejected-settle now none = inl refl
rejected-settle now (some e) = inr refl

reject-Kept : (now : ℕ) (k m : String) (s : Pump) → Kept k s (resolve_pump now m rejected s)
reject-Kept now k m s = elim (Bool-cases (str_eq m k)) [
  | inl same ↦
      rw (lookup-resolve_pump now m rejected s k) (rw same (rejected-settle now (lookup k s.map)))
  | inr other ↦ inl (rw (lookup-resolve_pump now m rejected s k) (rw other refl))
]

if-Kept :
    (now : ℕ) (k m : String) (s : Pump) (t : Bool)
    → Kept k s (if t then resolve_pump now m rejected s else s)
if-Kept now k m s true = reject-Kept now k m s
if-Kept now k m s false = inl refl

Kept-trans : (k : String) (a b c : Pump) → Kept k a b → Kept k b c → Kept k a c
Kept-trans k a b c (inl p) (inl q) = inl (q ∙ p)
Kept-trans k a b c (inr r) (inl q) = inr (ap rejected_in q ∙ r)
Kept-trans k a b c h (inr r) = inr r

expire-Kept :
    (now : ℕ) (k : String) (es : List (String × PumpEntry)) (s : Pump)
    → Kept k s (expire_entries now es s)
unfolding expire_entries
expire-Kept now k [] s = inl refl
expire-Kept now k ((m, e) ∷ es) s =
    let s1 = if is_stale now e then resolve_pump now m rejected s else s in
    Kept-trans k s s1 (expire_entries now es s1) (if-Kept now k m s (is_stale now e))
      (expire-Kept now k es s1)

answer_lem :
    (now : ℕ) (k : String) (answer : Option (List (String × Decision))) (s : Pump) (e : PumpEntry)
    → lookup k s.map ≡ some e
    → approved_in (lookup k (apply_answer now answer s).map) ≡ true
    → Grounds k e (value_or answer [])
answer_lem now k none s e found h = inl (subst (λ o. approved_in o ≡ true) found h)
answer_lem now k (some ds) s e found h = go (any (λ b. is_pending_status b.1.status) s.map) h
  where
    go :
        (t : Bool)
        → approved_in (lookup k (if t then apply_decisions now ds s else s).map) ≡ true
        → Grounds k e ds
    go true h = decisions_lem now k ds s e found h
    go false h = inl (subst (λ o. approved_in o ≡ true) found h)

-- What is rejected stays so until it is added again.
rejected_lem :
    (now : ℕ) (k : String) (answer : Option (List (String × Decision))) (s : Pump)
    (o : Option PumpEntry)
    → lookup k s.map ≡ o
    → rejected_in o ≡ true
    → approved_in (lookup k (apply_answer now answer s).map) ≡ true
    → ⊥
rejected_lem now k answer s none found r h = ground (arith, r)
rejected_lem now k answer s (some e) found r h = go e.status r (answer_lem now k answer s e found h)
  where
    go :
        (st : Status)
        → is_rejected_status st ≡ true
        → (is_approved_status st ≡ true)
          ⊎ ((is_pending_status st ≡ true) × (approving k e (value_or answer []) ≡ true))
        → ⊥
    go pending r g = ground (arith, r)
    go approved r g = ground (arith, r)
    go rejected r (inl a) = ground (arith, a)
    go rejected r (inr (p, a)) = ground (arith, p)

-- What must hold of an entry for its token to be approved after a poll.
abbrev pub MayApprove : ℕ → String → PumpEntry → List (String × Decision) → Type 0
MayApprove now k e ds =
    (is_approved_status e.status ≡ true)
    ⊎ ((is_pending_status e.status ≡ true)
        × ((is_expired now e ≡ false) × (approving k e ds ≡ true)))

-- A token is approved after a poll only if it was approved before, or was waiting for no more than
-- an hour while the worker returned an approval that is not older than the entry: neither an
-- expired token nor an outdated decision lets the bot copy it.
pub poll_approvals_lem :
    (now : ℕ) (k : String) (answer : Option (List (String × Decision))) (s : Pump) (e : PumpEntry)
    → lookup k s.map ≡ some e
    → is_pump_approved k (poll_approvals now answer s) ≡ true
    → MayApprove now k e (value_or answer [])
unfolding is_pump_approved poll_approvals
poll_approvals_lem now k answer s e found h = go (expire-Kept now k s.map s)
  where
    s1 : Pump
    s1 = expire_entries now s.map s

    grounds :
        lookup k s1.map ≡ some e
        → Grounds k e (value_or answer [])
        → MayApprove now k e (value_or answer [])
    grounds f (inl a) = inl a
    grounds f (inr (p, a)) =
        inr (p, (in_time (subst (λ o. stale_in now o ≡ false) f (no_stale now s k)) p, a))
      where
        in_time :
            is_stale now e ≡ false → is_pending_status e.status ≡ true → is_expired now e ≡ false
        in_time st p = ground (arith, st, p)

    go : Kept k s s1 → MayApprove now k e (value_or answer [])
    go (inl same) = grounds (same ∙ found) (answer_lem now k answer s1 e (same ∙ found) h)
    go (inr r) = absurd (rejected_lem now k answer s1 (lookup k s1.map) refl r h)
