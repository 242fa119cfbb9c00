-- ===== src/PumpPending/Expiry.antt =====
-- Decisions on pump tokens, and those that nobody took in an hour (src/state/pump-pending.ts,
-- `resolvePump` and `pollApprovals`).
use mathlib.Core.Option
use clmm_copybot.Common.{
  ℕ, ◌≡◌, ◌⊎◌, inl, inr, refl, sym, ap, ◌∙◌, String, Bool, true, false, Option, none, some, List,
  [], ◌∷◌, ◌++◌, arith, if◌then◌else◌, str_eq, eq_iff, eq_refl, has, Bool-cases, is_some,
}
use clmm_copybot.Common.Dict.{lookup, update, lookup-update}
use clmm_copybot.PumpPending.{
  Status, pending, approved, rejected, PumpEntry, Pump, is_pump_approved, is_pump_rejected,
  approved_in, rejected_in, without, list_rejected, resolve_found, resolve_pump, is_stale,
  expire_entries,
}

list_rejected-map : (st : Status) (m : String) (s : Pump) → (list_rejected st m s).map ≡ s.map
list_rejected-map pending m s = refl
list_rejected-map approved m s = refl
list_rejected-map rejected m s = refl

abbrev pub settle : ℕ → Status → PumpEntry → PumpEntry
settle now st e = record e { status = st; resolved_at = some now }

-- A decision changes the entry of its mint, if there is one, and no other.
pub lookup-resolve_pump :
    (now : ℕ) (m : String) (st : Status) (s : Pump) (k : String)
    → lookup k (resolve_pump now m st s).map
      ≡ (if str_eq m k then Option.map (settle now st) (lookup k s.map) else lookup k s.map)
unfolding resolve_pump
lookup-resolve_pump now m st s k = go (lookup m s.map) refl
  where
    go :
        (o : Option PumpEntry)
        → lookup m s.map ≡ o
        → lookup k (resolve_found now m st o s).map
          ≡ (if str_eq m k then Option.map (settle now st) (lookup k s.map) else lookup k s.map)
    go none e = elim (Bool-cases (str_eq m k)) [
      | inl same ↦ rw same (rw (sym ((eq_iff m k).0 same)) (rw e refl))
      | inr other ↦ rw other refl
    ]
    go (some x) e =
        ap (lookup k) (
          list_rejected-map st m (record s {
            map = update m (λ e. record e { status = st; resolved_at = some now }) s.map;
            writes = _;
          }))
        ∙ elim (Bool-cases (str_eq m k)) [
          | inl same ↦
              rw (lookup-update k m (settle now st) s.map)
                (rw same (rw (sym ((eq_iff m k).0 same)) refl))
          | inr other ↦ rw (lookup-update k m (settle now st) s.map) (rw other refl)
        ]

abbrev pub stale_in : ℕ → Option PumpEntry → Bool
stale_in now none = false
stale_in now (some e) = is_stale now e

rejected-stale :
    (now : ℕ) (o : Option PumpEntry) → stale_in now (Option.map (settle now rejected) o) ≡ false
rejected-stale now none = refl
rejected-stale now (some e) = refl

-- A rejection leaves nothing stale that was not, and its own mint not at all.
resolve-stale :
    (now : ℕ) (m k : String) (s : Pump)
    → (stale_in now (lookup k s.map) ≡ false) ⊎ (str_eq m k ≡ true)
    → stale_in now (lookup k (resolve_pump now m rejected s).map) ≡ false
resolve-stale now m k s h = elim (Bool-cases (str_eq m k)) [
  | inl same ↦
      rw (lookup-resolve_pump now m rejected s k) (rw same (rejected-stale now (lookup k s.map)))
  | inr other ↦ rw (lookup-resolve_pump now m rejected s k) (rw other (before h other))
]
  where
    before :
        (stale_in now (lookup k s.map) ≡ false) ⊎ (str_eq m k ≡ true)
        → str_eq m k ≡ false
        → stale_in now (lookup k s.map) ≡ false
    before (inl e) n = e
    before (inr e) n = absurd (ground (arith, e, n))

module _ (k m : String) (e : PumpEntry) (es : List (String × PumpEntry)) where
  lookup-same : str_eq m k ≡ true → lookup k ((m, e) ∷ es) ≡ some e
  unfolding lookup
  lookup-same h = rw h refl

  lookup-other : str_eq m k ≡ false → lookup k ((m, e) ∷ es) ≡ lookup k es
  unfolding lookup
  lookup-other h = rw h refl

-- Not stale, or still to come among the entries that are left.
abbrev Fine : ℕ → String → List (String × PumpEntry) → Pump → Type 0
Fine now k es s = (stale_in now (lookup k s.map) ≡ false) ⊎ (lookup k es ≡ lookup k s.map)

step-Fine :
    (now : ℕ) (k m : String) (e : PumpEntry) (es : List (String × PumpEntry)) (s : Pump) (t : Bool)
    → is_stale now e ≡ t
    → (str_eq m k ≡ true) ⊎ (str_eq m k ≡ false)
    → Fine now k ((m, e) ∷ es) s
    → Fine now k es (if t then resolve_pump now m rejected s else s)
step-Fine now k m e es s true st (inl same) h = inl (resolve-stale now m k s (inr same))
step-Fine now k m e es s true st (inr other) (inl f) = inl (resolve-stale now m k s (inl f))
step-Fine now k m e es s true st (inr other) (inr q) = inr (
    sym (lookup-other k m e es other)
    ∙ (q ∙ rw (lookup-resolve_pump now m rejected s k) (rw other refl)))
step-Fine now k m e es s false st same_or (inl f) = inl f
step-Fine now k m e es s false st (inl same) (inr q) =
    inl (rw (sym q) (rw (lookup-same k m e es same) st))
step-Fine now k m e es s false st (inr other) (inr q) = inr (sym (lookup-other k m e es other) ∙ q)

expire_entries-stale :
    (now : ℕ) (k : String) (es : List (String × PumpEntry)) (s : Pump)
    → Fine now k es s
    → stale_in now (lookup k (expire_entries now es s).map) ≡ false
unfolding expire_entries
expire_entries-stale now k [] s (inl h) = h
expire_entries-stale now k [] s (inr h) = rw (sym h) (unfold lookup in refl)
expire_entries-stale now k ((m, e) ∷ es) s h =
    expire_entries-stale now k es _
      (step-Fine now k m e es s (is_stale now e) refl (Bool-cases (str_eq m k)) h)

-- Once `pollApprovals` has looked for tokens that wait for more than an hour, none is left: no
-- entry of any mint is both pending and expired.
pub no_stale :
    (now : ℕ) (s : Pump) (k : String)
    → stale_in now (lookup k (expire_entries now s.map s).map) ≡ false
no_stale now s k = expire_entries-stale now k s.map s (inr refl)

without-has : (x : String) (xs : List String) → has x (without x xs) ≡ false
without-has x [] = refl
without-has x (y ∷ ys) = ground (arith, without-has x ys)

has-snoc : (x : String) (xs : List String) → has x (xs ++ (x ∷ [])) ≡ true
has-snoc x [] = rw (eq_refl x) refl
has-snoc x (y ∷ ys) = ground (arith, has-snoc x ys)

blacklisted :
    (x : String) (xs : List String) → has x (if has x xs then xs else xs ++ (x ∷ [])) ≡ true
blacklisted x xs = elim (Bool-cases (has x xs)) [
  | inl there ↦ rw there there
  | inr new ↦ rw new (has-snoc x xs)
]

-- A rejection of a known token is seen by the executors at once, and bars it from the whitelist; an
-- approval is seen at once, and leaves both lists as they were.
pub resolve_pump_lem :
    (now : ℕ) (m : String) (s : Pump)
    → is_some (lookup m s.map) ≡ true
    → let no = resolve_pump now m rejected s in
      let ok = resolve_pump now m approved s in
      ((is_pump_rejected m no ≡ true)
        × ((has m no.token_blacklist ≡ true) × (has m no.token_whitelist ≡ false)))
      × ((is_pump_approved m ok ≡ true)
          × ((ok.token_blacklist ≡ s.token_blacklist) × (ok.token_whitelist ≡ s.token_whitelist)))
unfolding is_pump_rejected is_pump_approved resolve_pump
resolve_pump_lem now m s there = (
  (
    rw (lookup-resolve_pump now m rejected s m)
        (rw (eq_refl m) (is_now rejected rejected_in (λ e. refl) (lookup m s.map) there)),
    (lists_no (lookup m s.map) there),
  ),
  (
    rw (lookup-resolve_pump now m approved s m)
        (rw (eq_refl m) (is_now approved approved_in (λ e. refl) (lookup m s.map) there)),
    (lists_ok (lookup m s.map)),
  ),
)
  where
    is_now :
        (st : Status) (test : Option PumpEntry → Bool)
        → ((e : PumpEntry) → test (some (settle now st e)) ≡ true)
        → (o : Option PumpEntry) → is_some o ≡ true
        → test (Option.map (settle now st) o) ≡ true
    is_now st test f none h = ground (arith, h)
    is_now st test f (some e) h = f e

    lists_no :
        (o : Option PumpEntry)
        → is_some o ≡ true
        → (has m (resolve_found now m rejected o s).token_blacklist ≡ true)
          × (has m (resolve_found now m rejected o s).token_whitelist ≡ false)
    lists_no none h = ground (arith, h)
    lists_no (some e) h = (blacklisted m s.token_blacklist, without-has m s.token_whitelist)

    lists_ok :
        (o : Option PumpEntry)
        → ((resolve_found now m approved o s).token_blacklist ≡ s.token_blacklist)
          × ((resolve_found now m approved o s).token_whitelist ≡ s.token_whitelist)
    lists_ok none = (refl, refl)
    lists_ok (some e) = (refl, refl)
