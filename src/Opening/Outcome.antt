-- ===== src/Opening/Outcome.antt =====
-- What an opening ends with (src/executor/byreal-position.ts, `copyOpenPosition`).
use clmm_copybot.Common.{
  ◌≡◌, refl, sym, ◌⊎◌, inl, inr, String, true, false, ◌&&◌, Option, none, some, if◌then◌else◌,
  Bool-cases, has_text,
}
use clmm_copybot.Handler.Shape.{if_rule}
use clmm_copybot.Opening.{OpenConfig, Numerals, Net, Opener, Result, ok, returned, threw}
use clmm_copybot.Opening.Copy
use clmm_copybot.Opening.Copy.{
  is_cap_reached, lacks_lamports, scaled, record_sent, fund_and_open, open_locked, open_unlocked,
  copy_open_position,
}
use clmm_copybot.Opening.Concluded.{Opened, Concludes, open_replied-Concludes}
use clmm_copybot.Opening.Rules.{Quiet, Quiet-refl}
use clmm_copybot.OpenedReferers.{is_referer_duplicate}
use clmm_copybot.PositionMap.Queries.{get, get_byreal_open_count}

module _ {S R N : Type 0} (c : OpenConfig R N) (f : Numerals R N) (net : Net N)
    (nft pool_id : String) (referer : Option String) (wallet : String) where
  module _ (s : Opener S) where
    -- What the guards have found where the opening goes on.
    pub record IsOpenable : Type 0 where
      pub unmapped : has_text (get nft s.positions) ≡ false
      pub unclaimed :
          (has_text referer && is_referer_duplicate referer wallet c.referer_policy s.referers)
          ≡ false
      pub below_cap :
          is_cap_reached c.byreal_max_open_positions (get_byreal_open_count s.positions) ≡ false
      pub live : c.dry_run ≡ false

    -- Nothing was opened: the positions and the referers are as they were, and no signature is
    -- returned, other than that of a dry run.
    abbrev pub Untouched : Option String → Opener S → Type 0
    Untouched r s' =
        (s'.positions ≡ s.positions)
        × (s'.referers ≡ s.referers)
        × ((r ≡ none) ⊎ (c.dry_run ≡ true))

    pub record Decided (x : Option String × Opener S) : Type 0 where
      pub lock_kept : x.1.busy ≡ s.busy
      pub outcome :
          Untouched x.0 x.1
          ⊎ (IsOpenable × (s.busy ≡ false) × Opened c f net nft pool_id referer wallet s x.0 x.1)

    untouched :
        (r : Option String) (s' : Opener S)
        → Quiet s s'
        → s'.busy ≡ s.busy
        → r ≡ none
        → Decided (r, s')
    untouched r s' q lock e = record {
      lock_kept = lock;
      outcome = inl (q.positions_same, q.referers_same, inl e);
    }

    module _ (h : IsOpenable) (idle : s.busy ≡ false) where
      closed-Decided :
          (x : Result Unit × Opener S)
          → Concludes c f net nft pool_id referer wallet s x
          → Decided (Copy.closed c f net nft pool_id referer wallet x)
      closed-Decided (ok u, s') k = record {
        lock_kept = sym idle;
        outcome = inl (k.concludes.positions_same, k.concludes.referers_same, inl refl);
      }
      closed-Decided (returned r, s') k = elim k.concludes [
        | inl q ↦ record {
          lock_kept = sym idle;
          outcome = inl (q.1.positions_same, q.1.referers_same, inl q.0);
        }
        | inr o ↦ record {
          lock_kept = sym idle;
          outcome = inr (
            h,
            idle,
            record {
              position = o.position;
              sent = o.sent;
              read = o.read;
              fresh = o.fresh;
              cleared = o.cleared;
              was_sent = o.was_sent;
              result = o.result;
              recorded = o.recorded;
              claimed = o.claimed;
            },
          );
        }
      ]
      closed-Decided (threw m, s') k = elim (Bool-cases (lacks_lamports f.to_lower_case m)) [
        | inl poor ↦ rw poor (record {
          lock_kept = sym idle;
          outcome = inl (k.concludes.positions_same, k.concludes.referers_same, inl refl);
        })
        | inr other ↦ rw other (record {
          lock_kept = sym idle;
          outcome = inl (k.concludes.positions_same, k.concludes.referers_same, inl refl);
        })
      ]

    open_locked-Concludes : Concludes c f net nft pool_id referer wallet s (
        open_locked c f net nft pool_id referer wallet
          (Copy.acquire c f net nft pool_id referer wallet s))
    unfolding open_locked
    open_locked-Concludes =
        open_replied-Concludes c f net nft pool_id referer wallet s _ s.asked _ refl
          (record {
            positions_same = refl;
            referers_same = refl;
            now_same = refl;
            rent_same = refl;
          })
          refl

    open_unlocked-Decided :
        IsOpenable → Decided (open_unlocked c f net nft pool_id referer wallet s)
    unfolding open_unlocked
    open_unlocked-Decided h =
        if_rule Decided s.busy (none, s)
          (Copy.closed c f net nft pool_id referer wallet (
            open_locked c f net nft pool_id referer wallet
              (Copy.acquire c f net nft pool_id referer wallet s)))
          (λ busy. untouched none s (Quiet-refl s) refl refl)
          (λ idle. closed-Decided h idle _ open_locked-Concludes)

    pub copy_open_position_lem : Decided (copy_open_position c f net nft pool_id referer wallet s)
    unfolding copy_open_position
    copy_open_position_lem =
        let current = get_byreal_open_count s.positions in
        let go_on = open_unlocked c f net nft pool_id referer wallet s in
        let dry = some "dry-run-open-position" in
        let full = record s { last_skip_reason = some (Copy.cap_reason c f current) } in
        let none' : Option String = none in
        if_rule Decided (has_text (get nft s.positions)) (none', s)
          (if has_text referer && is_referer_duplicate referer wallet c.referer_policy s.referers
            then (none', s)
            else if is_cap_reached c.byreal_max_open_positions current
            then (none', full)
            else if c.dry_run
            then (dry, s)
            else go_on)
          (λ mapped. untouched none s (Quiet-refl s) refl refl)
          (λ unmapped.
            if_rule Decided
              (has_text referer && is_referer_duplicate referer wallet c.referer_policy s.referers)
              (none', s)
              (if is_cap_reached c.byreal_max_open_positions current
                then (none', full)
                else if c.dry_run
                then (dry, s)
                else go_on)
              (λ claimed. untouched none s (Quiet-refl s) refl refl)
              (λ unclaimed.
                if_rule Decided (is_cap_reached c.byreal_max_open_positions current) (none', full)
                  (if c.dry_run then (dry, s) else go_on)
                  (λ reached. record { lock_kept = refl; outcome = inl (refl, refl, inl refl) })
                  (λ below_cap.
                    if_rule Decided c.dry_run (dry, s) go_on
                      (λ is_dry. record {
                        lock_kept = refl;
                        outcome = inl (refl, refl, inr is_dry);
                      })
                      (λ live. open_unlocked-Decided (record {
                        unmapped = unmapped;
                        unclaimed = unclaimed;
                        below_cap = below_cap;
                        live = live;
                      })))))
