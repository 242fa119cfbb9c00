-- ===== src/Parser/Outcome/Exclusion.antt =====
-- Which events of a transaction exclude each other, and what an unreadable transaction gives
-- (src/monitor/parser.ts).
use clmm_copybot.Common.{
  ℕ, ◌≡◌, ◌⊎◌, inl, inr, refl, String, Bool, true, false, Option, List, arith, if◌then◌else◌, All,
}
use clmm_copybot.Parser.{
  Tx, Programs, ParsedEvent, byreal_open_position, byreal_increase_liquidity,
  byreal_decrease_liquidity, byreal_close_position, orca_open_position, orca_increase_liquidity,
  orca_decrease_liquidity, orca_close_position, dammv2_close_position, pcs_open_position,
  pcs_increase_liquidity, pcs_decrease_liquidity, pcs_close_position, dammv2_open_position,
  dammv2_add_liquidity, dammv2_remove_liquidity, dammv2_claim_fee,
}
use clmm_copybot.Parser.Byreal.{parse_byreal_operations}
use clmm_copybot.Parser.Pcs.{parse_pcs_operations}
use clmm_copybot.Parser.Orca.{parse_orca_operations}
use clmm_copybot.Parser.Dammv2.{parse_dammv2_operations}
use clmm_copybot.Parser.Clmm.{has_open_position}
use clmm_copybot.Parser.Emitted.Clmm.{byreal-All, pcs-All}
use clmm_copybot.Parser.Emitted.Orca.{orca-All, flags_in}
use clmm_copybot.Parser.Emitted.Dammv2

abbrev pub is_open : ParsedEvent → Bool
is_open (byreal_open_position o) = true
is_open (pcs_open_position o) = true
is_open (orca_open_position pool a b m) = true
is_open (dammv2_open_position pool m) = true
is_open _ = false

-- A change of a position that stays.
abbrev pub is_change : ParsedEvent → Bool
is_change (byreal_increase_liquidity m) = true
is_change (byreal_decrease_liquidity m l) = true
is_change (pcs_increase_liquidity m) = true
is_change (pcs_decrease_liquidity m l) = true
is_change (orca_increase_liquidity m) = true
is_change (orca_decrease_liquidity m) = true
is_change (dammv2_add_liquidity m) = true
is_change (dammv2_remove_liquidity m) = true
is_change (dammv2_claim_fee m) = true
is_change _ = false

-- No event of the one kind, or none of the other.
abbrev pub Exclusive : List ParsedEvent → Type 0
Exclusive es = All (λ e. is_open e ≡ false) es ⊎ All (λ e. is_change e ≡ false) es

abbrev Fits : Bool → ParsedEvent → Type 0
Fits opened e = if opened then is_change e ≡ false else is_open e ≡ false

Fits-Exclusive : (opened : Bool) (es : List ParsedEvent) → All (Fits opened) es → Exclusive es
Fits-Exclusive true es h = inr h
Fits-Exclusive false es h = inl h

on_open : (b : Bool) (e : ParsedEvent) → b ≡ true → is_change e ≡ false → Fits b e
on_open true e h k = k
on_open false e h k = absurd (ground (arith, h))

on_change : (b : Bool) (e : ParsedEvent) → b ≡ false → is_open e ≡ false → Fits b e
on_change false e h k = k
on_change true e h k = absurd (ground (arith, h))

on_close : (b : Bool) (e : ParsedEvent) → is_open e ≡ false → is_change e ≡ false → Fits b e
on_close true e h k = k
on_close false e h k = h

-- Opening a position adds liquidity to it, which is not reported as a change: the parsers of the
-- four NFT exchanges never read both an opened position and an increase, a decrease or a claim
-- from one transaction.
pub parse-Exclusive :
    (decode : String → Option (List ℕ)) (programs : Programs) (tx : Tx) (logs : List String)
    (has_memo : Bool) (wallet : String)
    → Exclusive (parse_byreal_operations programs tx logs has_memo wallet)
      × (Exclusive (parse_pcs_operations programs tx logs has_memo wallet)
          × (Exclusive (parse_orca_operations decode programs tx wallet)
              × Exclusive (parse_dammv2_operations decode tx wallet)))
parse-Exclusive decode programs tx logs has_memo wallet = (
  Fits-Exclusive b _ (
      byreal-All (Fits b) tx wallet programs logs has_memo
        (λ h o k. on_open b (byreal_open_position o) h refl)
        (λ h m k. on_change b (byreal_increase_liquidity m) h refl)
        (λ h m l k. on_change b (byreal_decrease_liquidity m l) h refl)
        (λ m rs k. on_close b (byreal_close_position m rs) refl refl)),
  (
    Fits-Exclusive b _ (
        pcs-All (Fits b) tx wallet programs logs has_memo
          (λ h o k. on_open b (pcs_open_position o) h refl)
          (λ h m k. on_change b (pcs_increase_liquidity m) h refl)
          (λ h m l k. on_change b (pcs_decrease_liquidity m l) h refl)
          (λ m rs k. on_close b (pcs_close_position m rs) refl refl)),
    (
      Fits-Exclusive o _ (
          orca-All (Fits o) tx wallet decode programs
            (λ h p x y m k. on_open o (orca_open_position p x y m) h refl)
            (λ h m k. on_change o (orca_increase_liquidity m) h refl)
            (λ h m k. on_change o (orca_decrease_liquidity m) h refl)
            (λ m rs k. on_close o (orca_close_position m rs) refl refl)),
      Fits-Exclusive d _ (
          Dammv2.dammv2-All (Fits d) tx wallet decode
            (λ h p m k. on_open d (dammv2_open_position p m) h refl)
            (λ h m k. on_change d (dammv2_add_liquidity m) h refl)
            (λ h m k. on_change d (dammv2_remove_liquidity m) h refl)
            (λ m rs k. on_close d (dammv2_close_position m rs) refl refl)
            (λ h m k. on_change d (dammv2_claim_fee m) h refl)),
    ),
  ),
)
  where
    b : Bool
    b = has_open_position logs

    o : Bool
    o = (flags_in (Fits b) tx wallet decode programs).opened

    d : Bool
    d = (Dammv2.flags_in (Fits b) tx wallet decode).created
