-- ===== src/TokenLosses/Streaks.antt =====
-- Streaks and cooldowns say what the results of a token were (src/executor/byreal-position.ts,
-- `recordTokenPnl`).
use clmm_copybot.Common.{
  ℕ, suc, ◌+◌, ◌*◌, ◌≡◌, refl, ap, ◌∙◌, String, Bool, true, false, ◌&&◌, Option, none, some, List,
  [], ◌∷◌, arith, if◌then◌else◌, str_eq, eq_iff, is_text, value_or, Bool-cases, inl, inr,
}
use clmm_copybot.Common.Dict.{lookup, insert, lookup-insert, lookup-delete}
use clmm_copybot.TokenLosses.Pool.{extract_token}
use clmm_copybot.TokenLosses.{
  LossConfig, Losses, new, cools, record_streak, record_token_pnl, set_token_pnl,
}

-- The result of a closed position.
pub record Result (N : Type 0) : Type 0 where
  pub closed_at : ℕ
  pub pool : String
  pub pnl : N

module _ {N : Type 0} (nought : N) (plus : N → N → N) (negative : N → Bool) (cfg : LossConfig) where
  -- The results, the latest first, recorded from the oldest on.
  unfoldable pub record_all : List (Result N) → Losses N
  record_all [] = new
  record_all (r ∷ older) =
      record_token_pnl nought plus negative cfg r.closed_at r.pool r.pnl (record_all older)

  abbrev pub is_about : String → Result N → Bool
  is_about token r = is_text r.pool && str_eq (extract_token r.pool) token

  -- How many of the latest results of the token are losses in a row.
  abbrev pub losses_in_row : String → List (Result N) → ℕ
  losses_in_row token [] = 0
  losses_in_row token (r ∷ older) =
      let n = losses_in_row token older in
      if is_about token r then (if negative r.pnl then suc n else 0) else n

  -- When the cooldown of the token ends, if its losses in a row have started one: counted from the
  -- latest loss.
  abbrev pub cools_until : String → List (Result N) → Option ℕ
  cools_until token [] = none
  cools_until token (r ∷ older) =
      let before = cools_until token older in
      if is_about token r
      then (if negative r.pnl && cools cfg token (losses_in_row token (r ∷ older))
          then some (r.closed_at + cfg.token_cooldown_minutes * 60 * 1000)
          else none)
      else before

  -- Too few losses in a row, no cooldown.
  no_cooldown :
      (token : String) (rs : List (Result N))
      → cools cfg token (losses_in_row token rs) ≡ false
      → cools_until token rs ≡ none
  no_cooldown token [] h = refl
  no_cooldown token (r ∷ older) h =
      go (is_about token r) (negative r.pnl) (losses_in_row token older) (cools_until token older) h
        (no_cooldown token older)
    where
      go :
          (a b : Bool) (n : ℕ) (before : Option ℕ)
          → cools cfg token (if a then (if b then suc n else 0) else n) ≡ false
          → (cools cfg token n ≡ false → before ≡ none)
          → (if a
              then (if b && cools cfg token (if a then (if b then suc n else 0) else n)
                  then some (r.closed_at + cfg.token_cooldown_minutes * 60 * 1000)
                  else none)
              else before)
            ≡ none
      go true true n before h k = rw h refl
      go true false n before h k = refl
      go false b n before h k = k h

  fewer_losses :
      (token : String) (n : ℕ) → cools cfg token (suc n) ≡ false → cools cfg token n ≡ false
  fewer_losses token n h = ground (arith, h)

  -- A result, against what is known of the older ones.
  abbrev pub Recorded : String → List (Result N) → Losses N → Type 0
  Recorded token rs s =
      (value_or (lookup token s.token_loss_streak) 0 ≡ losses_in_row token rs)
      × (lookup token s.token_cooldowns ≡ cools_until token rs)

  streak_step :
      (now : ℕ) (t token : String) (neg : Bool) (s : Losses N)
      → value_or
          (lookup token (record_streak nought plus negative cfg now t neg s).token_loss_streak)
          0
        ≡ (if str_eq t token
            then (if neg then suc (value_or (lookup token s.token_loss_streak) 0) else 0)
            else value_or (lookup token s.token_loss_streak) 0)
  streak_step now t token false s =
      rw (lookup-insert token t 0 s.token_loss_streak) (ground (arith, eq_iff t token))
  streak_step now t token true s = elim (Bool-cases (str_eq t token)) [
    | inl same ↦
        rw (lookup-insert token t _ s.token_loss_streak)
          (rw (same, (eq_iff t token).0 same) (omega arith))
    | inr other ↦ rw (lookup-insert token t _ s.token_loss_streak) (rw other refl)
  ]

  add_one : (n : ℕ) → n + 1 ≡ suc n
  add_one n = omega arith

  if_either : {A : Type 0} (c : Bool) (x : A) → (if c then x else x) ≡ x
  if_either true x = refl
  if_either false x = refl

  if_insert :
      (k t : String) (v : ℕ) (m : List (String × ℕ)) (c : Bool)
      → lookup k (if c then insert t v m else m)
        ≡ (if c then (if str_eq t k then some v else lookup k m) else lookup k m)
  if_insert k t v m true = lookup-insert k t v m
  if_insert k t v m false = refl

  cooldown_step :
      (now : ℕ) (t token : String) (neg : Bool) (s : Losses N)
      → lookup token (record_streak nought plus negative cfg now t neg s).token_cooldowns ≡ (
          if str_eq t token
          then (if neg
              then (if cools cfg token (suc (value_or (lookup token s.token_loss_streak) 0))
                  then some (now + cfg.token_cooldown_minutes * 60 * 1000)
                  else lookup token s.token_cooldowns)
              else none)
          else lookup token s.token_cooldowns)
  cooldown_step now t token false s =
      rw (lookup-delete token t s.token_cooldowns) (ground (arith, eq_iff t token))
  cooldown_step now t token true s = elim (Bool-cases (str_eq t token)) [
    | inl same ↦
        rw (if_insert token t (now + cfg.token_cooldown_minutes * 60 * 1000) s.token_cooldowns _) (
          rw (same, (eq_iff t token).0 same)
            (ap
              (λ j.
                if cools cfg token j
                then some (now + cfg.token_cooldown_minutes * 60 * 1000)
                else lookup token s.token_cooldowns)
              (add_one (value_or (lookup token s.token_loss_streak) 0))))
    | inr other ↦
        rw (if_insert token t (now + cfg.token_cooldown_minutes * 60 * 1000) s.token_cooldowns _)
          (rw other (if_either _ (lookup token s.token_cooldowns)))
  ]

  -- What a result does to the record of the token, by whether it is about it and a loss.
  cools_until_lem :
      (token : String) (r : Result N) (older : List (Result N)) (neg : Bool)
      → negative r.pnl ≡ neg
      → is_about token r ≡ true
      → (if neg
          then (if cools cfg token (suc (losses_in_row token older))
              then some (r.closed_at + cfg.token_cooldown_minutes * 60 * 1000)
              else cools_until token older)
          else none)
        ≡ cools_until token (r ∷ older)
  cools_until_lem token r older false n a = rw a (rw n refl)
  cools_until_lem token r older true n a =
      rw a (rw n (go (cools cfg token (suc (losses_in_row token older))) refl))
    where
      go :
          (c : Bool)
          → cools cfg token (suc (losses_in_row token older)) ≡ c
          → (if c
              then some (r.closed_at + cfg.token_cooldown_minutes * 60 * 1000)
              else cools_until token older)
            ≡ (if true && c
                then some (r.closed_at + cfg.token_cooldown_minutes * 60 * 1000)
                else none)
      go true h = refl
      go false h = no_cooldown token older (fewer_losses token (losses_in_row token older) h)

  about_text :
      (token : String) (r : Result N) (b c : Bool)
      → is_text r.pool ≡ b
      → str_eq (extract_token r.pool) token ≡ c
      → is_about token r ≡ (b && c)
  about_text token r b c h k = rw h (rw k refl)

  record_step :
      (token : String) (r : Result N) (older : List (Result N)) (s : Losses N) (b c : Bool)
      → is_text r.pool ≡ b
      → str_eq (extract_token r.pool) token ≡ c
      → Recorded token older s
      → Recorded token
          (r ∷ older)
          (record_token_pnl nought plus negative cfg r.closed_at r.pool r.pnl s)
  unfolding record_token_pnl set_token_pnl
  record_step token r older s false c h k (streak, cooldown) = (rw h streak, rw h cooldown)
  record_step token r older s true false h k (streak, cooldown) = (
    rw h (streak_step r.closed_at (extract_token r.pool) token (negative r.pnl) s ∙ rw k streak),
    rw h
        (cooldown_step r.closed_at (extract_token r.pool) token (negative r.pnl) s ∙ rw k cooldown),
  )
  record_step token r older s true true h k (streak, cooldown) = (
    rw h (
        streak_step r.closed_at (extract_token r.pool) token (negative r.pnl) s
        ∙ rw k (rw streak refl)),
    after ∙ cools_until_lem token r older (negative r.pnl) refl (about_text token r true true h k),
  )
    where
      after :
          lookup token
            (record_token_pnl nought plus negative cfg r.closed_at r.pool r.pnl s).token_cooldowns
          ≡ (if negative r.pnl
              then (if cools cfg token (suc (losses_in_row token older))
                  then some (r.closed_at + cfg.token_cooldown_minutes * 60 * 1000)
                  else cools_until token older)
              else none)
      after = rw h (
          cooldown_step r.closed_at (extract_token r.pool) token (negative r.pnl) s
          ∙ rw k (rw (streak, cooldown) refl))

  -- After any results of any pools, the streak of a token is the number of its latest losses in a
  -- row, and a cooldown is noted for it exactly if those losses reach the limit, the limit is on
  -- and the token is not whitelisted; it ends the configured time after the latest loss.
  pub record_all_lem : (token : String) (rs : List (Result N)) → Recorded token rs (record_all rs)
  unfolding record_all
  record_all_lem token [] = unfold lookup in (refl, refl)
  record_all_lem token (r ∷ older) =
      record_step token r older (record_all older) (is_text r.pool)
        (str_eq (extract_token r.pool) token) refl refl (record_all_lem token older)
