-- ===== src/TokenLosses/Tests.antt =====
-- Runs of the loss streaks, and their theorem at concrete results.
use clmm_copybot.Common.{ℕ, ◌+◌, ◌≡◌, refl, Bool, true, false, some, List, [], ◌∷◌, ltb}
use clmm_copybot.Common.Dict.{dict, lookup}
use clmm_copybot.TokenLosses.Pool.{extract_token}
use clmm_copybot.TokenLosses.{LossConfig, Losses, record_token_pnl, is_token_cooling_down}
use clmm_copybot.TokenLosses.Streaks.{Result, record_all, Recorded, record_all_lem}

abbrev limits : LossConfig
limits = record { token_loss_streak_limit = 2; token_cooldown_minutes = 1; token_whitelist = [] }

-- Numbers below 10 are losses.
abbrev is_loss : ℕ → Bool
is_loss n = ltb n 10

abbrev results : List (Result ℕ)
results =
    record { closed_at = 700; pool = "BONK/WIF"; pnl = 3 }
    ∷ record { closed_at = 600; pool = "BONK/WIF"; pnl = 4 }
    ∷ record { closed_at = 500; pool = "BONK/WIF"; pnl = 12 }
    ∷ []

abbrev recorded : Losses ℕ
recorded = record_all 0 ◌+◌ is_loss limits results

losses : Unit {0}
unfolding dict record_all record_token_pnl extract_token is_token_cooling_down
losses = tt

cooling_tests :
    ((is_token_cooling_down 60000 "BONK/WIF" recorded).1 ≡ true)
    × (((is_token_cooling_down 60700 "BONK/WIF" recorded).1 ≡ false)
        × (lookup "BONK" recorded.token_loss_streak ≡ some 2))
unfolding losses
cooling_tests = (refl, (refl, refl))

record_all_lem_example : Recorded 0 ◌+◌ is_loss limits "BONK" results recorded
record_all_lem_example = record_all_lem 0 ◌+◌ is_loss limits "BONK" results
