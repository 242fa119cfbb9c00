-- ===== src/TokenLosses.antt =====
-- Losing tokens and their cooldowns: src/executor/byreal-position.ts, `extractToken` to
-- `recordTokenPnl`, with src/state/token-pnl-store.ts.
-- `N` is JavaScript's number, with its zero, its addition and the test `x < 0`.
pub mod Pool
pub mod Streaks
mod Tests
use clmm_copybot.Common.{
  ℕ, zero, suc, ◌+◌, ◌*◌, String, Bool, true, false, ◌&&◌, not, Option, none, some, List, [], ◌∷◌,
  ltb, leb, if◌then◌else◌, is_text, has, value_or,
}
use clmm_copybot.Common.Dict.{lookup, insert, delete}
use clmm_copybot.WriteChain.{Write, upsert, Chain, idle, push}
use clmm_copybot.TokenLosses.Pool.{extract_token}

pub record TokenPnl (N : Type 0) : Type 0 where
  pub total_pnl : N
  pub trade_count : ℕ
  pub last_loss_pnl : N
  pub last_trade_at : ℕ

pub record LossConfig : Type 0 where
  pub token_loss_streak_limit : ℕ
  pub token_cooldown_minutes : ℕ
  pub token_whitelist : List String

pub record Losses (N : Type 0) : Type 0 where
  pub token_loss_streak : List (String × ℕ)
  pub token_cooldowns : List (String × ℕ)
  pub token_pnl : List (String × TokenPnl N)
  pub writes : Chain (TokenPnl N)

-- Whether a streak starts a cooldown: the limit is on, and a whitelisted token is exempt.
abbrev pub cools : LossConfig → String → ℕ → Bool
cools cfg token streak =
    (leb cfg.token_loss_streak_limit streak && ltb 0 cfg.token_loss_streak_limit)
    && not (has token cfg.token_whitelist)

module _ {N : Type 0} where
  abbrev pub new : Losses N
  new = record { token_loss_streak = []; token_cooldowns = []; token_pnl = []; writes = idle }

  abbrev cooling_until : ℕ → String → Option ℕ → Losses N → Losses N × Bool
  cooling_until now token none s = (s, false)
  cooling_until now token (some zero) s = (s, false)
  cooling_until now token (some (suc n)) s =
      if leb (suc n) now
      then (
        record s {
          token_cooldowns = delete token s.token_cooldowns;
          token_loss_streak = delete token s.token_loss_streak;
        },
        false,
      )
      else (s, true)

  -- A cooldown that is over is forgotten with its streak.
  unfoldable pub is_token_cooling_down : ℕ → String → Losses N → Losses N × Bool
  is_token_cooling_down now pool s =
      if is_text pool
      then cooling_until now (extract_token pool) (lookup (extract_token pool) s.token_cooldowns) s
      else (s, false)

  unfoldable pub set_token_pnl : String → TokenPnl N → Losses N → Losses N
  set_token_pnl token e s = record s {
    token_pnl = insert token e s.token_pnl;
    writes = push (upsert token e) s.writes;
  }

  module _ (nought : N) (plus : N → N → N) (negative : N → Bool) (cfg : LossConfig) where
    abbrev pub record_streak : ℕ → String → Bool → Losses N → Losses N
    record_streak now token false s = record s {
      token_loss_streak = insert token 0 s.token_loss_streak;
      token_cooldowns = delete token s.token_cooldowns;
    }
    record_streak now token true s =
        let streak = value_or (lookup token s.token_loss_streak) 0 + 1 in
        record s {
          token_loss_streak = insert token streak s.token_loss_streak;
          token_cooldowns =
              if cools cfg token streak
              then insert token (now + cfg.token_cooldown_minutes * 60 * 1000) s.token_cooldowns
              else s.token_cooldowns;
        }

    abbrev pub updated_pnl : ℕ → N → Option (TokenPnl N) → TokenPnl N
    updated_pnl now pnl none = record {
      total_pnl = plus nought pnl;
      trade_count = 1;
      last_loss_pnl = if negative pnl then pnl else nought;
      last_trade_at = now;
    }
    updated_pnl now pnl (some e) = record {
      total_pnl = plus e.total_pnl pnl;
      trade_count = e.trade_count + 1;
      last_loss_pnl = if negative pnl then pnl else e.last_loss_pnl;
      last_trade_at = now;
    }

    unfoldable pub record_token_pnl : ℕ → String → N → Losses N → Losses N
    unfolding set_token_pnl
    record_token_pnl now pool pnl s =
        if is_text pool
        then set_token_pnl (extract_token pool)
            (updated_pnl now pnl (lookup (extract_token pool) s.token_pnl))
            (record_streak now (extract_token pool) (negative pnl) s)
        else s
