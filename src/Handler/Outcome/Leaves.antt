-- ===== src/Handler/Outcome/Leaves.antt =====
-- The ends that the cases share: an entry for what was passed over or copied, and what follows it
-- (src/index.ts, `handleEvent`).
use clmm_copybot.Common.{
  ◌≡◌, refl, ap, String, true, false, Bool-cases, Option, none, some, List, [], ◌∷◌, inl, inr,
  if◌then◌else◌, has_text, is_text, All,
}
use clmm_copybot.ActivityLog.{EventLogEntry}
use clmm_copybot.PendingSwaps.Executor.{Received}
use clmm_copybot.PositionMap.Queries.{get}
use clmm_copybot.Handler.{
  Call, Answer, Effect, copy_decrease_liquidity, copy_close_position, Reduced, called, logged,
  bot_received, Venue, World, Env, cooling_down, has_mapping, Bot, emit, perform, skip, record_copy,
  record_reduced, refresh_all, refresh_caches,
}
use clmm_copybot.Handler.Shape.{
  Allowed, Reports, Signed, Shape, noted, threw, copied, after_receipt, IsAftermath, Has, if_rule,
  perform_rule,
}

module _ {S N R : Type 0} where
  -- A state of the handling before its entry.
  abbrev pub fresh : World S N R → Bot S N R
  fresh w = record { world = w; effects = []; thrown = false }

  -- One after a call.
  abbrev pub after : Call → World S N R → Bot S N R
  after c w = record { world = w; effects = called c ∷ []; thrown = false }

  -- One after the call of a close.
  abbrev pub closed_after : Venue → String → List Received → World S N R → Bot S N R
  closed_after v nft rs w = record {
    world = w;
    effects = bot_received rs ∷ called (copy_close_position v nft) ∷ [];
    thrown = false;
  }

module _ {S N R : Type 0} where
  -- The test of a cooldown touches the cooldowns alone.
  cooling_down-positions :
      (pool : Option String) (w : World S N R) → (cooling_down pool w).0.positions ≡ w.positions
  cooling_down-positions none w = refl
  cooling_down-positions (some pool) w = elim (Bool-cases (is_text pool)) [
    | inl there ↦ rw there refl
    | inr blank ↦ rw blank refl
  ]

  pub cooling_down-has_mapping :
      (pool : Option String) (nft : String) (w : World S N R)
      → has_mapping nft (cooling_down pool w).0 ≡ has_mapping nft w
  cooling_down-has_mapping pool nft w =
      ap (λ m. has_text (get nft m)) (cooling_down-positions pool w)

module _ {S N R : Type 0} (env : Env S N R) (w : World S N R) (wallet : String)
    (dex : Option String) (nft : String) (Asked : Call → Type 0) where
  abbrev pub Does : Bot S N R → Type 0
  Does = Has env w wallet dex (some nft) Asked

  pub skip-Has :
      (reason : String) (pool : Option String) (w' : World S N R)
      → Does (skip wallet dex nft reason pool (fresh w'))
  skip-Has reason pool w' = record { shape = noted _ (refl, refl, refl) }

  pub receive-Has :
      (rs : List Received) (b : Bot S N R)
      → Does b
      → Does (record b { effects = bot_received rs ∷ b.effects })
  receive-Has rs b h = record { shape = after_receipt rs h.shape }

  -- A call that is allowed, and that a world `w'` answers.
  module _ (c : Call) (w' : World S N R) (allowed : Allowed w wallet c) (named : Asked c) where
    module _ (a : Answer c) (answered : (env c w').0 ≡ some a) where
      pub entry_all-Has :
          (type : String) (sig : Option String) (pool : Option String) (w'' : World S N R)
          → ((e : EventLogEntry) → Signed sig e → Reports c a e)
          → Does (refresh_all sig (record_copy wallet dex type nft sig pool (after c w'')))
      entry_all-Has type sig pool w'' reports =
          if_rule Does (has_text sig) _ _
            (λ there. record {
              shape =
                  copied c w' a _ _ allowed named answered (refl, refl, refl)
                    (reports _ (refl, refl)) (tt, (tt, tt));
            })
            (λ lacks. record {
              shape =
                  copied c w' a _ [] allowed named answered (refl, refl, refl)
                    (reports _ (refl, refl)) tt;
            })

      pub entry_caches-Has :
          (type : String) (sig : Option String) (pool : Option String) (w'' : World S N R)
          → ((e : EventLogEntry) → Signed sig e → Reports c a e)
          → Does (refresh_caches sig (record_copy wallet dex type nft sig pool (after c w'')))
      entry_caches-Has type sig pool w'' reports =
          if_rule Does (has_text sig) _ _
            (λ there. record {
              shape =
                  copied c w' a _ _ allowed named answered (refl, refl, refl)
                    (reports _ (refl, refl)) (tt, tt);
            })
            (λ lacks. record {
              shape =
                  copied c w' a _ [] allowed named answered (refl, refl, refl)
                    (reports _ (refl, refl)) tt;
            })

      -- An entry that says why the executor did nothing.
      pub entry_skip-Has :
          (reason : String) (pool : Option String) (w'' : World S N R)
          → ((e : EventLogEntry) → e.type ≡ "SKIP" → Reports c a e)
          → Does (skip wallet dex nft reason pool (after c w''))
      entry_skip-Has reason pool w'' reports = record {
        shape = copied c w' a _ [] allowed named answered (refl, refl, refl) (reports _ refl) tt;
      }

    pub threw-Has :
        (w'' : World S N R)
        → (env c w').0 ≡ none
        → Does (record { world = w''; effects = called c ∷ []; thrown = true })
    threw-Has w'' t = record { shape = threw c w' allowed named t }

  reduced-Has :
      (v : Venue) (w' : World S N R) (r : Option Reduced) (w'' : World S N R)
      → Allowed w wallet (copy_decrease_liquidity v nft)
      → Asked (copy_decrease_liquidity v nft)
      → (env (copy_decrease_liquidity v nft) w').0 ≡ some r
      → Does (record_reduced wallet dex nft r (after (copy_decrease_liquidity v nft) w''))
  reduced-Has v w' none w'' allowed asked answered = record {
    shape = copied _ w' none _ [] allowed asked answered (refl, refl, refl) refl tt;
  }
  reduced-Has v w' (some r) w'' allowed asked answered = record {
    shape = copied _ w' (some r) _ _ allowed asked answered (refl, refl, refl) refl (tt, tt);
  }

  -- A decrease, at any venue.
  pub reduce-Has :
      (v : Venue) (reason : String)
      → Asked (copy_decrease_liquidity v nft)
      → Does (
          if has_mapping nft w
          then perform env (copy_decrease_liquidity v nft) (fresh w) (record_reduced wallet dex nft)
          else skip wallet dex nft reason none (fresh w))
  reduce-Has v reason asked =
      if_rule Does (has_mapping nft w) _ _
        (λ mapped.
          perform_rule env Does (copy_decrease_liquidity v nft) (fresh w) _
            (λ w'' t. threw-Has (copy_decrease_liquidity v nft) w mapped asked w'' t)
            (λ r w'' h. reduced-Has v w r w'' mapped asked h))
        (λ unmapped. skip-Has reason none w)

  -- A close, at any venue: `k` is what is done with its answer. The tokens that the target
  -- received are recorded first, whether or not the position is mapped.
  pub close-Has :
      (v : Venue) (rs : List Received) (reason : String) (k : Option String → Bot S N R → Bot S N R)
      → Asked (copy_close_position v nft)
      → ((sig : Option String)
          → has_mapping nft w ≡ true
          → (env (copy_close_position v nft) w).0 ≡ some sig
          → (w'' : World S N R) → Does (k sig (closed_after v nft rs w'')))
      → Does (
          if has_mapping nft w
          then perform env (copy_close_position v nft) (emit (bot_received rs) (fresh w)) k
          else skip wallet dex nft reason none (emit (bot_received rs) (fresh w)))
  close-Has v rs reason k asked answers =
      if_rule Does (has_mapping nft w) _ _
        (λ mapped.
          perform_rule env Does (copy_close_position v nft) (emit (bot_received rs) (fresh w)) k
            (λ w'' t. record { shape = after_receipt rs (threw _ w mapped asked t) })
            (λ sig w'' h. answers sig mapped h w''))
        (λ unmapped. record { shape = after_receipt rs (noted _ (refl, refl, refl)) })

  -- The entry of a close, which is about the NFT, and what follows it.
  pub closed-Has :
      (v : Venue) (rs : List Received) (sig : Option String) (e : EventLogEntry) (fs : List Effect)
      → Asked (copy_close_position v nft)
      → has_mapping nft w ≡ true
      → (env (copy_close_position v nft) w).0 ≡ some sig
      → (e.target_wallet ≡ wallet) × (e.target_nft ≡ some nft) × (e.dex ≡ none)
      → Reports (copy_close_position v nft) sig e
      → All IsAftermath fs
      → Shape env w wallet dex
          (some nft)
          Asked
          (bot_received rs ∷ called (copy_close_position v nft) ∷ logged e dex ∷ fs)
          false
  closed-Has v rs sig e fs asked mapped h says reports rest =
      after_receipt rs (copied _ w sig e fs mapped asked h says reports rest)

  pub closed_all-Has :
      (v : Venue) (rs : List Received) (sig pool : Option String) (w'' : World S N R)
      → Asked (copy_close_position v nft)
      → has_mapping nft w ≡ true
      → (env (copy_close_position v nft) w).0 ≡ some sig
      → Does (
          refresh_all sig (record_copy wallet dex "CLOSE" nft sig pool (closed_after v nft rs w'')))
  closed_all-Has v rs sig pool w'' asked mapped h =
      if_rule Does (has_text sig) _ _
        (λ there. record {
          shape =
              closed-Has v rs sig _ _ asked mapped h (refl, refl, refl) (inl (refl, refl))
                (tt, (tt, tt));
        })
        (λ lacks. record {
          shape = closed-Has v rs sig _ [] asked mapped h (refl, refl, refl) (inl (refl, refl)) tt;
        })
