-- ===== src/Handler/Shape.antt =====
-- What the handling of one event may do: at most one call of an executor, which its guards allow,
-- and at most one entry (src/index.ts, `handleEvent`). `Asked` says which calls the event asks for.
use clmm_copybot.Common.{
  ◌<◌, ◌≡◌, ◌⊎◌, refl, String, Bool, true, false, ◌||◌, Option, none, some, List, [], ◌∷◌,
  if◌then◌else◌, has, has_text, or_none, is_some, All,
}
use clmm_copybot.ActivityLog.{EventLogEntry}
use clmm_copybot.PendingSwaps.Executor.{Received}
use clmm_copybot.Handler
use clmm_copybot.Handler.{
  Venue, Call, copy_open_position, copy_increase_liquidity, copy_decrease_liquidity,
  copy_close_position, copy_claim_fee, swap_token_to_usdc, Answer, Effect, called, logged,
  swap_logged, bot_received, price_refreshed, caches_invalidated, pnl_checked, Executor, Config,
  World, Bot, Env, Each, start, emit, has_mapping, continue, perform,
}

-- Whether an executor opens nothing at present; one that is not enabled never does.
abbrev pub is_paused : Option Executor → Bool
is_paused none = true
is_paused (some x) = x.sol_paused || x.drawdown_paused

abbrev pub at_venue : {A : Type 0} → Venue → Each A → A
at_venue Handler.byreal t = t.byreal
at_venue Handler.orca t = t.orca
at_venue Handler.meteora t = t.meteora
at_venue Handler.pcs t = t.pcs
at_venue Handler.dammv2 t = t.dammv2

module _ {S N R : Type 0} where
  abbrev pub executors : World S N R → Each (Option Executor)
  executors w = record {
    byreal = some w.byreal;
    orca = w.orca;
    meteora = w.meteora;
    pcs = w.pcs;
    dammv2 = w.dammv2;
  }

  -- The executor of the venue may add liquidity for the wallet.
  abbrev pub MayAdd : World S N R → String → Venue → Type 0
  MayAdd w wallet v =
      (is_paused (at_venue v (executors w)) ≡ false)
      × (has wallet (at_venue v w.config.close_only_wallets) ≡ false)

  -- The calls that the state at the start of an event allows.
  abbrev pub Allowed : World S N R → String → Call → Type 0
  Allowed w wallet (copy_open_position v nft pool referer target) =
      MayAdd w wallet v × (has_mapping nft w ≡ false) × (target ≡ wallet)
  Allowed w wallet (copy_increase_liquidity v nft target) =
      MayAdd w wallet v × (has_mapping nft w ≡ true) × (target ≡ wallet)
  Allowed w wallet (copy_decrease_liquidity v nft) = has_mapping nft w ≡ true
  Allowed w wallet (copy_close_position v nft) = has_mapping nft w ≡ true
  Allowed w wallet (copy_claim_fee nft) = has_mapping nft w ≡ true
  Allowed w wallet (swap_token_to_usdc mint max_raw) = 0 < max_raw

abbrev pub Signed : Option String → EventLogEntry → Type 0
Signed sig e = (e.success ≡ has_text sig) × (e.tx_sig ≡ or_none sig)

-- What the entry says of the answer: success exactly if there is a signature, or a skip where the
-- executor gave none.
abbrev pub Reports : (c : Call) → Answer c → EventLogEntry → Type 0
Reports (copy_open_position v nft pool referer target) sig e =
    Signed sig e ⊎ ((sig ≡ none) × (e.type ≡ "SKIP"))
Reports (copy_increase_liquidity v nft target) sig e = Signed sig e
Reports (copy_decrease_liquidity v nft) r e = e.success ≡ is_some r
Reports (copy_close_position v nft) sig e = Signed sig e ⊎ ((sig ≡ none) × (e.type ≡ "SKIP"))
Reports (copy_claim_fee nft) sig e = ⊥
Reports (swap_token_to_usdc mint max_raw) r e = (e.success ≡ true) × (is_some r ≡ true)

-- The calls that may end without an entry: a claim, and a swap of nothing.
abbrev pub Unreported : (c : Call) → Answer c → Type 0
Unreported (copy_claim_fee nft) sig = Unit
Unreported (swap_token_to_usdc mint max_raw) r = r ≡ none
Unreported _ r = ⊥

-- What follows an entry: no call, and no further entry.
abbrev pub IsAftermath : Effect → Type 0
IsAftermath (called c) = ⊥
IsAftermath (logged e dex) = ⊥
IsAftermath (bot_received rs) = ⊥
IsAftermath _ = Unit

module _ {S N R : Type 0} (env : Env S N R) (w : World S N R) (wallet : String)
    (dex : Option String) (nft : Option String) (Asked : Call → Type 0) where
  -- The entry names the wallet and the position, and has no venue of its own.
  abbrev pub Says : EventLogEntry → Type 0
  Says e = (e.target_wallet ≡ wallet) × (e.target_nft ≡ nft) × (e.dex ≡ none)

  pub data Shape : List Effect → Bool → Type 0 where
    silent : Shape [] false
    noted : (e : EventLogEntry) → Says e → Shape (logged e dex ∷ []) false
    threw :
        (c : Call) (w' : World S N R)
        → Allowed w wallet c
        → Asked c
        → (env c w').0 ≡ none
        → Shape (called c ∷ []) true
    copied :
        (c : Call) (w' : World S N R) (a : Answer c) (e : EventLogEntry) (fs : List Effect)
        → Allowed w wallet c
        → Asked c
        → (env c w').0 ≡ some a
        → Says e
        → Reports c a e
        → All IsAftermath fs
        → Shape (called c ∷ logged e dex ∷ fs) false
    unreported :
        (c : Call) (w' : World S N R) (a : Answer c) (fs : List Effect)
        → Allowed w wallet c
        → Asked c
        → (env c w').0 ≡ some a
        → Unreported c a
        → All IsAftermath fs
        → Shape (called c ∷ fs) false
    after_receipt :
        (rs : List Received) {es : List Effect} {t : Bool}
        → Shape es t
        → Shape (bot_received rs ∷ es) t

  pub record Has (b : Bot S N R) : Type 0 where
    pub shape : Shape b.effects b.thrown

  abbrev pub has_shape : {b : Bot S N R} → Shape b.effects b.thrown → Has b
  has_shape s = record { shape = s }

-- A branch, by its test.
pub if_rule :
    {A : Type 0} (Q : A → Type 0) (c : Bool) (x y : A)
    → (c ≡ true → Q x)
    → (c ≡ false → Q y)
    → Q (if c then x else y)
if_rule Q true x y h k = h refl
if_rule Q false x y h k = k refl

-- A call, by its answers.
pub perform_rule :
    {S N R : Type 0} (env : Env S N R) (Q : Bot S N R → Type 0) (c : Call) (b : Bot S N R)
    (k : Answer c → Bot S N R → Bot S N R)
    → ((w : World S N R)
        → (env c b.world).0 ≡ none
        → Q (record (emit (called c) b) { world = w; thrown = true }))
    → ((a : Answer c) (w : World S N R)
        → (env c b.world).0 ≡ some a
        → Q (k a (record (emit (called c) b) { world = w })))
    → Q (perform env c b k)
perform_rule {S} {N} {R} env Q c b k fails answers = go (env c b.world) fails answers
  where
    go :
        (r : Option (Answer c) × World S N R)
        → ((w : World S N R)
            → r.0 ≡ none
            → Q (record (emit (called c) b) { world = w; thrown = true }))
        → ((a : Answer c) (w : World S N R)
            → r.0 ≡ some a
            → Q (k a (record (emit (called c) b) { world = w })))
        → Q (continue env r (emit (called c) b) k)
    go (none, w) f g = f w refl
    go (some a, w) f g = g a w refl
