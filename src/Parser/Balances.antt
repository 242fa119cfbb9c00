-- ===== src/Parser/Balances.antt =====
-- What the token balances before and after a transaction say: position NFTs that are new, held or
-- gone, and the tokens that the wallet received (src/monitor/parser.ts).
use clmm_copybot.Common.{
  ℕ, ◌-◌, String, Bool, true, false, ◌&&◌, not, Option, none, some, List, [], ◌∷◌, ltb, ◌==◌,
  if◌then◌else◌, str_eq, value_or, any,
}
use clmm_copybot.Common.Dict.{lookup, insert}
use clmm_copybot.PendingSwaps.Executor.{Received}
use clmm_copybot.Parser.{UiAmount, null_amount, whole, fraction, TokenBalance, Tx}

-- `uiAmount === n`.
abbrev pub is_amount : ℕ → UiAmount → Bool
is_amount n null_amount = false
is_amount n (whole m) = m == n
is_amount n (fraction t) = false

abbrev pub owned_by : String → Option String → Bool
owned_by wallet none = false
owned_by wallet (some owner) = str_eq owner wallet

-- A balance of the wallet that is a position NFT: no decimals, amount 1.
abbrev pub is_nft : String → TokenBalance → Bool
is_nft wallet b = owned_by wallet b.owner && ((b.decimals == 0) && is_amount 1 b.ui_amount)

abbrev pub same_account : TokenBalance → TokenBalance → Bool
same_account a b = (a.account_index == b.account_index) && str_eq a.mint b.mint

unfoldable pub new_nfts : String → List TokenBalance → List TokenBalance → List String
new_nfts wallet pre [] = []
new_nfts wallet pre (b ∷ post) =
    let rest = new_nfts wallet pre post in
    if is_nft wallet b && not (any (λ a. same_account a b) pre) then b.mint ∷ rest else rest

unfoldable pub find_new_nft_mints_from_tx : Tx → String → List String
unfolding new_nfts
find_new_nft_mints_from_tx tx wallet = new_nfts wallet tx.pre_token_balances tx.post_token_balances

-- `find` of the balance after, and whether it says that the token is gone.
abbrev pub gone : TokenBalance → List TokenBalance → Bool
gone a [] = true
gone a (b ∷ post) =
    let rest = gone a post in if same_account b a then is_amount 0 b.ui_amount else rest

unfoldable pub closed_nfts : String → List TokenBalance → List TokenBalance → List String
closed_nfts wallet post [] = []
closed_nfts wallet post (a ∷ pre) =
    let rest = closed_nfts wallet post pre in
    if is_nft wallet a && gone a post then a.mint ∷ rest else rest

unfoldable pub find_closed_nft_mints_from_tx : Tx → String → List String
unfolding closed_nfts
find_closed_nft_mints_from_tx tx wallet =
    closed_nfts wallet tx.post_token_balances tx.pre_token_balances

-- The first NFT held before: the loop with its `break` that the increase and decrease parsers share.
unfoldable pub first_nft : String → List TokenBalance → Option String
first_nft wallet [] = none
first_nft wallet (a ∷ pre) =
    let rest = first_nft wallet pre in if is_nft wallet a then some a.mint else rest

-- `preMap`: the raw amounts before, by mint.
unfoldable pub pre_map : String → List TokenBalance → List (String × ℕ) → List (String × ℕ)
pre_map wallet [] m = m
pre_map wallet (a ∷ pre) m =
    pre_map wallet pre
      (if owned_by wallet a.owner && ltb 0 a.decimals then insert a.mint a.amount m else m)

-- `diff > 0n` is tested on the amounts themselves.
unfoldable pub increases : String → List (String × ℕ) → List TokenBalance → List Received
increases wallet m [] = []
increases wallet m (b ∷ post) =
    let before = value_or (lookup b.mint m) 0 in
    let rest = increases wallet m post in
    if owned_by wallet b.owner && (not (b.decimals == 0) && ltb before b.amount)
    then record { mint = b.mint; amount = b.amount - before } ∷ rest
    else rest

unfoldable pub parse_bot_received_tokens : Tx → String → List Received
unfolding pre_map increases
parse_bot_received_tokens tx wallet =
    increases wallet (pre_map wallet tx.pre_token_balances []) tx.post_token_balances
