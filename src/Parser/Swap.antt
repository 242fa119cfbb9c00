-- ===== src/Parser/Swap.antt =====
-- A Jupiter swap, read from the balances before and after (src/monitor/parser.ts,
-- `parseJupiterSwap`). `N` is JavaScript's `number`, with the operations that the code uses.
use clmm_copybot.Common.{
  ℕ, zero, suc, ◌+◌, ◌-◌, String, Bool, ◌&&◌, ◌||◌, not, Option, none, some, List, [], ◌∷◌, ◌==◌,
  if◌then◌else◌, str_eq, is_text, value_or, get_elem?,
}
use clmm_copybot.Common.Dict.{lookup, insert}
use clmm_copybot.Parser.{TokenBalance, Tx, ParsedEvent, jupiter_swap}
use clmm_copybot.Parser.Balances.{owned_by}

-- `parse_float` reads a text; `lamports n` is n / 1e9; `to_fixed d x` prints x with d decimals.
pub record Numbers (N : Type 0) : Type 0 where
  pub parse_float : String → N
  pub lamports : ℕ → N
  pub add : N → N → N
  pub sub : N → N → N
  pub abs : N → N
  pub less : N → N → Bool
  pub at_most : N → N → Bool
  pub to_fixed : ℕ → N → String

pub record Change (N : Type 0) : Type 0 where
  pub pre : N
  pub post : N
  pub decimals : ℕ
  pub pre_raw : ℕ
  pub post_raw : ℕ

-- The variables of the last two steps; an empty mint is not found yet.
pub record Found : Type 0 where
  pub input_mint : String
  pub output_mint : String
  pub input_amount : String
  pub output_amount : String
  pub input_decimals : ℕ
  pub output_decimals : ℕ
  pub input_amount_raw : ℕ
  pub input_pre_balance_raw : ℕ

abbrev pub not_found : Found
not_found = record {
  input_mint = "";
  output_mint = "";
  input_amount = "0";
  output_amount = "0";
  input_decimals = 9;
  output_decimals = 9;
  input_amount_raw = 0;
  input_pre_balance_raw = 0;
}

abbrev pub sol_mint : String
sol_mint = "So11111111111111111111111111111111111111112"

-- The difference of two amounts without its sign.
abbrev pub distance : ℕ → ℕ → ℕ
distance a b = (a - b) + (b - a)

abbrev pub text_or_zero : Option String → String
text_or_zero none = "0"
text_or_zero (some t) = if is_text t then t else "0"

-- `findIndex`.
abbrev pub index_of : String → List String → Option ℕ
index_of k [] = none
index_of k (x ∷ xs) =
    let rest = index_of k xs in
    if str_eq x k then some 0 else elim rest [ none ↦ none | some i ↦ some (suc i) ]

module _ {N : Type 0} (num : Numbers N) where
  abbrev ui : TokenBalance → N
  ui b = num.parse_float (text_or_zero b.ui_amount_string)

  abbrev pub counts : String → TokenBalance → Bool
  counts wallet b = owned_by wallet b.owner && is_text b.mint

  unfoldable pub changes_pre :
      String → List TokenBalance → List (String × Change N) → List (String × Change N)
  changes_pre wallet [] m = m
  changes_pre wallet (b ∷ pre) m = changes_pre wallet pre (
      if counts wallet b
      then insert b.mint
          (record {
            pre = ui b;
            post = num.lamports 0;
            decimals = b.decimals;
            pre_raw = b.amount;
            post_raw = 0;
          })
          m
      else m)

  unfoldable pub changes_post :
      String → List TokenBalance → List (String × Change N) → List (String × Change N)
  changes_post wallet [] m = m
  changes_post wallet (b ∷ post) m =
      let before = value_or (lookup b.mint m) (record {
        pre = num.lamports 0;
        post = num.lamports 0;
        decimals = b.decimals;
        pre_raw = 0;
        post_raw = 0;
      }) in
      changes_post wallet post (
        if counts wallet b
        then insert b.mint (record before { post = ui b; post_raw = b.amount }) m
        else m)

  -- One token: a decrease is the input, an increase the output; the last of each wins.
  unfoldable pub find_change : String → Change N → Found → Found
  find_change mint c f =
      let diff = num.sub c.post c.pre in
      if num.less diff (num.parse_float "-0.000001")
      then record f {
        input_mint = mint;
        input_amount = num.to_fixed c.decimals (num.abs diff);
        input_decimals = c.decimals;
        input_pre_balance_raw = c.pre_raw;
        input_amount_raw = distance c.pre_raw c.post_raw;
      }
      else if num.less (num.parse_float "0.000001") diff
      then record f {
        output_mint = mint;
        output_amount = num.to_fixed c.decimals diff;
        output_decimals = c.decimals;
      }
      else f

  unfoldable pub find_changes : List (String × Change N) → Found → Found
  unfolding find_change
  find_changes [] f = f
  find_changes ((mint, c) ∷ m) f = find_changes m (find_change mint c f)

  -- The native balance: the fee is given back where the wallet pays it. A fee of 0 reads as 5000.
  abbrev pub fee_of : Option ℕ → ℕ
  fee_of none = 5000
  fee_of (some zero) = 5000
  fee_of (some (suc n)) = suc n

  unfoldable pub find_sol : N → N → Found → Found
  find_sol diff fee_adj f =
      if num.less diff (num.parse_float "-0.01") && not (is_text f.input_mint)
      then record f {
        input_mint = sol_mint;
        input_amount = num.to_fixed 9 (num.abs (num.add diff fee_adj));
        input_decimals = 9;
      }
      else if num.less (num.parse_float "0.01") diff && not (is_text f.output_mint)
      then record f {
        output_mint = sol_mint;
        output_amount = num.to_fixed 9 diff;
        output_decimals = 9;
      }
      else f

  -- Where an index is out of range the source computes with NaN, which no comparison holds of.
  abbrev sol_at : ℕ → ℕ → Option ℕ → Option ℕ → Found → Found
  sol_at index fee (some before) (some after) f =
      find_sol (num.sub (num.lamports after) (num.lamports before))
        (if index == 0 then num.lamports fee else num.lamports 0) f
  sol_at index fee (some before) none f = f
  sol_at index fee none after f = f

  abbrev pub sol_change : Option (List ℕ) → Option (List ℕ) → Option ℕ → Option ℕ → Found → Found
  sol_change (some pre) (some post) (some index) fee f =
      sol_at index (fee_of fee) (get_elem? pre index) (get_elem? post index) f
  sol_change (some pre) (some post) none fee f = f
  sol_change (some pre) none index fee f = f
  sol_change none post index fee f = f

  -- Neither a wrap of SOL nor an NFT is a swap.
  abbrev pub is_single : ℕ → String → Bool
  is_single decimals amount =
      (decimals == 0) && num.at_most (num.parse_float amount) (num.parse_float "1")

  unfoldable pub swap_of : Found → Option ParsedEvent
  swap_of f =
      if is_text f.input_mint && is_text f.output_mint
      then (if str_eq f.input_mint sol_mint && str_eq f.output_mint sol_mint
          then none
          else if is_single f.input_decimals f.input_amount
              || is_single f.output_decimals f.output_amount
          then none
          else some (
              jupiter_swap (record {
                input_mint = f.input_mint;
                output_mint = f.output_mint;
                input_amount = f.input_amount;
                output_amount = f.output_amount;
                input_decimals = f.input_decimals;
                output_decimals = f.output_decimals;
                input_amount_raw = f.input_amount_raw;
                input_pre_balance_raw = f.input_pre_balance_raw;
              })))
      else none

  unfoldable pub parse_jupiter_swap : Tx → String → Option ParsedEvent
  unfolding changes_pre changes_post find_changes find_sol swap_of
  parse_jupiter_swap tx wallet =
      let m =
        changes_post wallet tx.post_token_balances (changes_pre wallet tx.pre_token_balances []) in
      swap_of (
        sol_change tx.pre_balances tx.post_balances (index_of wallet tx.account_keys) tx.fee
          (find_changes m not_found))
