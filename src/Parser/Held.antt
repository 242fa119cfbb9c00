-- ===== src/Parser/Held.antt =====
-- The position NFTs that a parser names are the wallet's, and what it received are increases
-- (src/monitor/parser.ts).
use clmm_copybot.Common.{
  ℕ, ◌+◌, ◌≡◌, refl, ◌⊎◌, String, Bool, true, false, ◌&&◌, ◌||◌, some, List, [], ◌∷◌, arith,
  if◌then◌else◌, str_eq, eq_refl, any, value_or, All, All-map,
}
use clmm_copybot.Common.Dict.{lookup}
use clmm_copybot.PendingSwaps.Executor.{Received}
use clmm_copybot.Parser.{TokenBalance}
use clmm_copybot.Parser.Balances.{is_nft, owned_by, new_nfts, closed_nfts, first_nft}

-- Whether the wallet has a position NFT of this mint among the balances.
abbrev pub held : String → List TokenBalance → String → Bool
held wallet bs m = any (λ b. is_nft wallet b && str_eq b.mint m) bs

or_true : (a b : Bool) → b ≡ true → (a || b) ≡ true
or_true a b h = ground arith

keep_held :
    (wallet : String) (b : TokenBalance) (bs : List TokenBalance) (t : Bool) (rest : List String)
    → (t ≡ true → is_nft wallet b ≡ true)
    → All (λ m. held wallet bs m ≡ true) rest
    → All (λ m. held wallet (b ∷ bs) m ≡ true) (if t then b.mint ∷ rest else rest)
keep_held wallet b bs true rest nft h =
    (rw (nft refl) (rw (eq_refl b.mint) refl), All-map rest (λ m. or_true _ (held wallet bs m)) h)
keep_held wallet b bs false rest nft h = All-map rest (λ m. or_true _ (held wallet bs m)) h

pub new_nfts-held :
    (wallet : String) (pre post : List TokenBalance)
    → All (λ m. held wallet post m ≡ true) (new_nfts wallet pre post)
unfolding new_nfts
new_nfts-held wallet pre [] = tt
new_nfts-held wallet pre (b ∷ post) =
    keep_held wallet b post _ (new_nfts wallet pre post) (λ h. ground (arith, h))
      (new_nfts-held wallet pre post)

pub closed_nfts-held :
    (wallet : String) (post pre : List TokenBalance)
    → All (λ m. held wallet pre m ≡ true) (closed_nfts wallet post pre)
unfolding closed_nfts
closed_nfts-held wallet post [] = tt
closed_nfts-held wallet post (a ∷ pre) =
    keep_held wallet a pre _ (closed_nfts wallet post pre) (λ h. ground (arith, h))
      (closed_nfts-held wallet post pre)

pub first_nft-held :
    (wallet : String) (pre : List TokenBalance) (m : String)
    → first_nft wallet pre ≡ some m
    → held wallet pre m ≡ true
unfolding first_nft
first_nft-held wallet [] m h = ground arith
first_nft-held wallet (a ∷ pre) m h = ground (arith, first_nft-held wallet pre m, eq_refl m)

-- An amount that the wallet has more of after than before, and by how much.
abbrev pub IsIncrease : String → List (String × ℕ) → List TokenBalance → Received → Type 0
IsIncrease wallet m [] r = ⊥
IsIncrease wallet m (b ∷ post) r =
    ((owned_by wallet b.owner ≡ true)
      × (r.mint ≡ b.mint)
      × (value_or (lookup r.mint m) 0 + r.amount ≡ b.amount))
    ⊎ IsIncrease wallet m post r
