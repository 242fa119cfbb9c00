-- ===== src/Parser/Memo.antt =====
-- The regular expression of the memo, `/referer_position=([A-Za-z0-9]+)/` (src/monitor/parser.ts).
use Prim.Native.Char.{Char, code}
use Prim.Native.String.{String, [], ◌∷◌, len, slice}
use mathlib.Core.Bool.{Bool, ◌&&◌, ◌||◌}
use mathlib.Core.Option.{Option, none, some}
use mathlib.Core.List.{List}
use clmm_copybot.Common.{ℕ, leb, if◌then◌else◌, is_text, begins_with, ◌≡◌, refl}

abbrev between : ℕ → ℕ → ℕ → Bool
between a b n = leb a n && leb n b

abbrev is_alphanumeric : Char → Bool
is_alphanumeric c = between 65 90 (code c) || (between 97 122 (code c) || between 48 57 (code c))

abbrev alphanumerics : String → String
alphanumerics [] = []
alphanumerics (c ∷ s) = let rest = alphanumerics s in if is_alphanumeric c then c ∷ rest else []

abbrev key : String
key = "referer_position="

-- The group of the first match.
unfoldable pub memo_match : String → Option String
memo_match [] = none
memo_match (c ∷ s) =
    let rest = memo_match s in
    let group = alphanumerics (slice (c ∷ s) (len key) (len (c ∷ s))) in
    if begins_with (c ∷ s) key && is_text group then some group else rest

-- The first log that matches.
unfoldable pub first_memo : List String → Option String
unfolding memo_match
first_memo List.[] = none
first_memo (List.◌∷◌ log logs) =
    let rest = first_memo logs in elim (memo_match log) [ some m ↦ some m | none ↦ rest ]

memo_test : memo_match "Memo: \"referer_position=\" referer_position=Ab9" ≡ some "Ab9"
unfolding memo_match
memo_test = refl
