-- ===== src/Signer/Invoked.antt =====
-- The programs that the logs of a simulation name, `/Program (\w{32,44}) invoke/`
-- (signer/policy.ts, `extractInvokedPrograms`).
use Prim.Native.Char.{Char, code}
use Prim.Native.String.{String, [], ◌∷◌, len, slice}
use mathlib.Core.Bool.{Bool, ◌&&◌, ◌||◌}
use mathlib.Core.Option.{Option, none, some}
use mathlib.Core.List
use mathlib.Core.List.{List}
use clmm_copybot.Common.{◌+◌, leb, if◌then◌else◌, begins_with, ◌==◌, has, ◌≡◌, refl}

abbrev is_word : Char → Bool
is_word c =
    (leb 65 (code c) && leb (code c) 90)
    || ((leb 97 (code c) && leb (code c) 122)
        || ((leb 48 (code c) && leb (code c) 57) || (code c == 95)))

abbrev word : String → String
word [] = []
word (c ∷ s) = let rest = word s in if is_word c then c ∷ rest else []

-- The word that follows, if what stands here is a match: a word is followed by no letter of its
-- own, so its length is the number of repetitions.
abbrev invoked_here : String → Option String
invoked_here s =
    let group = word (slice s 8 (len s)) in
    if begins_with s "Program "
      && (leb 32 (len group)
          && (leb (len group) 44 && begins_with (slice s (8 + len group) (len s)) " invoke"))
    then some group
    else none

unfoldable pub invoked_in : String → Option String
invoked_in [] = none
invoked_in (c ∷ s) =
    let rest = invoked_in s in elim (invoked_here (c ∷ s)) [ some group ↦ some group | none ↦ rest ]

abbrev add_invoked : Option String → List String → List String
add_invoked none seen = seen
add_invoked (some p) seen = if has p seen then seen else List.◌++◌ seen (List.◌∷◌ p List.[])

abbrev invoked_from : List String → List String → List String
invoked_from List.[] seen = seen
invoked_from (List.◌∷◌ log logs) seen = invoked_from logs (add_invoked (invoked_in log) seen)

unfoldable pub extract_invoked_programs : List String → List String
unfolding invoked_in
extract_invoked_programs logs = invoked_from logs List.[]

invoked_test :
    invoked_in "Program TokenkegQfeZyiNwAJbNbGKPFXCWuBvf9Ss623VQ5DA invoke [2]"
    ≡ some "TokenkegQfeZyiNwAJbNbGKPFXCWuBvf9Ss623VQ5DA"
unfolding invoked_in
invoked_test = refl
