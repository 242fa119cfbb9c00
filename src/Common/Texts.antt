-- ===== src/Common/Texts.antt =====
-- Tests on texts: equality, emptiness and `includes`.
use Prim.Native.Nat.{ℕ}
use Prim.Native.Char.{code}
use Prim.Native.String.{String}
use Prim.Native.String
use mathlib.Core.Bool.{Bool, true, false, not, ◌||◌, ◌&&◌}
use mathlib.Core.List.{List, [], ◌∷◌}
use text.Mathlib.Text.{◌==◌, starts_with, find?}
use mathlib.Core.Option.{Option, none, some}
use clmm_copybot.Common.Tests.{if◌then◌else◌, leb, ◌==◌ as ◌==ₙ◌}

abbrev pub str_eq : String → String → Bool
str_eq s t = s == t

-- Whether a text is truthy, that is, not the empty one.
abbrev pub is_text : String → Bool
is_text s = not (s == "")

-- Whether an optional text is truthy: it is there and not empty.
abbrev pub has_text : Option String → Bool
has_text none = false
has_text (some s) = is_text s

-- `o || undefined`.
abbrev pub or_none : Option String → Option String
or_none o = if has_text o then o else none

abbrev pub begins_with : String → String → Bool
begins_with s t = starts_with s t

-- `s.includes(t)`.
abbrev pub includes : String → String → Bool
includes s t = elim (find? s t) [ none ↦ false | some _ ↦ true ]

-- `set.has(s)` for a set given by its elements.
abbrev pub has : String → List String → Bool
has s [] = false
has s (x ∷ xs) = (x == s) || has s xs

abbrev pub concat : String → String → String
concat s t = String.◌++◌ s t

-- The white space and the line ends of JavaScript, by their code points.
abbrev is_space : ℕ → Bool
is_space c =
    (leb 9 c && leb c 13)
    || (c ==ₙ 32)
    || (c ==ₙ 160)
    || (c ==ₙ 5760)
    || (leb 8192 c && leb c 8202)
    || (leb 8232 c && leb c 8233)
    || (c ==ₙ 8239)
    || (c ==ₙ 8287)
    || (c ==ₙ 12288)
    || (c ==ₙ 65279)

trim_start : String → String
trim_start String.[] = ""
trim_start (String.◌∷◌ c s) =
    let rest = trim_start s in if is_space (code c) then rest else String.◌∷◌ c s

trim_end : String → String
trim_end String.[] = ""
trim_end (String.◌∷◌ c s) =
    let rest = trim_end s in
    if is_space (code c) && not (is_text rest) then "" else String.◌∷◌ c rest

-- `s.trim()`.
unfoldable pub trim : String → String
unfolding trim_start trim_end
trim s = trim_end (trim_start s)
