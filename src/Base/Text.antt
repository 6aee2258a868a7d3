-- ===== src/Base/Text.antt =====
-- Texts: `trim`, whether a nullable text has any content, and the equality of nullable texts.
use Prim.Native.Nat.{ℕ, zero, suc, ◌/◌, ◌%◌}
use Prim.Native.Char.{Char, code}
use Prim.Native.String.{String, ◌++◌}
use mathlib.Core.List.{List, [], ◌∷◌}
use text.Mathlib.Text.{◌==◌ as text_eq}
use text.Mathlib.TextEquality.{eq_iff}
use mathlib.Core.Path.{◌≡◌, ap}
use mathlib.Core.Bool.{Bool, true, false, not, ◌&&◌, ◌||◌}
use mathlib.Core.Option.{Option, none, some}
use specbook.Base.Tests.{◌==◌, ltb, leb, if◌then◌else◌}

-- The white space and line terminators that `String.prototype.trim` and `\s` know.
abbrev pub is_space : ℕ → Bool
is_space c =
    (leb 9 c && leb c 13)
    || c == 32
    || c == 160
    || c == 0x1680
    || (leb 0x2000 c && leb c 0x200a)
    || c == 0x2028
    || c == 0x2029
    || c == 0x202f
    || c == 0x205f
    || c == 0x3000
    || c == 0xfeff

trim_start : (ℕ → Bool) → String → String
trim_start p String.[] = String.[]
trim_start p (String.◌∷◌ c s) =
    let rest = trim_start p s in if p (code c) then rest else String.◌∷◌ c s

-- A character stays if it is no space, or if something after it stays.
keep_end : (ℕ → Bool) → Char → String → String
keep_end p c String.[] = if p (code c) then String.[] else String.◌∷◌ c String.[]
keep_end p c (String.◌∷◌ d s) = String.◌∷◌ c (String.◌∷◌ d s)

trim_end : (ℕ → Bool) → String → String
unfolding keep_end
trim_end p String.[] = String.[]
trim_end p (String.◌∷◌ c s) = keep_end p c (trim_end p s)

-- The text without the characters of `p` at its two ends.
unfoldable pub trim_by : (ℕ → Bool) → String → String
unfolding trim_start trim_end
trim_by p s = trim_end p (trim_start p s)

-- `s.trim()`
unfoldable pub trim : String → String
unfolding trim_by
trim = trim_by is_space

-- `btrim(s)` of PostgreSQL, which takes off the character U+0020 alone.
unfoldable pub btrim : String → String
unfolding trim_by
btrim = trim_by (λ c. c == 32)

abbrev pub is_empty : String → Bool
is_empty String.[] = true
is_empty (String.◌∷◌ c s) = false

-- `!!s?.trim()`: the text is there and has more than white space.
unfoldable pub has_text : Option String → Bool
unfolding trim
has_text none = false
has_text (some s) = not (is_empty (trim s))

-- `!!s`: the text is there and is not empty.
abbrev pub is_given : Option String → Bool
is_given none = false
is_given (some s) = not (is_empty s)

-- Equality of a nullable text with a text, as SQL compares: null equals no text.
abbrev pub is_text : Option String → String → Bool
is_text none t = false
is_text (some s) t = text_eq s t

pub is_text-some : (o : Option String) (t : String) → is_text o t ≡ true → o ≡ some t
is_text-some none t h = cc
is_text-some (some s) t h = ap some ((eq_iff s t).0 h)

-- `a === b` for two nullable texts.
abbrev pub same_text : Option String → Option String → Bool
same_text none none = true
same_text (some s) (some t) = text_eq s t
same_text _ _ = false

-- The parts of a template literal, joined.
abbrev pub concat : List String → String
concat [] = ""
concat (s ∷ rest) = s ++ concat rest

abbrev digit : ℕ → String
digit d =
    if d == 0
    then "0"
    else if d == 1
    then "1"
    else if d == 2
    then "2"
    else if d == 3
    then "3"
    else if d == 4
    then "4"
    else if d == 5
    then "5"
    else if d == 6
    then "6"
    else if d == 7
    then "7"
    else if d == 8
    then "8"
    else "9"

decimal_from : ℕ → ℕ → String
decimal_from zero n = ""
decimal_from (suc fuel) n =
    let front = decimal_from fuel (n / 10) in if ltb n 10 then digit n else front ++ digit (n % 10)

-- `String(n)`: a number has fewer digits than its value plus one.
unfoldable pub decimal : ℕ → String
unfolding decimal_from
decimal n = decimal_from (suc n) n
