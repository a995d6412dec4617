-- ===== src/Prelude/Text.antt =====
-- The operations of Rust's strings that the code uses, on the native `String`.
use Prim.Native.Nat.{ℕ, zero, suc, ◌/◌, ◌%◌}
use Prim.Native.Char.{code}
use Prim.Native.String.{String, [], ◌∷◌, ◌++◌}
use mathlib.Core.Bool.{Bool, true, false}
use mathlib.Core.List.{List, [], ◌∷◌}
use text.Mathlib.Text.{◌==◌}
use shulker.Prelude.Tests.{nat_eq, ltb, if◌then◌else◌}

-- Joining of texts, under a name of its own beside that of lists.
infixr 65 ◌⧺◌
abbrev pub ◌⧺◌ : String → String → String
s ⧺ t = s ++ t

-- `s.replace(c, by)` for a character, given by its code.
unfoldable pub replace_char : ℕ → String → String → String
replace_char c by [] = []
replace_char c by (d ∷ s) =
    let rest = replace_char c by s in if nat_eq (code d) c then by ++ rest else d ∷ rest

-- `s.ends_with(suffix)`.
unfoldable pub ends_with : String → String → Bool
ends_with suffix [] = [] == suffix
ends_with suffix (c ∷ s) =
    let later = ends_with suffix s in if (c ∷ s) == suffix then true else later

-- `parts.join(separator)`.
unfoldable pub join : String → List String → String
join separator [] = ""
join separator (part ∷ []) = part
join separator (part ∷ next ∷ parts) = part ⧺ separator ⧺ join separator (next ∷ parts)

digit : ℕ → String
digit d =
    if nat_eq d 0
    then "0"
    else if nat_eq d 1
    then "1"
    else if nat_eq d 2
    then "2"
    else if nat_eq d 3
    then "3"
    else if nat_eq d 4
    then "4"
    else if nat_eq d 5
    then "5"
    else if nat_eq d 6
    then "6"
    else if nat_eq d 7
    then "7"
    else if nat_eq d 8
    then "8"
    else "9"

-- The digits of `n` before `out`; each round divides by ten.
digits : ℕ → ℕ → String → String
unfolding digit
digits zero n out = out
digits (suc fuel) n out =
    let more = digits fuel (n / 10) (digit (n % 10) ⧺ out) in
    if ltb n 10 then digit n ⧺ out else more

-- `to_string` of a `u32`, which has at most ten digits.
unfoldable pub show_u32 : ℕ → String
unfolding digits
show_u32 n = digits 10 n ""

-- `to_string` of a `bool`.
abbrev pub show_bool : Bool → String
show_bool true = "true"
show_bool false = "false"
