-- ===== src/Base/Text.antt =====
-- What the code uses of the packages `strings` and `strconv`.
use Prim.Native.Char.{Char, code}
use Prim.Native.String.{String, [], ◌∷◌, ◌++◌}
use Prim.Native.Nat.{ℕ, ◌+◌, ◌-◌, ◌*◌, ◌^◌, compare, Ordering}
use mathlib.Core.Path.{◌≡◌, refl}
use mathlib.Core.Bool.{Bool, true, false, ◌&&◌, ◌||◌}
use mathlib.Core.List.{List, [], ◌∷◌}
use mathlib.Core.Option.{Option, none, some}
use text.Mathlib.Text.{◌==◌}
use dr.Base.Tests.{if◌then◌else◌, ltb, leb}
use dr.Base.Int.{ℤ, pos, negsuc, neg}

abbrev same_char : Char → Char → Bool
same_char c d = elim (compare (code c) (code d)) [ Ordering.eq ↦ true | _ ↦ false ]

abbrev push : String → Char → String
push s c = let one : String = c ∷ [] in s ++ one

-- strings.Split(s, sep) for a separator of one character; `cur` is the piece that is being read.
split_from : Char → String → String → List String
split_from sep cur [] = cur ∷ []
split_from sep cur (c ∷ s) =
    let closed : List String = cur ∷ split_from sep "" s in
    let longer = split_from sep (push cur c) s in if same_char c sep then closed else longer

unfoldable pub split : Char → String → List String
unfolding split_from
split sep s = split_from sep "" s

-- strings.Join(pieces, sep)
unfoldable pub join : String → List String → String
join sep [] = ""
join sep (p ∷ []) = p
join sep (p ∷ q ∷ ps) = p ++ (sep ++ join sep (q ∷ ps))

-- What follows `p` in `s`, if `s` begins with `p`.
strip_prefix : String → String → Option String
strip_prefix [] s = some s
strip_prefix (c ∷ p) [] = none
strip_prefix (c ∷ p) (d ∷ s) = if same_char c d then strip_prefix p s else none

-- strings.Contains(s, sub)
unfoldable pub contains : String → String → Bool
unfolding strip_prefix
contains [] sub = elim (strip_prefix sub "") [ some _ ↦ true | none ↦ false ]
contains (c ∷ s) sub =
    let rest = contains s sub in elim (strip_prefix sub (c ∷ s)) [ some _ ↦ true | none ↦ rest ]

-- strings.Replace(s, from, to, 1); an empty `from` matches at the beginning.
unfoldable pub replace_one : String → String → String → String
unfolding strip_prefix
replace_one from to [] = elim (strip_prefix from "") [ some rest ↦ to ++ rest | none ↦ "" ]
replace_one from to (c ∷ s) =
    let rest = replace_one from to s in
    elim (strip_prefix from (c ∷ s)) [ some tail ↦ to ++ tail | none ↦ c ∷ rest ]

-- Why strconv refuses a text.
pub data NumError : Type 0 where
  syntax range : NumError

pub data Parsed {ℓ} (A : Type ℓ) : Type ℓ where
  parsed : A → Parsed A
  refused : NumError → Parsed A

-- The loop of ParseUint in base 10 with 64 bits, which stops at the first fault.
parse_digits : ℕ → String → Parsed ℕ
parse_digits n [] = parsed n
parse_digits n (c ∷ s) =
    let rest = parse_digits (n * 10 + (code c - b'0')) s in
    if leb b'0' (code c) && leb (code c) b'9'
    then (if ltb (n * 10 + (code c - b'0')) (2 ^ 64) then rest else refused range)
    else refused syntax

parse_uint : String → Parsed ℕ
unfolding parse_digits
parse_uint [] = refused syntax
parse_uint (c ∷ s) = parse_digits 0 (c ∷ s)

-- strconv.Atoi gives a number also where it fails: 0, or the bound that is passed.
from_magnitude : Bool → Parsed ℕ → ℤ × Option NumError
from_magnitude negative (refused syntax) = (pos 0, some syntax)
from_magnitude true (refused range) = (neg (2 ^ 63), some range)
from_magnitude false (refused range) = (pos (2 ^ 63 - 1), some range)
from_magnitude true (parsed n) =
    if leb n (2 ^ 63) then (neg n, none) else (neg (2 ^ 63), some range)
from_magnitude false (parsed n) =
    if ltb n (2 ^ 63) then (pos n, none) else (pos (2 ^ 63 - 1), some range)

unfoldable pub atoi : String → ℤ × Option NumError
unfolding from_magnitude parse_uint
atoi [] = (pos 0, some syntax)
atoi (c ∷ s) =
    if same_char c "-"
    then from_magnitude true (parse_uint s)
    else if same_char c "+"
    then from_magnitude false (parse_uint s)
    else from_magnitude false (parse_uint (c ∷ s))

is_one_of : String → List String → Bool
is_one_of s [] = false
is_one_of s (t ∷ ts) = s == t || is_one_of s ts

-- strconv.ParseBool
unfoldable pub parse_bool : String → Option Bool
unfolding is_one_of
parse_bool s =
    if is_one_of s ("1" ∷ "t" ∷ "T" ∷ "true" ∷ "TRUE" ∷ "True" ∷ [])
    then some true
    else if is_one_of s ("0" ∷ "f" ∷ "F" ∷ "false" ∷ "FALSE" ∷ "False" ∷ [])
    then some false
    else none

split_runs : split "," "spec,a," ≡ "spec" ∷ "a" ∷ "" ∷ []
unfolding split
split_runs = refl

replace_one_runs : replace_one "b" "xy" "abcb" ≡ "axycb"
unfolding replace_one
replace_one_runs = refl

contains_runs : contains "object already exists" "already exists" ≡ true
unfolding contains
contains_runs = refl

atoi_runs :
    (atoi "-12" ≡ (negsuc 11, none))
    × (atoi "12x" ≡ (pos 0, some syntax))
    × (atoi "99999999999999999999x" ≡ (pos (2 ^ 63 - 1), some range))
unfolding atoi
atoi_runs = (refl, refl, refl)
