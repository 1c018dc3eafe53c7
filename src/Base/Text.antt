-- ===== src/Base/Text.antt =====
-- Decimal print of a number, as `%d` prints it.
use Prim.Native.Nat.{ℕ, zero, suc, ◌/◌, ◌%◌}
use Prim.Native.Char.{Char, code}
use mathlib.Core.List.{List, [], ◌∷◌}
use Prim.Native.String.{String}
use dingospeed.Base.Tests.{ltb, ◌==◌, if◌then◌else◌}

unfoldable pub digit : ℕ → Char
digit d =
    if d == 0
    then "0"
    else if d == 1
    then "1"
    else if d == 2
    then "2"
    else if d == 3
    then "3"
    else if d == 4
    then "4"
    else if d == 5
    then "5"
    else if d == 6
    then "6"
    else if d == 7
    then "7"
    else if d == 8
    then "8"
    else "9"

-- Each round takes a digit off, so the number itself is fuel enough.
unfoldable pub print_loop : ℕ → ℕ → String → String
print_loop zero n rest = String.◌∷◌ (digit (n % 10)) rest
print_loop (suc fuel) n rest =
    let more = print_loop fuel (n / 10) (String.◌∷◌ (digit (n % 10)) rest) in
    if ltb n 10 then String.◌∷◌ (digit n) rest else more

unfoldable pub print_ℕ : ℕ → String
unfolding digit print_loop
print_ℕ n = print_loop n n ""

-- strings.Split on a separator of one character, which is given by its code: n separators, n + 1 parts.
unfoldable pub prepend : Char → List String → List String
prepend c [] = String.◌∷◌ c "" ∷ []
prepend c (part ∷ parts) = String.◌∷◌ c part ∷ parts

unfoldable pub split_at : ℕ → String → List String
unfolding prepend
split_at separator String.[] = "" ∷ []
split_at separator (String.◌∷◌ c s) =
    let rest = split_at separator s in if code c == separator then "" ∷ rest else prepend c rest
