-- ===== src/Prelude/Atoi.antt =====
-- `strings.TrimSpace` and `strconv.Atoi` (the same as `ParseInt` in base 10 with 64 bits).
use mathlib.Core.List.{reverse}
use Prim.Native.Nat.{ℕ, ◌+◌, ◌-◌, ◌*◌, ◌^◌}
use mathlib.Core.Path.{◌≡◌, refl}
use mathlib.Core.Bool.{◌&&◌}
use mathlib.Core.Option.{Option, none, some}
use mathlib.Core.List.{List, [], ◌∷◌}
use hetdns.Prelude.Tests.{leb, ltb, ◌==◌, if◌then◌else◌}
use hetdns.Prelude.Int.{ℤ, pos, negsuc}
use hetdns.Prelude.Text.{Text, text}
use hetdns.Prelude.Runes.{runes, encode, is_space}

skip_space : List ℕ → List ℕ
skip_space [] = []
skip_space (r ∷ rs) = let rest = skip_space rs in if is_space r then rest else r ∷ rs

-- A byte that is no UTF-8 comes back as U+FFFD, which no caller takes for a digit either.
unfoldable pub trim_space : Text → Text
unfolding skip_space runes encode is_space
trim_space s = encode (reverse (skip_space (reverse (skip_space (runes s)))))

-- Decimal digits, at least one.
digits_value : ℕ → Text → Option ℕ
digits_value acc [] = some acc
digits_value acc (c ∷ cs) =
    let rest = digits_value (acc * 10 + (c - 48)) cs in if leb 48 c && leb c 57 then rest else none

unfoldable pub parse_digits : Text → Option ℕ
unfolding digits_value
parse_digits [] = none
parse_digits (c ∷ cs) = digits_value 0 (c ∷ cs)

-- The value with its sign, if it is an int64.
to_positive : Option ℕ → Option ℤ
to_positive none = none
to_positive (some n) = if ltb n (2 ^ 63) then some (pos n) else none

to_negative : Option ℕ → Option ℤ
to_negative none = none
to_negative (some n) =
    if n == 0 then some (pos 0) else if leb n (2 ^ 63) then some (negsuc (n - 1)) else none

unfoldable pub atoi : Text → Option ℤ
unfolding parse_digits to_positive to_negative
atoi [] = none
atoi (c ∷ cs) =
    if c == b'-'
    then to_negative (parse_digits cs)
    else if c == b'+'
    then to_positive (parse_digits cs)
    else to_positive (parse_digits (c ∷ cs))

atoi_tests :
    (atoi (text "120") ≡ some (pos 120))
    × (atoi (text "-7") ≡ some (negsuc 6))
    × (atoi (text "9223372036854775808") ≡ none)
    × (atoi (text "1x") ≡ none)
unfolding atoi
atoi_tests = (refl, refl, refl, refl)

trim_space_test : trim_space (text "  12 ") ≡ text "12"
unfolding trim_space
trim_space_test = refl
