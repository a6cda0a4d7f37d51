-- ===== src/Prelude/Trim.antt =====
-- `strings.Trim` with the cutset " \t\r\n\v\f", and other tests on bytes.
use mathlib.Core.List.{reverse}
use Prim.Native.Nat.{ℕ}
use mathlib.Core.Bool.{Bool, true, false, ◌||◌}
use mathlib.Core.List.{[], ◌∷◌}
use hetdns.Prelude.Tests.{leb, ◌==◌, if◌then◌else◌}
use hetdns.Prelude.Lists.{any}
use hetdns.Prelude.Text.{Text}
use mathlib.Core.Bool.{◌&&◌}

-- Tab, line feed, vertical tab, form feed, carriage return and blank.
abbrev pub is_blank : ℕ → Bool
is_blank c = c == 0x20 || (leb 9 c && leb c 13)

skip_blank : Text → Text
skip_blank [] = []
skip_blank (c ∷ cs) = let rest = skip_blank cs in if is_blank c then rest else c ∷ cs

unfoldable pub trim_blank : Text → Text
unfolding skip_blank
trim_blank s = reverse (skip_blank (reverse (skip_blank s)))

-- `s == ""`.
abbrev pub is_empty : Text → Bool
is_empty [] = true
is_empty (c ∷ cs) = false

-- `strings.HasPrefix`.
unfoldable pub has_prefix : Text → Text → Bool
has_prefix s [] = true
has_prefix [] (p ∷ ps) = false
has_prefix (c ∷ cs) (p ∷ ps) = c == p && has_prefix cs ps

-- Whether a byte occurs.
abbrev pub has_byte : ℕ → Text → Bool
has_byte b s = any (λ c. c == b) s
