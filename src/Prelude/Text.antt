-- ===== src/Prelude/Text.antt =====
-- Go's `string`: a list of bytes. Equality, the order that `sort.Strings` uses, and the printing
-- of numbers.
use Prim.Native.Nat.{ℕ, zero, suc, ◌+◌, ◌/◌, ◌%◌}
use Prim.Native.Char.{code}
use Prim.Native.String.{String}
use mathlib.Core.Path.{◌≡◌, refl}
use mathlib.Core.Logic.{◌↔◌, ◌⊎◌, inl, inr}
use mathlib.Core.Bool.{Bool, true, false, ◌&&◌}
use mathlib.Core.List.{List, [], ◌∷◌}
use native.Mathlib.Omega.{arith}
use hetdns.Prelude.Tests.{ltb, ◌==◌, if◌then◌else◌}
use hetdns.Prelude.Int.{ℤ, pos, negsuc}

abbrev pub Text : Type 0
Text = List ℕ

-- The bytes of an ASCII literal.
abbrev pub text : String → Text
text String.[] = []
text (String.◌∷◌ c s) = code c ∷ text s

unfoldable pub text_eq : Text → Text → Bool
text_eq [] [] = true
text_eq [] (y ∷ ys) = false
text_eq (x ∷ xs) [] = false
text_eq (x ∷ xs) (y ∷ ys) = (x == y) && text_eq xs ys

text_eq_sound : (xs ys : Text) → text_eq xs ys ≡ true → xs ≡ ys
unfolding text_eq
text_eq_sound [] [] h = refl
text_eq_sound [] (y ∷ ys) h = cc
text_eq_sound (x ∷ xs) [] h = cc
text_eq_sound (x ∷ xs) (y ∷ ys) h = ground (arith, text_eq_sound xs ys)

pub text_eq_refl : (xs : Text) → text_eq xs xs ≡ true
unfolding text_eq
text_eq_refl [] = refl
text_eq_refl (x ∷ xs) = ground (arith, text_eq_refl xs)

pub text_eq_iff : (xs ys : Text) → (text_eq xs ys ≡ true) ↔ (xs ≡ ys)
text_eq_iff xs ys = (text_eq_sound xs ys, λ e. rw e (text_eq_refl ys))

-- Byte-wise lexicographic order.
unfoldable pub text_leb : Text → Text → Bool
text_leb [] ys = true
text_leb (x ∷ xs) [] = false
text_leb (x ∷ xs) (y ∷ ys) =
    let rest = text_leb xs ys in if ltb x y then true else if ltb y x then false else rest

pub text_leb_total : (xs ys : Text) → (text_leb xs ys ≡ true) ⊎ (text_leb ys xs ≡ true)
unfolding text_leb
text_leb_total [] ys = inl refl
text_leb_total (x ∷ xs) [] = inr refl
text_leb_total (x ∷ xs) (y ∷ ys) = ground (arith, text_leb_total xs ys)

pub text_leb_antisymm : (xs ys : Text) → text_leb xs ys ≡ true → text_leb ys xs ≡ true → xs ≡ ys
unfolding text_leb
text_leb_antisymm [] [] h k = refl
text_leb_antisymm [] (y ∷ ys) h k = cc
text_leb_antisymm (x ∷ xs) [] h k = cc
text_leb_antisymm (x ∷ xs) (y ∷ ys) h k = ground (arith, text_leb_antisymm xs ys)

pub text_leb_trans :
    (xs ys zs : Text) → text_leb xs ys ≡ true → text_leb ys zs ≡ true → text_leb xs zs ≡ true
unfolding text_leb
text_leb_trans [] ys zs h k = refl
text_leb_trans (x ∷ xs) [] zs h k = cc
text_leb_trans (x ∷ xs) (y ∷ ys) [] h k = cc
text_leb_trans (x ∷ xs) (y ∷ ys) (z ∷ zs) h k = ground (arith, text_leb_trans xs ys zs)

-- `strconv.Itoa`: decimal digits, most significant first. One round of fuel for each unit of the
-- number is more than its digits.
decimal_digits : ℕ → ℕ → Text → Text
decimal_digits zero n out = out
decimal_digits (suc fuel) n out =
    let rest = decimal_digits fuel (n / 10) ((48 + n % 10) ∷ out) in
    if ltb n 10 then (48 + n) ∷ out else rest

unfoldable pub decimal : ℕ → Text
unfolding decimal_digits
decimal n = decimal_digits (n + 1) n []

unfoldable pub decimal_ℤ : ℤ → Text
unfolding decimal
decimal_ℤ (pos n) = decimal n
decimal_ℤ (negsuc n) = b'-' ∷ decimal (n + 1)

decimal_runs : decimal 70305 ≡ text "70305"
unfolding decimal
decimal_runs = refl
