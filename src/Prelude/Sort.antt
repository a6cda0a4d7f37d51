-- ===== src/Prelude/Sort.antt =====
-- `sort.Strings` and `slices.Sort` on strings: the ascending rearrangement. The result does not
-- depend on the order in which the items came, which is how the program gets a stable order out of
-- Go's random map iteration.
use mathlib.Core.Path.{◌≡◌, refl, ◌∙◌}
use mathlib.Core.Bool.{true}
use mathlib.Core.Logic.{∥∥₁_elim, inl, inr}
use mathlib.Core.List.{List, [], ◌∷◌, Perm, Permᴰ}
use mathlib.Core.List.Perm
use mathlib.Core.HLevel.{hedberg}
use native.Mathlib.Decide.{ℕ_discrete}
use native.Mathlib.Omega.{arith}
use hetdns.Prelude.Tests.{Bool-cases, if◌then◌else◌}
use hetdns.Prelude.Lists.{All}
use hetdns.Prelude.Text.{Text, text_leb, text_leb_total, text_leb_antisymm, text_leb_trans}

sort_insert : Text → List Text → List Text
sort_insert x [] = x ∷ []
sort_insert x (y ∷ ys) = if text_leb x y then x ∷ y ∷ ys else y ∷ sort_insert x ys

unfoldable pub sort_texts : List Text → List Text
unfolding sort_insert
sort_texts [] = []
sort_texts (x ∷ xs) = sort_insert x (sort_texts xs)

abbrev pub IsSorted : List Text → Type 0
IsSorted [] = Unit
IsSorted (x ∷ []) = Unit
IsSorted (x ∷ y ∷ ys) = (text_leb x y ≡ true) × IsSorted (y ∷ ys)

sort_insert-IsSorted : (x : Text) (ys : List Text) → IsSorted ys → IsSorted (sort_insert x ys)
unfolding sort_insert
sort_insert-IsSorted x [] s = tt
sort_insert-IsSorted x (y ∷ []) s = ground (arith, text_leb_total x y)
sort_insert-IsSorted x (y ∷ z ∷ zs) s =
    ground (arith, text_leb_total x y, sort_insert-IsSorted x (z ∷ zs) s.1)

pub sort_texts-IsSorted : (xs : List Text) → IsSorted (sort_texts xs)
unfolding sort_texts
sort_texts-IsSorted [] = tt
sort_texts-IsSorted (x ∷ xs) = sort_insert-IsSorted x (sort_texts xs) (sort_texts-IsSorted xs)

sort_insert-perm : (x : Text) (ys : List Text) → Perm (sort_insert x ys) (x ∷ ys)
unfolding sort_insert
sort_insert-perm x [] = Perm.rfl
sort_insert-perm x (y ∷ ys) = elim (Bool-cases (text_leb x y)) [
  | inl e ↦ rw e Perm.rfl
  | inr e ↦ rw e (Perm.trans (Perm.cons y (sort_insert-perm x ys)) (Perm.swap x y ys))
]

pub sort_texts-perm : (xs : List Text) → Perm (sort_texts xs) xs
unfolding sort_texts
sort_texts-perm [] = Perm.rfl
sort_texts-perm (x ∷ xs) =
    Perm.trans (sort_insert-perm x (sort_texts xs)) (Perm.cons x (sort_texts-perm xs))

sort_insert_comm :
    (x y : Text) (zs : List Text)
    → sort_insert x (sort_insert y zs) ≡ sort_insert y (sort_insert x zs)
unfolding sort_insert
sort_insert_comm x y [] = ground (arith, text_leb_total x y, text_leb_antisymm x y)
sort_insert_comm x y (z ∷ zs) = ground (
  arith,
  sort_insert_comm x y zs,
  text_leb_total x y,
  text_leb_antisymm x y,
  text_leb_trans x y z,
  text_leb_trans y x z,
)

sort_texts_Permᴰ : {xs ys : List Text} → Permᴰ xs ys → sort_texts xs ≡ sort_texts ys
unfolding sort_texts
sort_texts_Permᴰ Permᴰ.nil = refl
sort_texts_Permᴰ (Permᴰ.cons e p) = cc (e, sort_texts_Permᴰ p)
sort_texts_Permᴰ (Permᴰ.swap {a} {b} {l} e f) = cc (e, f, sort_insert_comm a b (sort_texts l))
sort_texts_Permᴰ (Permᴰ.trans p q) = sort_texts_Permᴰ p ∙ sort_texts_Permᴰ q

Texts-discrete : Discrete (List Text)
Texts-discrete = hlevel ℕ_discrete

-- Any two orders of the same items sort to the same list.
pub sort_texts_of_perm : {xs ys : List Text} → Perm xs ys → sort_texts xs ≡ sort_texts ys
sort_texts_of_perm p = ∥∥₁_elim p (hedberg Texts-discrete _ _) sort_texts_Permᴰ

module _ {κ} (P : Text → Type κ) where
  All-sort_insert : (x : Text) (ys : List Text) → P x → All P ys → All P (sort_insert x ys)
  unfolding sort_insert
  All-sort_insert x [] p h = (p, tt)
  All-sort_insert x (y ∷ ys) p h = elim (Bool-cases (text_leb x y)) [
    | inl e ↦ rw e (p, h)
    | inr e ↦ rw e (h.0, All-sort_insert x ys p h.1)
  ]

  pub All-sort_texts : (xs : List Text) → All P xs → All P (sort_texts xs)
  unfolding sort_texts
  All-sort_texts [] h = tt
  All-sort_texts (x ∷ xs) h = All-sort_insert x (sort_texts xs) h.0 (All-sort_texts xs h.1)
