-- ===== src/Config/Json/Fresh.antt =====
-- The keys that `scanJSONValue` of internal/config/config.go has met in an object.
use mathlib.Core.List.{
  Mem, Nodup, Nodup-cons, mem-cons_self, mem-cons_of_mem, not-mem-nil, mem_of_ne_of_mem,
}
use hetdns.Prelude.{◌≡◌, ◌↔◌, false, List, [], ◌∷◌, All, arith, inl, inr, Bool-cases, refl, sym}
use mathlib.Core.Path.{subst}
use hetdns.Prelude.Text.{Text, text_eq, text_eq_iff}
use hetdns.Config.Json.{has_key}

-- None of some names has been met.
abbrev pub AllFresh : List Text → List Text → Type 0
AllFresh keys js = All (λ j. has_key j keys ≡ false) js

AllApart : Text → List Text → Type 0
AllApart key js = All (λ j. text_eq j key ≡ false) js

apart : (key j : Text) (js : List Text) → ¬ Mem key (j ∷ js) → text_eq j key ≡ false
apart key j js n = elim (Bool-cases (text_eq j key)) [
  | inl e ↦ absurd (n (subst (λ k. Mem k (j ∷ js)) ((text_eq_iff j key).0 e) mem-cons_self))
  | inr e ↦ e
]

AllApart-iff : (key : Text) (js : List Text) → AllApart key js ↔ (¬ Mem key js)
unfolding AllApart
AllApart-iff key [] = (λ a m. not-mem-nil m, λ n. tt)
AllApart-iff key (j ∷ js) = (
  λ (e, a) m.
      (AllApart-iff key js).0 a
        (mem_of_ne_of_mem (λ p. ground (arith, e, text_eq_iff j key, sym p)) m),
  λ n. (apart key j js n, (AllApart-iff key js).1 (λ m. n (mem-cons_of_mem j m))),
)

AllFresh-cons :
    (key : Text) (keys js : List Text)
    → AllFresh (key ∷ keys) js ↔ (AllApart key js × AllFresh keys js)
unfolding AllApart
AllFresh-cons key keys [] = ground arith
AllFresh-cons key keys (j ∷ js) = ground (arith, AllFresh-cons key keys js)

pub fields_iff :
    (key : Text) (keys js : List Text)
    → (Nodup (key ∷ js) × AllFresh keys js) ↔ (Nodup js × AllFresh (key ∷ keys) js)
fields_iff key keys js =
    ground (arith, Nodup-cons {a = key} {l = js}, AllApart-iff key js, AllFresh-cons key keys js)

pub AllFresh-nil : (js : List Text) → AllFresh [] js
AllFresh-nil [] = tt
AllFresh-nil (j ∷ js) = (refl, AllFresh-nil js)
