-- ===== src/Config/Json/Ends.antt =====
-- The fuel of `scanJSONValue` of internal/config/config.go is enough for every input.
use hetdns.Prelude.{
  ℕ, zero, suc, ◌+◌, ◌<◌, ◌≢◌, Bool, true, false, List, [], ◌∷◌, ◌++◌, arith, length, if◌then◌else◌,
}
use hetdns.Prelude.Text.{Text, text}
use mathlib.Core.Path.{subst}
use hetdns.Config.Json.{
  Token, null, literal, number, str, open_object, open_array, close, Stop, Scan, scanned, refused,
  spent, and_then, at_index, has_key, scan_value, scan_fields, scan_items,
}

-- A scan has ended, with fewer tokens left than a number if without an error.
abbrev Ended : Scan → ℕ → Type 0
Ended (scanned rest) n = length rest < n
Ended (refused e) n = Unit
Ended spent n = ⊥

Ended-mono : (r : Scan) (m n : ℕ) → m < suc n → Ended r m → Ended r n
Ended-mono (scanned rest) m n le h = omega (arith, le, h)
Ended-mono (refused e) m n le h = tt
Ended-mono spent m n le h = h

Ended-and_then :
    (r : Scan) (next : List Token → Scan) (m n : ℕ)
    → Ended r m
    → ((us : List Token) → length us < m → Ended (next us) n)
    → Ended (and_then r next) n
unfolding and_then
Ended-and_then (scanned us) next m n h step = step us h
Ended-and_then (refused e) next m n h step = tt
Ended-and_then spent next m n h step = h

Ended-unless :
    (b : Bool) (e : Text) (r : Scan) (n : ℕ) → Ended r n → Ended (if b then refused e else r) n
Ended-unless true e r n h = tt
Ended-unless false e r n h = h

module _ (quote : Text → Text) (stop : Stop) where
  mutual
    unfolding scan_value scan_fields scan_items

    value_ends :
        (f : ℕ) (path : Text) (ts : List Token)
        → length ts + length ts < f
        → Ended (scan_value quote stop f path ts) (length ts)
    value_ends zero path ts n = absurd (omega (arith, n))
    value_ends (suc f) path [] n = tt
    value_ends (suc f) path (null ∷ ts) n = tt
    value_ends (suc f) path (literal b ∷ ts) n = omega arith
    value_ends (suc f) path (number m ∷ ts) n = omega arith
    value_ends (suc f) path (str s ∷ ts) n = omega arith
    value_ends (suc f) path (open_object ∷ ts) n =
        Ended-mono (scan_fields quote stop f path [] ts) (length ts) (suc (length ts)) (omega arith)
          (fields_end f path [] ts (omega (arith, n)))
    value_ends (suc f) path (open_array ∷ ts) n =
        Ended-mono (scan_items quote stop f path 0 ts) (length ts) (suc (length ts)) (omega arith)
          (items_end f path 0 ts (omega (arith, n)))
    value_ends (suc f) path (close ∷ ts) n = tt

    items_end :
        (f : ℕ) (path : Text) (i : ℕ) (ts : List Token)
        → suc (length ts + length ts) < f
        → Ended (scan_items quote stop f path i ts) (length ts)
    items_end zero path i ts n = absurd (omega (arith, n))
    items_end (suc f) path i [] n = tt
    items_end (suc f) path i (close ∷ ts) n = omega arith
    items_end (suc f) path i (t ∷ ts) n =
        Ended-and_then (scan_value quote stop f (at_index path i) (t ∷ ts))
          (λ us. scan_items quote stop f path (suc i) us) (suc (length ts)) (suc (length ts))
          (value_ends f (at_index path i) (t ∷ ts) (omega (arith, n)))
          (λ us less.
            Ended-mono (scan_items quote stop f path (suc i) us) (length us) (suc (length ts))
              (omega (arith, less)) (items_end f path (suc i) us (omega (arith, n, less))))

    fields_end :
        (f : ℕ) (path : Text) (keys : List Text) (ts : List Token)
        → length ts + length ts < f
        → Ended (scan_fields quote stop f path keys ts) (length ts)
    fields_end zero path keys ts n = absurd (omega (arith, n))
    fields_end (suc f) path keys [] n = tt
    fields_end (suc f) path keys (close ∷ ts) n = omega arith
    fields_end (suc f) path keys (str key ∷ ts) n =
        Ended-unless (has_key key keys) _ _ (suc (length ts)) (
          Ended-and_then (scan_value quote stop f (path ++ (text "." ++ key)) ts)
            (λ us. scan_fields quote stop f path (key ∷ keys) us) (length ts) (suc (length ts))
            (value_ends f (path ++ (text "." ++ key)) ts (omega (arith, n)))
            (λ us less.
              Ended-mono (scan_fields quote stop f path (key ∷ keys) us) (length us)
                (suc (length ts)) (omega (arith, less))
                (fields_end f path (key ∷ keys) us (omega (arith, n, less)))))
    fields_end (suc f) path keys (t ∷ ts) n = tt

-- With two units of fuel for each token and one more, the scan of any input ends.
pub scan_value-ends :
    (quote : Text → Text) (stop : Stop) (path : Text) (ts : List Token)
    → scan_value quote stop (suc (length ts + length ts)) path ts ≢ spent
scan_value-ends quote stop path ts e =
    subst (λ r. Ended r (length ts)) e
      (value_ends quote stop (suc (length ts + length ts)) path ts (omega arith))
