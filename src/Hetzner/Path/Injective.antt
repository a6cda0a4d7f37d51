-- ===== src/Hetzner/Path/Injective.antt =====
-- The paths of internal/hetzner/client.go tell RRsets apart.
use hetdns.Prelude.{
  ℕ, drop, ◌/◌, ◌%◌, ◌≡◌, refl, sym, ap, ◌∙◌, true, false, [], ◌∷◌, ◌++◌, arith, inl, inr,
  Bool-cases,
}
use hetdns.Prelude.Text.{Text, text}
use hetdns.Hetzner.Types.{Record}
use hetdns.Hetzner.Path.{is_path_byte, hex_digit, path_escape, rrset_path}

hex_digit_inj : (m n : ℕ) → hex_digit m ≡ hex_digit n → m ≡ n
unfolding hex_digit
hex_digit_inj m n e = ground (arith, e)

byte_inj : (c d : ℕ) → c / 16 ≡ d / 16 → c % 16 ≡ d % 16 → c ≡ d
byte_inj c d e k = omega (arith, e, k)

path_escape_keep :
    (c : ℕ) (cs : Text) → is_path_byte c ≡ true → path_escape (c ∷ cs) ≡ c ∷ path_escape cs
unfolding path_escape
path_escape_keep c cs e = rw e refl

path_escape_code :
    (c : ℕ) (cs : Text)
    → is_path_byte c ≡ false
    → path_escape (c ∷ cs) ≡ b'%' ∷ hex_digit (c / 16) ∷ hex_digit (c % 16) ∷ path_escape cs
unfolding path_escape
path_escape_code c cs e = rw e refl

not_slash : (c : ℕ) → is_path_byte c ≡ true → (c ≡ b'/') → ⊥
unfolding is_path_byte
not_slash c e k = ground (arith, e, k)

not_percent : (c : ℕ) → is_path_byte c ≡ true → (c ≡ b'%') → ⊥
unfolding is_path_byte
not_percent c e k = ground (arith, e, k)

cons_inj : {c d : ℕ} {cs ds : Text} → c ∷ cs ≡ d ∷ ds → (c ≡ d) × (cs ≡ ds)
cons_inj h = (cc, cc)

-- The first byte of an escaped text is kept or a percent sign, so it is no slash.
escaped_front : (c : ℕ) (cs us vs : Text) → b'/' ∷ us ≡ path_escape (c ∷ cs) ++ vs → ⊥
escaped_front c cs us vs h = elim (Bool-cases (is_path_byte c)) [
  | inl e ↦ not_slash c e (sym (cons_inj (h ∙ ap (λ p. p ++ vs) (path_escape_keep c cs e))).0)
  | inr e ↦ ground (arith, (cons_inj (h ∙ ap (λ p. p ++ vs) (path_escape_code c cs e))).0)
]

-- A segment is known from the path up to the slash that follows it.
module _ (us vs : Text) where
  abbrev Same : Text → Text → Type 0
  Same xs ys = path_escape xs ++ (b'/' ∷ us) ≡ path_escape ys ++ (b'/' ∷ vs)

  Same-keep :
      (x y : ℕ) (xs ys : Text)
      → is_path_byte x ≡ true
      → is_path_byte y ≡ true
      → Same (x ∷ xs) (y ∷ ys)
      → (x ≡ y) × Same xs ys
  Same-keep x y xs ys e k h = cons_inj (
      sym (ap (λ p. p ++ (b'/' ∷ us)) (path_escape_keep x xs e))
      ∙ h
      ∙ ap (λ p. p ++ (b'/' ∷ vs)) (path_escape_keep y ys k))

  Same-code :
      (x y : ℕ) (xs ys : Text)
      → is_path_byte x ≡ false
      → is_path_byte y ≡ false
      → Same (x ∷ xs) (y ∷ ys)
      → (x ≡ y) × Same xs ys
  Same-code x y xs ys e k h =
      let (p, q) = cons_inj (
        sym (ap (λ p. p ++ (b'/' ∷ us)) (path_escape_code x xs e))
        ∙ h
        ∙ ap (λ p. p ++ (b'/' ∷ vs)) (path_escape_code y ys k)) in
      let (high, q') = cons_inj q in
      let (low, rest) = cons_inj q' in
      (
        byte_inj x y (hex_digit_inj (x / 16) (y / 16) high) (hex_digit_inj (x % 16) (y % 16) low),
        rest,
      )

  Same-mixed :
      (x y : ℕ) (xs ys : Text)
      → is_path_byte x ≡ true
      → is_path_byte y ≡ false
      → Same (x ∷ xs) (y ∷ ys)
      → ⊥
  Same-mixed x y xs ys e k h =
      not_percent x e
        (cons_inj (
          sym (ap (λ p. p ++ (b'/' ∷ us)) (path_escape_keep x xs e))
          ∙ h
          ∙ ap (λ p. p ++ (b'/' ∷ vs)) (path_escape_code y ys k))).0

  Same-mixed' :
      (x y : ℕ) (xs ys : Text)
      → is_path_byte x ≡ false
      → is_path_byte y ≡ true
      → Same (x ∷ xs) (y ∷ ys)
      → ⊥
  Same-mixed' x y xs ys e k h = not_percent y k (
      sym
        (cons_inj (
          sym (ap (λ p. p ++ (b'/' ∷ us)) (path_escape_code x xs e))
          ∙ h
          ∙ ap (λ p. p ++ (b'/' ∷ vs)) (path_escape_keep y ys k))).0)

  Same-cons : (x y : ℕ) (xs ys : Text) → Same (x ∷ xs) (y ∷ ys) → (x ≡ y) × Same xs ys
  Same-cons x y xs ys h = elim (Bool-cases (is_path_byte x)) [
    | inl e ↦ elim (Bool-cases (is_path_byte y)) [
      | inl k ↦ Same-keep x y xs ys e k h
      | inr k ↦ absurd (Same-mixed x y xs ys e k h)
    ]
    | inr e ↦ elim (Bool-cases (is_path_byte y)) [
      | inl k ↦ absurd (Same-mixed' x y xs ys e k h)
      | inr k ↦ Same-code x y xs ys e k h
    ]
  ]

  segment_inj : (xs ys : Text) → Same xs ys → (xs ≡ ys) × (us ≡ vs)
  unfolding path_escape
  segment_inj [] [] h = (refl, (cons_inj h).1)
  segment_inj [] (y ∷ ys) h = absurd (escaped_front y ys us (b'/' ∷ vs) h)
  segment_inj (x ∷ xs) [] h = absurd (escaped_front x xs vs (b'/' ∷ us) (sym h))
  segment_inj (x ∷ xs) (y ∷ ys) h =
      let (e, k) = Same-cons x y xs ys h in
      let (p, q) = segment_inj xs ys k in (ap (λ c. c ∷ xs) e ∙ ap (λ cs. y ∷ cs) p, q)

path_escape_inj : (xs ys : Text) → path_escape xs ≡ path_escape ys → xs ≡ ys
path_escape_inj xs ys h = (segment_inj [] [] xs ys (ap (λ p. p ++ text "/") h)).0

-- Two records whose RRsets have the same path have the same zone, name and type.
pub rrset_path-injective :
    (r s : Record)
    → rrset_path r ≡ rrset_path s
    → (r.zone ≡ s.zone) × (r.name ≡ s.name) × (r.kind ≡ s.kind)
unfolding rrset_path
rrset_path-injective r s h =
    let after_zones = ap (drop 7) h in
    let (zone, rest) = segment_inj _ _ r.zone s.zone after_zones in
    let (name, kind) = segment_inj _ _ r.name s.name (ap (drop 7) rest) in
    (zone, name, path_escape_inj r.kind s.kind kind)
