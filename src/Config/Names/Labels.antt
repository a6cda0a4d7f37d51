-- ===== src/Config/Names/Labels.antt =====
-- What the domain test of internal/config/config.go accepts.
use hetdns.Prelude.{
  ℕ, ◌≤◌, ◌≡◌, ◌↔◌, refl, ap, sym, ◌∙◌, true, false, List, [], ◌∷◌, ◌++◌, all, All, length, arith,
  ◌==◌, Bool-cases, inl, inr,
}
use hetdns.Prelude.Text.{Text}
use hetdns.Prelude.Trim.{is_empty}
use hetdns.Config.Names.{
  is_label_char, ends_with, starts_with, valid_label, cons_part, split_dots, valid_labels,
  valid_domain,
}

-- Labels joined by dots.
abbrev pub dotted : List Text → Text
dotted [] = []
dotted (label ∷ []) = label
dotted (label ∷ next ∷ labels) = label ++ (b'.' ∷ dotted (next ∷ labels))

dotted-cons_part : (c : ℕ) (parts : List Text) → dotted (cons_part c parts) ≡ c ∷ dotted parts
dotted-cons_part c [] = refl
dotted-cons_part c (part ∷ []) = refl
dotted-cons_part c (part ∷ next ∷ parts) = refl

cons_part_cases :
    (c : ℕ) (parts : List Text)
    → (first : Text) × (rest : List Text) × (cons_part c parts ≡ first ∷ rest)
cons_part_cases c [] = (c ∷ [], [], refl)
cons_part_cases c (part ∷ parts) = (c ∷ part, parts, refl)

-- A split has a part.
split_cases : (s : Text) → (first : Text) × (rest : List Text) × (split_dots s ≡ first ∷ rest)
unfolding split_dots
split_cases [] = ([], [], refl)
split_cases (c ∷ cs) = elim (Bool-cases (c == b'.')) [
  | inl dot ↦ ([], split_dots cs, rw dot refl)
  | inr other ↦
      let (first, rest, e) = cons_part_cases c (split_dots cs) in (first, rest, rw other e)
]

dotted-empty :
    (parts : List Text)
    → (first : Text) × (rest : List Text) × (parts ≡ first ∷ rest)
    → dotted ([] ∷ parts) ≡ b'.' ∷ dotted parts
dotted-empty parts (first, rest, e) = rw e refl

dotted-split_dots : (s : Text) → dotted (split_dots s) ≡ s
unfolding split_dots
dotted-split_dots [] = refl
dotted-split_dots (c ∷ cs) = elim (Bool-cases (c == b'.')) [
  | inl dot ↦
      rw (dot, dotted-empty (split_dots cs) (split_cases cs), dotted-split_dots cs)
        (ap (λ d. d ∷ cs) (ground (arith, dot)))
  | inr other ↦ rw (other, dotted-cons_part c (split_dots cs), dotted-split_dots cs) refl
]

other_char :
    (c : ℕ) (cs : Text)
    → all is_label_char (c ∷ cs) ≡ true
    → ((c == b'.') ≡ false) × (all is_label_char cs ≡ true)
other_char c cs h = ground (arith, h)

split_dots-label :
    (label rest : Text)
    → all is_label_char label ≡ true
    → split_dots (label ++ (b'.' ∷ rest)) ≡ label ∷ split_dots rest
unfolding split_dots
split_dots-label [] rest h = refl
split_dots-label (c ∷ cs) rest h =
    let (other, more) = other_char c cs h in rw (other, split_dots-label cs rest more) refl

split_dots-last : (label : Text) → all is_label_char label ≡ true → split_dots label ≡ label ∷ []
unfolding split_dots
split_dots-last [] h = refl
split_dots-last (c ∷ cs) h =
    let (other, more) = other_char c cs h in rw (other, split_dots-last cs more) refl

-- A label of a host name: 1 to 63 letters, digits and hyphens, no hyphen at an end.
abbrev pub IsLabel : Text → Type 0
IsLabel label =
    (1 ≤ length label)
    × (length label ≤ 63)
    × (all is_label_char label ≡ true)
    × (starts_with b'-' label ≡ false)
    × (ends_with b'-' label ≡ false)

valid_label_iff : (label : Text) → (valid_label label ≡ true) ↔ IsLabel label
unfolding valid_label
valid_label_iff label = ground arith

all_labels : (labels : List Text) → (all valid_label labels ≡ true) ↔ All IsLabel labels
all_labels [] = ground arith
all_labels (label ∷ labels) = ground (arith, valid_label_iff label, all_labels labels)

split_dots-dotted :
    (label : Text) (labels : List Text)
    → All IsLabel (label ∷ labels)
    → split_dots (dotted (label ∷ labels)) ≡ label ∷ labels
split_dots-dotted label [] h = split_dots-last label h.0.2
split_dots-dotted label (next ∷ labels) h =
    split_dots-label label (dotted (next ∷ labels)) h.0.2
    ∙ ap (◌∷◌ label) (split_dots-dotted next labels h.1)

ends_with-append :
    (b : ℕ) (xs : Text) (y : ℕ) (ys : Text) → ends_with b (xs ++ (y ∷ ys)) ≡ ends_with b (y ∷ ys)
ends_with-append b [] y ys = refl
ends_with-append b (x ∷ []) y ys = refl
ends_with-append b (x ∷ z ∷ zs) y ys = ends_with-append b (z ∷ zs) y ys

no_dot : (label : Text) → all is_label_char label ≡ true → ends_with b'.' label ≡ false
no_dot [] h = refl
no_dot (c ∷ []) h = (other_char c [] h).0
no_dot (c ∷ d ∷ ds) h = no_dot (d ∷ ds) (other_char c (d ∷ ds) h).1

dotted_cases :
    (label : Text) (labels : List Text)
    → All IsLabel (label ∷ labels)
    → (c : ℕ) × (cs : Text) × (dotted (label ∷ labels) ≡ c ∷ cs)
dotted_cases [] labels h = absurd (omega (arith, h.0.0))
dotted_cases (c ∷ cs) [] h = (c, cs, refl)
dotted_cases (c ∷ cs) (next ∷ labels) h = (c, cs ++ (b'.' ∷ dotted (next ∷ labels)), refl)

ends_with-dotted :
    (label : Text) (labels : List Text)
    → All IsLabel (label ∷ labels)
    → ends_with b'.' (dotted (label ∷ labels)) ≡ false
ends_with-dotted label [] h = no_dot label h.0.2
ends_with-dotted label (next ∷ labels) h =
    let (c, cs, e) = dotted_cases next labels h.1 in
    ends_with-append b'.' label b'.' (dotted (next ∷ labels))
    ∙ (rw e refl ∙ ends_with-dotted next labels h.1)

-- A name of at most 253 bytes that is made of labels.
abbrev pub IsDomain : Text → Type 0
IsDomain name =
    (length name ≤ 253)
    × ((label : Text) × (labels : List Text) × (name ≡ dotted (label ∷ labels))
        × All IsLabel (label ∷ labels))

IsDomain-sound : (name : Text) → valid_domain name ≡ true → IsDomain name
unfolding valid_domain valid_labels
IsDomain-sound name h =
    let (label, labels, e) = split_cases name in
    let valid : all valid_label (split_dots name) ≡ true = ground (arith, h) in
    (
      ground (arith, h),
      (
        label,
        labels,
        sym (dotted-split_dots name) ∙ ap dotted e,
        (all_labels (label ∷ labels)).0 (ap (all valid_label) (sym e) ∙ valid),
      ),
    )

IsDomain-complete : (name : Text) → IsDomain name → valid_domain name ≡ true
unfolding valid_domain valid_labels
IsDomain-complete name (le, (label, labels, e, h)) =
    let (c, cs, q) = dotted_cases label labels h in
    let split = ap split_dots e ∙ split_dots-dotted label labels h in
    let valid : all valid_label (split_dots name) ≡ true =
      ap (all valid_label) split ∙ (all_labels (label ∷ labels)).1 h in
    let ends : ends_with b'.' name ≡ false =
      ap (ends_with b'.') e ∙ ends_with-dotted label labels h in
    let nonempty : is_empty name ≡ false = ap is_empty (e ∙ q) in
    ground (arith, le, valid, ends, nonempty)

-- The zone names that the configuration accepts are the sequences of labels joined by dots, of at
-- most 253 bytes.
pub valid_domain_iff : (name : Text) → (valid_domain name ≡ true) ↔ IsDomain name
valid_domain_iff name = (IsDomain-sound name, IsDomain-complete name)
