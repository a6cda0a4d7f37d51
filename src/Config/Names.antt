-- ===== src/Config/Names.antt =====
-- The tests on names in internal/config/config.go: IDs, DNS names and user agents.
pub mod Labels
use hetdns.Prelude.{
  ℕ, Bool, true, false, not, ◌&&◌, ◌||◌, Option, none, some, List, [], ◌∷◌, all, any, length, drop,
  ltb, leb, ◌==◌, if◌then◌else◌,
}
use hetdns.Prelude.Text.{Text, text, text_eq}
use hetdns.Prelude.Trim.{is_empty, has_prefix}

abbrev is_lower : ℕ → Bool
is_lower c = leb b'a' c && leb c b'z'

abbrev is_upper : ℕ → Bool
is_upper c = leb b'A' c && leb c b'Z'

abbrev is_digit : ℕ → Bool
is_digit c = leb b'0' c && leb c b'9'

abbrev is_alphanumeric : ℕ → Bool
is_alphanumeric c = is_upper c || is_lower c || is_digit c

abbrev is_id_char : ℕ → Bool
is_id_char c = is_alphanumeric c || c == b'.' || c == b'_' || c == b'-'

-- `idPattern.MatchString`.
unfoldable pub valid_id : Text → Bool
valid_id [] = false
valid_id (c ∷ cs) = is_alphanumeric c && all is_id_char cs && leb (length cs) 62

-- `isLabelChar`.
abbrev pub is_label_char : ℕ → Bool
is_label_char c = is_lower c || is_upper c || is_digit c || c == b'-'

-- Whether the last byte of a text is `b`.
abbrev pub ends_with : ℕ → Text → Bool
ends_with b [] = false
ends_with b (c ∷ []) = c == b
ends_with b (c ∷ d ∷ ds) = ends_with b (d ∷ ds)

abbrev pub starts_with : ℕ → Text → Bool
starts_with b [] = false
starts_with b (c ∷ cs) = c == b

-- `validLabel`.
unfoldable pub valid_label : Text → Bool
valid_label label =
    if length label == 0 || ltb 63 (length label) || starts_with b'-' label || ends_with b'-' label
    then false
    else all is_label_char label

-- The first part and the others of a text with one more byte in front.
abbrev cons_part : ℕ → List Text → List Text
cons_part c [] = (c ∷ []) ∷ []
cons_part c (part ∷ parts) = (c ∷ part) ∷ parts

-- `strings.SplitSeq(name, ".")`.
unfoldable pub split_dots : Text → List Text
split_dots [] = [] ∷ []
split_dots (c ∷ cs) = let rest = split_dots cs in if c == b'.' then [] ∷ rest else cons_part c rest

-- `strings.TrimPrefix(name, "*.")`.
abbrev pub trim_wildcard : Text → Text
trim_wildcard name = if has_prefix name (text "*.") then drop 2 name else name

-- `validLabels`.
unfoldable pub valid_labels : Text → Bool → Bool
valid_labels name true =
    if text_eq name (text "*") then true else all valid_label (split_dots (trim_wildcard name))
valid_labels name false = all valid_label (split_dots name)

-- `validDomain`.
unfoldable pub valid_domain : Text → Bool
valid_domain name =
    not (is_empty name)
    && leb (length name) 253
    && not (ends_with b'.' name)
    && valid_labels name false

-- `validOwner`.
unfoldable pub valid_owner : Text → Bool
valid_owner name =
    if text_eq name (text "@")
    then true
    else not (is_empty name)
      && leb (length name) 253
      && not (ends_with b'.' name)
      && valid_labels name true

-- `validateUserAgent`, whose bytes are what is counted.
unfoldable pub validate_user_agent : Text → Option Text
validate_user_agent value =
    if ltb 256 (length value)
    then some (text "must not exceed 256 bytes")
    else if any (λ char. ltb char 0x20 || ltb 0x7e char) value
    then some (text "must contain only visible ASCII characters")
    else none
