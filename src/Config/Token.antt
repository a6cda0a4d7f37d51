-- ===== src/Config/Token.antt =====
-- `ReadToken` of internal/config/config.go.
use mathlib.Core.Path.{subst}
use mathlib.Core.List.{cons≢nil}
use hetdns.Prelude.{
  ◌⊎◌, ℕ, ◌*◌, ◌+◌, ◌≤◌, ◌≡◌, ◌≢◌, ◌++◌, false, ◌||◌, [], ◌∷◌, take, length, ltb, if◌then◌else◌,
  arith, length-take, take-all, inl, inr, refl,
}
use hetdns.Prelude.Text.{Text, text}
use hetdns.Prelude.Trim.{is_empty, has_byte, trim_blank}

-- What becomes of a file that is opened, read and closed: its content, which only the part that
-- `LimitReader` lets through counts of, or the message of the first error.
pub data File : Type 0 where
  content : Text → File
  not_read : Text → File
  not_closed : Text → File

pub data Token : Type 0 where
  token : Text → Token
  refused : Text → Token

abbrev pub max_token : ℕ
max_token = 16 * 1024

on_trimmed : ℕ → Text → Token
on_trimmed size trimmed =
    if ltb max_token size
    then refused (text "hetzner token is unreasonably large")
    else if is_empty trimmed
    then refused (text "hetzner token is required")
    else if has_byte 13 trimmed || has_byte 10 trimmed
    then refused (text "hetzner token contains an invalid line break")
    else token trimmed

on_data : Text → Token
unfolding on_trimmed
on_data value = on_trimmed (length value) (trim_blank value)

on_file : File → Token
unfolding on_data
on_file (content bytes) = on_data (take (max_token + 1) bytes)
on_file (not_read e) = refused (text "read Hetzner token file: " ++ e)
on_file (not_closed e) = refused (text "close Hetzner token file: " ++ e)

-- `ReadToken`, with the file system.
unfoldable pub read_token : (Text → File) → Text → Text → Token
unfolding on_file on_data
read_token file_at token_file environment_value =
    if is_empty token_file then on_data environment_value else on_file (file_at token_file)

-- The token of some data: all of it but blanks at the ends, with no line break inside, so that it
-- cannot end the header that it is put into.
abbrev pub IsToken : Text → Text → Type 0
IsToken bytes t =
    (length bytes ≤ max_token)
    × (trim_blank bytes ≡ t)
    × (t ≢ [])
    × (has_byte 13 t ≡ false)
    × (has_byte 10 t ≡ false)

trimmed_sound :
    (size : ℕ) (trimmed t : Text)
    → on_trimmed size trimmed ≡ token t
    → (size ≤ max_token)
      × (trimmed ≡ t)
      × (trimmed ≢ [])
      × (has_byte 13 trimmed ≡ false)
      × (has_byte 10 trimmed ≡ false)
unfolding on_trimmed
trimmed_sound size [] t h = absurd (ground (arith, h))
trimmed_sound size (c ∷ cs) t h = ground (arith, h)

IsToken-on_data : (bytes t : Text) → on_data bytes ≡ token t → IsToken bytes t
unfolding on_data
IsToken-on_data bytes t h =
    let (size, e, some_byte, no_cr, no_lf) = trimmed_sound (length bytes) (trim_blank bytes) t h in
    (
      size,
      e,
      subst (λ s. s ≢ []) e some_byte,
      subst (λ s. has_byte 13 s ≡ false) e no_cr,
      subst (λ s. has_byte 10 s ≡ false) e no_lf,
    )

whole :
    (bytes : Text)
    → length (take (max_token + 1) bytes) ≤ max_token
    → take (max_token + 1) bytes ≡ bytes
whole bytes h = take-all (max_token + 1) bytes (omega (arith, length-take (max_token + 1) bytes, h))

-- Where the data comes from: the file if one is named, or else the environment.
abbrev pub Given : (Text → File) → Text → Text → Text → Type 0
Given file_at token_file environment_value bytes =
    (token_file ≡ []) × (environment_value ≡ bytes)
    ⊎ (token_file ≢ []) × (file_at token_file ≡ content bytes)

from_file :
    (file : File) (t : Text)
    → on_file file ≡ token t
    → (bytes : Text) × (file ≡ content bytes) × IsToken bytes t
unfolding on_file
from_file (content bytes) t h =
    let k = IsToken-on_data (take (max_token + 1) bytes) t h in
    (bytes, refl, subst (λ s. IsToken s t) (whole bytes k.0) k)
from_file (not_read e) t h = absurd (ground (arith, h))
from_file (not_closed e) t h = absurd (ground (arith, h))

-- The token that is read is the whole of the file, or of the environment's value if no file is
-- named, of at most 16 KiB, without the blanks at its ends; it is not empty and has no line break
-- inside, so that it cannot end the header that it is put into.
pub read_token-IsToken :
    (file_at : Text → File) (token_file environment_value t : Text)
    → read_token file_at token_file environment_value ≡ token t
    → (bytes : Text) × Given file_at token_file environment_value bytes × IsToken bytes t
unfolding read_token
read_token-IsToken file_at [] environment_value t h =
    (environment_value, inl (refl, refl), IsToken-on_data environment_value t h)
read_token-IsToken file_at (c ∷ cs) environment_value t h =
    let (bytes, e, k) = from_file (file_at (c ∷ cs)) t h in (bytes, inr (cons≢nil, e), k)
