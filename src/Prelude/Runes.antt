-- ===== src/Prelude/Runes.antt =====
-- The parts of Go's `unicode/utf8`, `unicode` and `strings` by which the program cleans a text:
-- decoding a string into runes, encoding them, `strings.Map`, `strings.Fields`, `strings.Join`.
use Prim.Native.Nat.{ℕ, zero, suc, ◌+◌, ◌-◌, ◌*◌, ◌/◌, ◌%◌}
use mathlib.Core.Bool.{Bool, ◌&&◌, ◌||◌}
use mathlib.Core.List.{List, [], ◌∷◌, ◌++◌}
use hetdns.Prelude.Tests.{ltb, leb, ◌==◌, if◌then◌else◌}
use hetdns.Prelude.Text.{Text}

-- U+FFFD, which stands for a byte that belongs to no valid encoding.
abbrev pub rune_error : ℕ
rune_error = 0xfffd

abbrev in_range : ℕ → ℕ → ℕ → Bool
in_range lo hi b = leb lo b && leb b hi

abbrev low6 : ℕ → ℕ
low6 b = b % 64

-- `utf8.DecodeRune`: the rune at the front of a text, and how many bytes it takes. An overlong
-- form, a surrogate and a value above U+10FFFF are invalid, which the second byte's range decides.
unfoldable pub decode_rune : Text → ℕ × ℕ
decode_rune [] = (rune_error, 0)
decode_rune (a ∷ []) = if ltb a 0x80 then (a, 1) else (rune_error, 1)
decode_rune (a ∷ b ∷ []) =
    if ltb a 0x80
    then (a, 1)
    else if in_range 0xc2 0xdf a && in_range 0x80 0xbf b
    then (a % 32 * 64 + low6 b, 2)
    else (rune_error, 1)
decode_rune (a ∷ b ∷ c ∷ []) =
    if ltb a 0x80
    then (a, 1)
    else if in_range 0xc2 0xdf a && in_range 0x80 0xbf b
    then (a % 32 * 64 + low6 b, 2)
    else if in_range 0xe0 0xef a
        && in_range (if a == 0xe0 then 0xa0 else 0x80) (if a == 0xed then 0x9f else 0xbf) b
        && in_range 0x80 0xbf c
    then (a % 16 * 4096 + low6 b * 64 + low6 c, 3)
    else (rune_error, 1)
decode_rune (a ∷ b ∷ c ∷ d ∷ rest) =
    if ltb a 0x80
    then (a, 1)
    else if in_range 0xc2 0xdf a && in_range 0x80 0xbf b
    then (a % 32 * 64 + low6 b, 2)
    else if in_range 0xe0 0xef a
        && in_range (if a == 0xe0 then 0xa0 else 0x80) (if a == 0xed then 0x9f else 0xbf) b
        && in_range 0x80 0xbf c
    then (a % 16 * 4096 + low6 b * 64 + low6 c, 3)
    else if in_range 0xf0 0xf4 a
        && in_range (if a == 0xf0 then 0x90 else 0x80) (if a == 0xf4 then 0x8f else 0xbf) b
        && in_range 0x80 0xbf c
        && in_range 0x80 0xbf d
    then (a % 8 * 262144 + low6 b * 4096 + low6 c * 64 + low6 d, 4)
    else (rune_error, 1)

-- `for _, r := range s`; the first argument counts the bytes of the last rune that are still to be
-- passed over.
runes_from : ℕ → Text → List ℕ
runes_from skip [] = []
runes_from zero (b ∷ rest) =
    let (r, width) = decode_rune (b ∷ rest) in r ∷ runes_from (width - 1) rest
runes_from (suc skip) (b ∷ rest) = runes_from skip rest

unfoldable pub runes : Text → List ℕ
unfolding runes_from decode_rune
runes = runes_from 0

-- `utf8.AppendRune`.
unfoldable pub encode_rune : ℕ → Text
encode_rune r =
    if ltb r 0x80
    then r ∷ []
    else if ltb r 0x800
    then (0xc0 + r / 64) ∷ (0x80 + r % 64) ∷ []
    else if (leb 0xd800 r && leb r 0xdfff) || ltb 0x10ffff r
    then 0xef ∷ 0xbf ∷ 0xbd ∷ []
    else if ltb r 0x10000
    then (0xe0 + r / 4096) ∷ (0x80 + r / 64 % 64) ∷ (0x80 + r % 64) ∷ []
    else (0xf0 + r / 262144) ∷ (0x80 + r / 4096 % 64) ∷ (0x80 + r / 64 % 64) ∷ (0x80 + r % 64) ∷ []

unfoldable pub encode : List ℕ → Text
unfolding encode_rune
encode [] = []
encode (r ∷ rs) = encode_rune r ++ encode rs

-- `unicode.IsSpace`.
unfoldable pub is_space : ℕ → Bool
is_space r =
    in_range 0x09 0x0d r
    || r == 0x20
    || r == 0x85
    || r == 0xa0
    || r == 0x1680
    || in_range 0x2000 0x200a r
    || r == 0x2028
    || r == 0x2029
    || r == 0x202f
    || r == 0x205f
    || r == 0x3000

abbrev emit : List ℕ → List (List ℕ) → List (List ℕ)
emit [] words = words
emit (r ∷ rs) words = (r ∷ rs) ∷ words

-- `strings.Fields` on runes: the maximal runs of runes that are no space.
fields_from : List ℕ → List ℕ → List (List ℕ)
fields_from word [] = emit word []
fields_from word (r ∷ rs) =
    let next = fields_from [] rs in
    let more = fields_from (word ++ r ∷ []) rs in if is_space r then emit word next else more

unfoldable pub fields : List ℕ → List (List ℕ)
unfolding fields_from is_space
fields = fields_from []

-- `strings.Join(words, " ")`.
unfoldable pub join_space : List (List ℕ) → List ℕ
join_space [] = []
join_space (w ∷ []) = w
join_space (w ∷ v ∷ ws) = w ++ (0x20 ∷ join_space (v ∷ ws))
