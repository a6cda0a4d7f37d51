-- ===== src/Hetzner/Path.antt =====
-- The request paths of internal/hetzner/client.go, with `url.PathEscape`.
pub mod Injective
use hetdns.Prelude.{
  ℕ, ◌+◌, ◌/◌, ◌%◌, Bool, ◌&&◌, ◌||◌, [], ◌∷◌, ◌++◌, ltb, leb, ◌==◌, if◌then◌else◌,
}
use hetdns.Prelude.Text.{Text, text}
use hetdns.Hetzner.Types.{Record}

-- The bytes that `url.PathEscape` leaves alone.
unfoldable pub is_path_byte : ℕ → Bool
is_path_byte c =
    (leb b'a' c && leb c b'z')
    || (leb b'A' c && leb c b'Z')
    || (leb b'0' c && leb c b'9')
    || c == b'-'
    || c == b'_'
    || c == b'.'
    || c == b'~'
    || c == b'$'
    || c == b'&'
    || c == b'+'
    || c == b'='
    || c == b':'
    || c == b'@'

unfoldable pub hex_digit : ℕ → ℕ
hex_digit n = if ltb n 10 then 48 + n else 55 + n

unfoldable pub path_escape : Text → Text
unfolding is_path_byte hex_digit
path_escape [] = []
path_escape (c ∷ cs) =
    let rest = path_escape cs in
    if is_path_byte c then c ∷ rest else b'%' ∷ hex_digit (c / 16) ∷ hex_digit (c % 16) ∷ rest

-- `rrsetPath`.
unfoldable pub rrset_path : Record → Text
rrset_path record' =
    text "/zones/"
    ++ (path_escape record'.zone
        ++ (text "/rrsets/"
            ++ (path_escape record'.name ++ (text "/" ++ path_escape record'.kind))))

-- The path of `createRRSet`.
unfoldable pub create_path : Record → Text
create_path record' = text "/zones/" ++ (path_escape record'.zone ++ text "/rrsets")
