-- ===== src/Hetzner/Safe.antt =====
-- `safeText` of internal/hetzner/client.go.
use hetdns.Prelude.{ℕ, ◌||◌, map, take, ltb, ◌==◌, if◌then◌else◌}
use hetdns.Prelude.Text.{Text}
use hetdns.Prelude.Runes.{runes, encode, fields, join_space}

abbrev printable_rune : ℕ → ℕ
printable_rune char = if ltb char 0x20 || char == 0x7f then 0x20 else char

-- Control characters become blanks, runs of blanks one blank, and the rest is cut at `limit` bytes.
unfoldable pub safe_text : Text → ℕ → Text
safe_text value limit = take limit (encode (join_space (fields (map printable_rune (runes value)))))
