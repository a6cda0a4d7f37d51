-- ===== src/Hetzner/RetryAfter.antt =====
-- `parseRetryAfter` of internal/hetzner/client.go.
use hetdns.Prelude.{ℕ, ◌*◌, Option, none, some, true, if◌then◌else◌, ◌≡◌, ◌≤◌, arith}
use hetdns.Prelude.Int.{ℤ, pos, negsuc, int64_of, second, sub_time, ltb_ℤ}
use hetdns.Prelude.Text.{Text}
use hetdns.Prelude.Atoi.{trim_space, atoi}

-- A date of the header, when it lies ahead; the date is what `http.ParseTime` makes of it.
until : ℕ → Option ℕ → ℤ
until now none = pos 0
until now (some date) =
    let delay = sub_time date now in if ltb_ℤ (pos 0) delay then delay else pos 0

-- Seconds are multiplied in int64.
from_seconds : Option ℤ → ℤ → ℤ
from_seconds (some (pos seconds)) otherwise = int64_of (seconds * second)
from_seconds (some (negsuc n)) otherwise = otherwise
from_seconds none otherwise = otherwise

unfoldable pub parse_retry_after : (Text → Option ℕ) → ℕ → Text → ℤ
unfolding until from_seconds
parse_retry_after parse_time now value =
    from_seconds (atoi (trim_space value)) (until now (parse_time value))

-- A header of at most 9223372036 seconds, some 292 years, comes through exactly.
pub seconds_exact :
    (parse_time : Text → Option ℕ) (now seconds : ℕ) (value : Text)
    → atoi (trim_space value) ≡ some (pos seconds)
    → seconds ≤ 9223372036
    → parse_retry_after parse_time now value ≡ pos (seconds * second)
unfolding parse_retry_after int64_of
seconds_exact parse_time now seconds value h le = rw h (ground arith)

-- A header of 9223372037 to 18446744073 seconds becomes a negative duration, since the product by
-- `time.Second` wraps in int64.
pub seconds_wrap :
    (parse_time : Text → Option ℕ) (now seconds : ℕ) (value : Text)
    → atoi (trim_space value) ≡ some (pos seconds)
    → 9223372037 ≤ seconds
    → seconds ≤ 18446744073
    → ltb_ℤ (parse_retry_after parse_time now value) (pos 0) ≡ true
unfolding parse_retry_after int64_of
seconds_wrap parse_time now seconds value h low high = rw h (ground arith)
