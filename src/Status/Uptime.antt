-- ===== src/Status/Uptime.antt =====
-- The uptime of internal/status/store.go, `time.Since(started).Round(time.Second).String()`.
use hetdns.Prelude.{ℕ, ◌+◌, ◌/◌, ◌%◌, ltb, ◌==◌, if◌then◌else◌, ◌∷◌, ◌++◌}
use hetdns.Prelude.Int.{ℤ, pos, negsuc, second, sub_time}
use hetdns.Prelude.Text.{Text, text, decimal}

-- The whole seconds nearest to a magnitude, halves away from zero.
abbrev rounded : ℕ → ℕ
rounded n = if ltb (n % second + n % second) second then n / second else n / second + 1

-- `Duration.String` of a whole number of seconds.
abbrev seconds_text : ℕ → Text
seconds_text s =
    if ltb s 60
    then decimal s ++ text "s"
    else if ltb s 3600
    then decimal (s / 60) ++ (text "m" ++ (decimal (s % 60) ++ text "s"))
    else decimal (s / 3600)
      ++ (text "h" ++ (decimal (s / 60 % 60) ++ (text "m" ++ (decimal (s % 60) ++ text "s"))))

abbrev signed_text : ℕ → Text
signed_text s = if s == 0 then text "0s" else b'-' ∷ seconds_text s

round_text : ℤ → Text
round_text (pos n) = seconds_text (rounded n)
round_text (negsuc n) = signed_text (rounded (n + 1))

pub uptime_text : ℕ → ℕ → Text
unfolding round_text
uptime_text now started = round_text (sub_time now started)
