-- ===== src/Config/Validate/Sources.antt =====
-- Which sources `validateSource` of internal/config/config.go accepts.
use mathlib.Core.Path.{subst}
use mathlib.Core.Option.{some_inj}
use hetdns.Prelude.{
  ℕ, suc, ◌≡◌, ◌≢◌, ◌↔◌, ◌⊎◌, refl, sym, Bool, true, false, Option, none, some, List, [], ◌∷◌, All,
  arith, length, ◌==◌,
}
use hetdns.Prelude.Int.{ℤ, pos, negsuc, millisecond, minute, ◌≤ℤ◌}
use hetdns.Prelude.Text.{Text, text, text_eq_iff}
use hetdns.Prelude.Trim.{is_empty, has_prefix, has_byte}
use hetdns.Config
use hetdns.Config.Names.{validate_user_agent}
use hetdns.Config.Validate.{
  Url, Codec, within, or_else, check, timeout_error, default_timeout, url_error, user_agent_error,
  http_error, first_arg, nul_error, is_set, command_error, validate_source,
}

pub or_else_iff : (a b : Option Text) → (or_else a b ≡ none) ↔ ((a ≡ none) × (b ≡ none))
unfolding or_else
or_else_iff none b = ground arith
or_else_iff (some m) b = ground arith

pub within_iff : (path : Text) (a : Option Text) → (within path a ≡ none) ↔ (a ≡ none)
unfolding within
within_iff path none = ground arith
within_iff path (some m) = ground arith

pub check_iff : (b : Bool) (message : Text) → (check b message ≡ none) ↔ (b ≡ false)
unfolding check
check_iff true message = ground arith
check_iff false message = ground arith

pub is_empty_iff : (s : Text) → (is_empty s ≡ true) ↔ (s ≡ [])
is_empty_iff [] = ground arith
is_empty_iff (c ∷ cs) = ground arith

-- An accepted URL.
abbrev pub IsUrl : Bool → Url → Type 0
IsUrl allow_insecure u =
    (u.host ≢ [])
    × (u.hostname ≢ [])
    × (u.has_user ≡ false)
    × (u.fragment ≡ [])
    × ((u.scheme ≡ text "https") ⊎ ((u.scheme ≡ text "http") × (allow_insecure ≡ true)))

url_some : (allow : Bool) (u : Url) → (url_error allow (some u) ≡ none) ↔ IsUrl allow u
unfolding url_error or_else check
url_some allow u = ground (
  arith,
  is_empty_iff u.host,
  is_empty_iff u.hostname,
  is_empty_iff u.fragment,
  text_eq_iff u.scheme (text "https"),
  text_eq_iff u.scheme (text "http"),
)

pub some_exists :
    {A : Type 0} (P : A → Type 0) (a : A)
    → P a ↔ ((x : A) × (◌≡◌ {A = Option A} (some a) (some x)) × P x)
some_exists P a = (λ h. (a, refl, h), λ (x, e, h). subst P (sym (some_inj.0 e)) h)

url_iff :
    (allow : Bool) (r : Option Url)
    → (url_error allow r ≡ none) ↔ ((u : Url) × (r ≡ some u) × IsUrl allow u)
unfolding url_error
url_iff allow none = ground arith
url_iff allow (some u) =
    let exists = some_exists (IsUrl allow) u in
    let valid = url_some allow u in (λ h. exists.0 (valid.0 h), λ h. valid.1 (exists.1 h))

-- A user agent is absent or accepted.
abbrev pub IsUserAgent : Option Text → Type 0
IsUserAgent none = Unit
IsUserAgent (some value) = validate_user_agent value ≡ none

IsUserAgent-iff : (o : Option Text) → (user_agent_error o ≡ none) ↔ IsUserAgent o
unfolding user_agent_error
IsUserAgent-iff none = ground arith
IsUserAgent-iff (some value) = within_iff (text "user_agent: ") (validate_user_agent value)

argv_empty_iff : {A : Type 0} (argv : List A) → ((length argv == 0) ≡ true) ↔ (argv ≡ [])
argv_empty_iff [] = ground arith
argv_empty_iff (arg ∷ args) = ground arith

-- An accepted HTTP source.
abbrev pub IsHttp : Codec → Config.Source → Type 0
IsHttp codec s =
    (s.url ≢ [])
    × (s.argv ≡ [])
    × IsUserAgent s.user_agent
    × ((u : Url) × (codec.parse_url s.url ≡ some u) × IsUrl s.allow_insecure_http u)

IsHttp-iff : (codec : Codec) (s : Config.Source) → (http_error codec s ≡ none) ↔ IsHttp codec s
unfolding http_error or_else check
IsHttp-iff codec s = ground (
  arith,
  is_empty_iff s.url,
  argv_empty_iff s.argv,
  IsUserAgent-iff s.user_agent,
  url_iff s.allow_insecure_http (codec.parse_url s.url),
)

nul_iff :
    (i : ℕ) (args : List Text)
    → (nul_error i args ≡ none) ↔ All (λ arg. has_byte 0 arg ≡ false) args
unfolding nul_error or_else check
nul_iff i [] = ground arith
nul_iff i (arg ∷ args) = ground (arith, nul_iff (suc i) args)

is_set_iff : (o : Option Text) → (is_set o ≡ false) ↔ (o ≡ none)
unfolding is_set
is_set_iff none = ground arith
is_set_iff (some value) = ground arith

-- An accepted command source.
abbrev pub IsCommand : Config.Source → Type 0
IsCommand s =
    (s.url ≡ [])
    × (first_arg s.argv ≢ [])
    × (has_prefix (first_arg s.argv) (text "/") ≡ true)
    × All (λ arg. has_byte 0 arg ≡ false) s.argv
    × (s.allow_insecure_http ≡ false)
    × (s.allow_private_networks ≡ false)
    × (s.user_agent ≡ none)

IsCommand-iff : (s : Config.Source) → (command_error s ≡ none) ↔ IsCommand s
unfolding command_error or_else check
IsCommand-iff s = ground (
  arith,
  is_empty_iff s.url,
  is_empty_iff (first_arg s.argv),
  nul_iff 0 s.argv,
  is_set_iff s.user_agent,
)

timeout_iff : (t : ℤ) → (timeout_error t ≡ none) ↔ ((pos millisecond ≤ℤ t) × (t ≤ℤ pos minute))
unfolding timeout_error check
timeout_iff (pos n) = ground arith
timeout_iff (negsuc n) = ground arith

-- An accepted source.
abbrev pub IsSource : Codec → Config.Source → Type 0
IsSource codec s =
    ((s.family ≡ text "ipv4") ⊎ (s.family ≡ text "ipv6"))
    × (pos millisecond ≤ℤ default_timeout s.timeout)
    × (default_timeout s.timeout ≤ℤ pos minute)
    × (((s.kind ≡ text "http") × IsHttp codec s) ⊎ ((s.kind ≡ text "command") × IsCommand s))

-- The sources that are accepted: the family is ipv4 or ipv6, the timeout (10 s if it is 0) between a
-- millisecond and a minute, and the rest fits the kind, which is http or command.
pub validate_source_iff :
    (codec : Codec) (s : Config.Source) → (validate_source codec s ≡ none) ↔ IsSource codec s
unfolding validate_source or_else check
validate_source_iff codec s = ground (
  arith,
  text_eq_iff s.family (text "ipv4"),
  text_eq_iff s.family (text "ipv6"),
  text_eq_iff s.kind (text "http"),
  text_eq_iff s.kind (text "command"),
  timeout_iff (default_timeout s.timeout),
  IsHttp-iff codec s,
  IsCommand-iff s,
)
