-- ===== src/Config/Validate.antt =====
-- `Validate` and `ReadToken` of internal/config/config.go.
pub mod Sound
pub mod Sources
use hetdns.Prelude.{
  ℕ, suc, ◌*◌, ◌++◌, Bool, true, false, not, ◌&&◌, ◌||◌, Option, none, some, List, [], ◌∷◌, any,
  length, ltb, leb, ◌==◌, if◌then◌else◌,
}
use hetdns.Prelude.Int.{ℤ, pos, second, millisecond, minute, ltb_ℤ}
use hetdns.Prelude.Text.{Text, text, text_eq, decimal}
use hetdns.Prelude.Trim.{is_empty, has_prefix, has_byte, trim_blank}
use hetdns.Prelude.Map.{Map, lookup}
use hetdns.Config
use hetdns.Config.{Config}
use hetdns.Config.Names.{valid_id, valid_domain, valid_owner, validate_user_agent}

-- What the code reads of a `url.URL`.
pub record Url : Type 0 where
  pub scheme : Text
  pub host : Text
  pub hostname : Text
  pub has_user : Bool
  pub fragment : Text

-- `url.Parse` (`none` is its error) and `%q`.
pub record Codec : Type 0 where
  pub parse_url : Text → Option Url
  pub quote : Text → Text

-- An error under a longer path; `none` is nil.
pub within : Text → Option Text → Option Text
within path none = none
within path (some message) = some (path ++ message)

-- The first error of two checks.
pub or_else : Option Text → Option Text → Option Text
or_else none next = next
or_else (some message) next = some message

pub check : Bool → Text → Option Text
check true message = some message
check false message = none

timeout_error : ℤ → Option Text
unfolding check
timeout_error timeout =
    check (ltb_ℤ timeout (pos millisecond) || ltb_ℤ (pos minute) timeout)
      (text "timeout: must be between 1ms and 1m")

-- The timeout that is checked; 0 stands for the default.
abbrev pub default_timeout : ℤ → ℤ
default_timeout (pos n) = if n == 0 then pos (10 * second) else pos n
default_timeout n = n

url_error : Bool → Option Url → Option Text
unfolding check or_else
url_error allow_insecure none = some (text "url: must be an absolute URL")
url_error allow_insecure (some url) =
    or_else
      (check (is_empty url.host || is_empty url.hostname) (text "url: must be an absolute URL"))
      (or_else
        (check (url.has_user || not (is_empty url.fragment))
          (text "url: userinfo and fragments are not allowed"))
        (check
          (not (text_eq url.scheme (text "https"))
            && (not (text_eq url.scheme (text "http")) || not allow_insecure))
          (text "url: HTTPS is required unless allow_insecure_http is true")))

user_agent_error : Option Text → Option Text
unfolding within
user_agent_error none = none
user_agent_error (some value) = within (text "user_agent: ") (validate_user_agent value)

http_error : Codec → Config.Source → Option Text
unfolding check or_else url_error user_agent_error
http_error codec source =
    or_else (check (is_empty source.url) (text "url: is required for an http source")) (
      or_else
        (check (not (length source.argv == 0)) (text "argv: is only valid for a command source"))
        (or_else (user_agent_error source.user_agent)
          (url_error source.allow_insecure_http (codec.parse_url source.url))))

-- `argv[0]`, which is read only if there is one.
abbrev pub first_arg : List Text → Text
first_arg [] = []
first_arg (arg ∷ args) = arg

-- The loop over the arguments, from index `i` on.
nul_error : ℕ → List Text → Option Text
unfolding or_else check
nul_error i [] = none
nul_error i (arg ∷ args) =
    or_else (check (has_byte 0 arg) (text "argv[" ++ (decimal i ++ text "]: contains a NUL byte")))
      (nul_error (suc i) args)

is_set : Option Text → Bool
is_set none = false
is_set (some value) = true

command_error : Config.Source → Option Text
unfolding check or_else nul_error is_set
command_error source =
    or_else (check (not (is_empty source.url)) (text "url: is only valid for an http source")) (
      or_else (check (is_empty (first_arg source.argv)) (text "argv: must contain a command")) (
        or_else
          (check (not (has_prefix (first_arg source.argv) (text "/")))
            (text "argv[0]: executable path must be absolute"))
          (or_else (nul_error 0 source.argv) (
            or_else
              (check (source.allow_insecure_http || source.allow_private_networks)
                (text "HTTP network options are not valid for a command source"))
              (check (is_set source.user_agent)
                (text "user_agent: is only valid for an http source"))))))

-- `validateSource`.
unfoldable pub validate_source : Codec → Config.Source → Option Text
unfolding check or_else timeout_error http_error command_error
validate_source codec source =
    or_else
      (check
        (not (text_eq source.family (text "ipv4")) && not (text_eq source.family (text "ipv6")))
        (text "family: must be ipv4 or ipv6"))
      (or_else (timeout_error (default_timeout source.timeout)) (
        if text_eq source.kind (text "http")
        then http_error codec source
        else if text_eq source.kind (text "command")
        then command_error source
        else some (text "type: must be http or command")))

-- `validateRecord`.
unfoldable pub validate_record : Config.Record → Option Text
unfolding check or_else
validate_record record_spec =
    or_else
      (check (not (valid_domain record_spec.zone))
        (text "zone: must be a valid relative DNS zone name"))
      (or_else
        (check (not (valid_owner record_spec.name))
          (text "name: must be @ or a valid relative owner name"))
        (or_else
          (check
            (not (text_eq record_spec.kind (text "A"))
              && not (text_eq record_spec.kind (text "AAAA")))
            (text "type: must be A or AAAA"))
          (or_else (check (is_empty record_spec.source) (text "source: is required")) (
            check
              (not (record_spec.ttl == 0)
                && (ltb record_spec.ttl 60 || ltb 2147483647 record_spec.ttl))
              (text "ttl: must be zero or between 60 and 2147483647")))))

abbrev pub want_family : Text → Text
want_family kind = if text_eq kind (text "AAAA") then text "ipv6" else text "ipv4"

module _ (codec : Codec) where
  validate_sources : Map Config.Source → Option Text
  unfolding check or_else within
  validate_sources [] = none
  validate_sources ((id, source) ∷ rest) =
      or_else (check (not (valid_id id)) (text "sources." ++ (id ++ text ": invalid source ID"))) (
        or_else (within (text "sources." ++ (id ++ text ": ")) (validate_source codec source))
          (validate_sources rest))

  -- The source of a record exists and has the family of the record's type.
  source_error : Text → Config.Record → Option Config.Source → Option Text
  unfolding check
  source_error id record_spec none = some (
      text "records."
      ++ (id
          ++ (text ".source: source "
              ++ (codec.quote record_spec.source ++ text " does not exist"))))
  source_error id record_spec (some source) =
      check (not (text_eq source.family (want_family record_spec.kind))) (
        text "records."
        ++ (id
            ++ (text ".source: "
                ++ (record_spec.kind
                    ++ (text " record requires an "
                        ++ (want_family record_spec.kind ++ text " source"))))))

  validate_records : Map Config.Source → Map Config.Record → Option Text
  unfolding check or_else within source_error
  validate_records sources [] = none
  validate_records sources ((id, record_spec) ∷ rest) =
      or_else (check (not (valid_id id)) (text "records." ++ (id ++ text ": invalid record ID"))) (
        or_else (within (text "records." ++ (id ++ text ": ")) (validate_record record_spec)) (
          or_else (source_error id record_spec (lookup record_spec.source sources))
            (validate_records sources rest)))

  -- `Validate`: the first error in the order in which Go walks the maps, if there is one.
  unfoldable pub validate : Config → Option Text
  unfolding check or_else validate_sources validate_records
  validate cfg =
      or_else (check (length cfg.sources == 0) (text "sources: at least one source is required")) (
        or_else (check (length cfg.records == 0) (text "records: at least one record is required"))
          (or_else (validate_sources cfg.sources) (validate_records cfg.sources cfg.records)))
