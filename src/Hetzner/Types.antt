-- ===== src/Hetzner/Types.antt =====
-- internal/hetzner/types.go: what the client takes and returns, and its errors.
use hetdns.Prelude.{ℕ, ◌++◌, Bool, ◌&&◌, Option, none, some, List, [], if◌then◌else◌}
use hetdns.Prelude.Int.{ℤ}
use hetdns.Prelude.Text.{Text, text, text_eq, decimal, decimal_ℤ}

pub record Record : Type 0 where
  pub id : Text
  pub zone : Text
  pub name : Text
  pub kind : Text
  pub ttl : ℕ
  pub create : Bool
  pub replace_all : Bool

-- `State`; `unset` is the empty string of a `Result` that comes with an error.
pub data State : Type 0 where
  unset unchanged updated created : State

abbrev pub state_text : State → Text
state_text unset = []
state_text unchanged = text "unchanged"
state_text updated = text "updated"
state_text created = text "created"

pub record Result : Type 0 where
  pub state : State
  pub observed : List Text
  pub action_id : ℤ

-- `apiError`, the error object of the wire format.
pub record ErrorBody : Type 0 where
  pub code : Text
  pub message : Text

pub record Action : Type 0 where
  pub id : ℤ
  pub status : Text
  pub failure : Option ErrorBody

-- `APIError`.
pub record ApiError : Type 0 where
  pub status : ℕ
  pub code : Text
  pub message : Text
  pub retry_after : ℤ

-- The errors that the client returns. `plain` is a message by `errors.New` or `fmt.Errorf`,
-- `cancelled` is `ctx.Err()`, `waiting` wraps it for an action, and `unfinished` stands for a
-- polling loop that has used up the rounds that the model gives it.
pub data Error : Type 0 where
  plain : Text → Error
  cancelled : Text → Error
  waiting : ℤ → Text → Error
  api : ApiError → Error
  multi_value : ℕ → Error
  missing : Error
  unfinished : Error

-- `APIError.Error`.
abbrev api_text : ApiError → Text
api_text e =
    if text_eq e.code [] && text_eq e.message []
    then text "Hetzner API returned status " ++ decimal e.status
    else text "Hetzner API status "
      ++ (decimal e.status ++ (text " (" ++ (e.code ++ (text "): " ++ e.message))))

-- `Error()`.
unfoldable pub error_text : Error → Text
error_text (plain message) = message
error_text (cancelled reason) = reason
error_text (waiting id reason) =
    text "waiting for Hetzner action " ++ (decimal_ℤ id ++ (text ": " ++ reason))
error_text (api e) = api_text e
error_text (multi_value count) =
    text "RRset has " ++ (decimal count ++ text " values; set replace_all to allow replacement")
error_text missing = text "RRset does not exist and creation is disabled"
error_text unfinished = []

-- `errors.As(err, &apiError)`.
unfoldable pub as_api : Error → Option ApiError
as_api (api e) = some e
as_api _ = none

pub data Outcome (A : Type 0) : Type 0 where
  ok : A → Outcome A
  err : Error → Outcome A
