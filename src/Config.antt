-- ===== src/Config.antt =====
-- internal/config/config.go: the configuration that the other parts read. A map of the JSON is a
-- list of entries, in one of the orders in which Go may walk it.
pub mod Names
pub mod Validate
pub mod Token
pub mod Json
pub mod Decode
pub mod Parse
use hetdns.Prelude.{ℕ, Bool, true, Option, none, some, List}
use hetdns.Prelude.Int.{ℤ}
use hetdns.Prelude.Text.{Text}
use hetdns.Prelude.Map.{Map}

pub record Source : Type 0 where
  pub kind : Text
  pub family : Text
  pub url : Text
  pub argv : List Text
  pub timeout : ℤ
  pub user_agent : Option Text
  pub allow_non_public : Bool
  pub allow_insecure_http : Bool
  pub allow_private_networks : Bool

pub record Record : Type 0 where
  pub zone : Text
  pub name : Text
  pub kind : Text
  pub source : Text
  pub ttl : ℕ
  pub create : Option Bool
  pub replace_all : Bool

pub record Config : Type 0 where
  pub sources : Map Source
  pub records : Map Record

abbrev may_create_of : Option Bool → Bool
may_create_of none = true
may_create_of (some create) = create

-- `MayCreate`: a missing RRset may be created unless the record says otherwise.
unfoldable pub may_create : Record → Bool
may_create r = may_create_of r.create
