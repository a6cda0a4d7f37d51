-- ===== src/Status/State.antt =====
-- The data of internal/status/store.go, with Go's zero values.
use hetdns.Prelude.{ℕ, Bool, List, []}
use hetdns.Prelude.Int.{ℤ, pos}
use hetdns.Prelude.Text.{Text, text}
use hetdns.Prelude.Map.{Map}
use hetdns.BuildInfo.{Info}

pub record Scheduler : Type 0 where
  pub state : Text
  pub last_cycle_start : ℕ
  pub last_cycle_end : ℕ
  pub last_cycle_result : Text
  pub last_duration : ℤ
  pub next_cycle : ℕ
  pub cycle : ℕ

pub record Source : Type 0 where
  pub id : Text
  pub family : Text
  pub last_attempt : ℕ
  pub last_success : ℕ
  pub address : Text
  pub duration : ℤ
  pub error : Text

pub record Record : Type 0 where
  pub id : Text
  pub fqdn : Text
  pub kind : Text
  pub source : Text
  pub desired : Text
  pub observed : List Text
  pub state : Text
  pub last_check : ℕ
  pub last_change : ℕ
  pub next_retry : ℕ
  pub duration : ℤ
  pub error : Text

pub record Event : Type 0 where
  pub time : ℕ
  pub kind : Text
  pub id : Text
  pub message : Text

pub record Store : Type 0 where
  pub build : Info
  pub started : ℕ
  pub is_ready : Bool
  pub scheduler : Scheduler
  pub sources : Map Source
  pub records : Map Record
  pub source_order : List Text
  pub record_order : List Text
  pub events : List Event
  pub history_limit : ℕ

pub record Snapshot : Type 0 where
  pub build : Info
  pub start_time : ℕ
  pub uptime : Text
  pub overall : Text
  pub is_ready : Bool
  pub scheduler : Scheduler
  pub sources : List Source
  pub records : List Record
  pub events : List Event

-- Go's zero values, which a read of a missing key returns.
abbrev pub zero_source : Source
zero_source = record {
  id = [];
  family = [];
  last_attempt = 0;
  last_success = 0;
  address = [];
  duration = pos 0;
  error = [];
}

abbrev pub zero_record : Record
zero_record = record {
  id = [];
  fqdn = [];
  kind = [];
  source = [];
  desired = [];
  observed = [];
  state = [];
  last_check = 0;
  last_change = 0;
  next_retry = 0;
  duration = pos 0;
  error = [];
}

abbrev pub initial_scheduler : Scheduler
initial_scheduler = record {
  state = text "initializing";
  last_cycle_start = 0;
  last_cycle_end = 0;
  last_cycle_result = [];
  last_duration = pos 0;
  next_cycle = 0;
  cycle = 0;
}
