-- ===== src/BuildInfo.antt =====
-- internal/buildinfo/buildinfo.go: what identifies a built binary.
use hetdns.Prelude.{if◌then◌else◌}
use hetdns.Prelude.Text.{Text, text, text_eq}

pub record Info : Type 0 where
  pub version : Text
  pub commit : Text
  pub date : Text

-- `New`: development defaults for what the build did not set.
pub new_info : Text → Text → Text → Info
new_info version commit date = record {
  version = if text_eq version (text "") then text "dev" else version;
  commit = if text_eq commit (text "") then text "unknown" else commit;
  date = if text_eq date (text "") then text "unknown" else date;
}
