-- ===== src/Shared/Config/Loader.antt =====
-- src/shared/config/src/lib.rs, `loader` and `validator`: the loading of a configuration of any type, and
-- checks of single settings.
use netsentry_sensor.Common.{
  ℕ, Bool, ◌&&◌, not, Option, none, some, List, any, is_empty, ◌==◌, ◌++◌,
}
use netsentry_sensor.Common.Outcome.{Result, ok, err}
use netsentry_sensor.Common.Text.{Text, codes, starts_with, join}
use netsentry_sensor.Shared.Config.{Outside, Checked, ensure, when_valid}

unfoldable pub validate_url : Text → (schemes : List Text) → Checked
validate_url url schemes = ensure (not (is_empty url)) (codes "URL cannot be empty") (
    ensure (any (λ s. starts_with url s) schemes)
      (codes "URL must start with one of: " ++ join (codes ", ") schemes) (ok tt))

unfoldable pub validate_port : ℕ → Checked
validate_port port = ensure (not (port == 0)) (codes "Port cannot be 0") (ok tt)

unfoldable pub validate_mongodb_uri : Text → Checked
validate_mongodb_uri uri = ensure (not (is_empty uri)) (codes "MongoDB URI cannot be empty") (
    ensure
      (not (
        not (starts_with uri (codes "mongodb://"))
        && not (starts_with uri (codes "mongodb+srv://"))))
      (codes "MongoDB URI must start with mongodb:// or mongodb+srv://") (ok tt))

-- The flag only chooses what is logged.
unfoldable pub load_config :
    {C : Type 0}
    → (check : C → Checked) (default : C) → Outside C
    → (yaml_path : Option Text) (env_fallback : Bool) → Result C Text
load_config check default o none env_fallback = when_valid check default
load_config check default o (some path) env_fallback = elim (o.read_to_string path) [
  | err _ ↦ when_valid check default
  | ok content ↦ elim (o.from_str content) [
    | err _ ↦ err (codes "Failed to parse YAML configuration")
    | ok c ↦ when_valid check c
  ]
]
