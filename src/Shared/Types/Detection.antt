-- ===== src/Shared/Types/Detection.antt =====
-- shared/types/src/lib.rs: the settings of the detection of anomalies, and its events.
use netsentry_sensor.Common.{ℕ, Bool, true, List, [], ◌∷◌}
use netsentry_sensor.Common.Text.{Text, codes}

pub record DetectionSettings : Type 0 where
  pub brute_force_threshold : ℕ
  pub brute_force_window_seconds : ℕ
  pub block_duration_hours : ℕ
  pub monitored_paths : List Text
  pub auto_block_enabled : Bool
  pub dns_enrichment_enabled : Bool
  pub updated_at : ℕ

unfoldable pub default_settings : (now : ℕ) → DetectionSettings
default_settings now = record {
  brute_force_threshold = 10;
  brute_force_window_seconds = 60;
  block_duration_hours = 1;
  monitored_paths =
      codes "/login"
      ∷ codes "/api/auth"
      ∷ codes "/api/login"
      ∷ codes "/admin"
      ∷ codes "/wp-admin"
      ∷ codes "/signin"
      ∷ [];
  auto_block_enabled = true;
  dns_enrichment_enabled = true;
  updated_at = now;
}

pub record DetectionEvent : Type 0 where
  pub id : Text
  pub src_ip : Text
  pub detected_pattern : Text
  pub path : Text
  pub request_count : ℕ
  pub window_seconds : ℕ
  pub triggered_block : Bool
  pub timestamp : ℕ
  pub dns_names : List Text

unfoldable pub new_event :
    (uuid : Text) (now : ℕ) (src_ip detected_pattern path : Text) (request_count window_seconds : ℕ)
    (triggered_block : Bool)
    → DetectionEvent
new_event uuid now src_ip detected_pattern path request_count window_seconds triggered_block =
    record {
      id = uuid;
      src_ip = src_ip;
      detected_pattern = detected_pattern;
      path = path;
      request_count = request_count;
      window_seconds = window_seconds;
      triggered_block = triggered_block;
      timestamp = now;
      dns_names = [];
    }
