-- ===== src/Telemetry/Rounds.antt =====
-- telemetry/src/services/mod.rs: what is sent to the cloud, and a round of `run_collection_loop`.
use netsentry_sensor.Common.{
  ℕ, ◌≡◌, ◌∙◌, Option, none, some, List, [], ◌∷◌, ◌++◌, map, is_empty, if◌then◌else◌, refl, ap, sym,
}
use mathlib.Core.List.{append-nil, append_assoc}
use netsentry_sensor.Common.Text.{Text, codes}
use netsentry_sensor.Telemetry.{SystemMetrics, Floats, Readings, collect}
use netsentry_sensor.Telemetry.Checker.{ThresholdAlert, check}

pub record AppState (F : Type 0) : Type 0 where
  pub latest_metrics : Option (SystemMetrics F)
  pub device_id : Text
  pub sensor_id : Text
  pub tenant_id : Text

-- the bodies of the requests
pub data Payload (F : Type 0) : Type 0 where
  one_alert : ThresholdAlert F → Payload F
  report :
      (sensor_id tenant_id device_id : Text) → SystemMetrics F → List (ThresholdAlert F) → Payload F

-- The network: `post` sends a payload to a URL, with a key where there is one. The answer is only logged.
pub record Pusher (F N : Type 0) : Type 0 where
  pub post : (url : Text) → Option Text → Payload F → N → N

module _ {F N : Type 0} (floats : Floats F) (lower : Text → Text) (pusher : Pusher F N)
    (vps_url api_key : Text) where
  abbrev pub key : Option Text
  key = if is_empty api_key then none else some api_key

  unfoldable pub push_alert : ThresholdAlert F → N → N
  push_alert a n = pusher.post (vps_url ++ codes "/api/telemetry/alert") key (Payload.one_alert a) n

  unfoldable pub push_alerts : List (ThresholdAlert F) → N → N
  unfolding push_alert
  push_alerts [] n = n
  push_alerts (a ∷ as') n = push_alerts as' (push_alert a n)

  unfoldable pub push :
      (sensor_id tenant_id device_id : Text) → SystemMetrics F → List (ThresholdAlert F) → N → N
  push sensor_id tenant_id device_id metrics alerts n =
      pusher.post (vps_url ++ codes "/api/telemetry") key
        (Payload.report sensor_id tenant_id device_id metrics alerts) n

  abbrev pub measured : (now : ℕ) → Readings F → AppState F → SystemMetrics F
  measured now r s = collect floats lower s.device_id now r

  abbrev pub alerts_of : (now checked_at : ℕ) → Readings F → AppState F → List (ThresholdAlert F)
  alerts_of now checked_at r s = check floats checked_at (measured now r s)

  -- one round: `now` is read by the collection, `checked_at` by the check
  unfoldable pub run_round : (now checked_at : ℕ) → Readings F → AppState F → N → AppState F × N
  unfolding push_alerts push
  run_round now checked_at r s n =
      let metrics = measured now r s in
      let alerts = alerts_of now checked_at r s in
      (
        record s { latest_metrics = some metrics },
        push s.sensor_id s.tenant_id s.device_id metrics alerts (push_alerts alerts n),
      )

  module _ (posted : N → List (Payload F))
      (records : (url : Text) (k : Option Text) (p : Payload F) (n : N)
        → posted (pusher.post url k p n) ≡ posted n ++ p ∷ []) where
    push_alerts-posted :
        (alerts : List (ThresholdAlert F)) (n : N)
        → posted (push_alerts alerts n) ≡ posted n ++ map (λ a. Payload.one_alert a) alerts
    unfolding push_alerts push_alert
    push_alerts-posted [] n = sym (append-nil (posted n))
    push_alerts-posted (a ∷ rest) n =
        push_alerts-posted rest (push_alert a n)
        ∙ ap (λ ps. ps ++ map (λ x. Payload.one_alert x) rest)
            (records (vps_url ++ codes "/api/telemetry/alert") key (Payload.one_alert a) n)
        ∙ append_assoc (posted n) (Payload.one_alert a ∷ []) (map (λ x. Payload.one_alert x) rest)

    -- Where a post is added to the record of posts, a round posts each alert on its own, in order, and then the
    -- report with all of them; the metrics of the round are kept whatever the answers.
    pub run_round-posted :
        (now checked_at : ℕ) (r : Readings F) (s : AppState F) (n : N)
        → ((run_round now checked_at r s n).0.latest_metrics ≡ some (measured now r s))
          × (posted (run_round now checked_at r s n).1
              ≡ (posted n ++ map (λ a. Payload.one_alert a) (alerts_of now checked_at r s))
                ++ Payload.report s.sensor_id s.tenant_id s.device_id
                    (measured now r s)
                    (alerts_of now checked_at r s)
                  ∷ [])
    unfolding run_round push
    run_round-posted now checked_at r s n =
        let metrics = measured now r s in
        let alerts = alerts_of now checked_at r s in
        let said = Payload.report s.sensor_id s.tenant_id s.device_id metrics alerts in
        (
          refl,
          records (vps_url ++ codes "/api/telemetry") key said (push_alerts alerts n)
              ∙ ap (λ ps. ps ++ said ∷ []) (push_alerts-posted alerts n),
        )
