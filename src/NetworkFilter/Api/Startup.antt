-- ===== src/NetworkFilter/Api/Startup.antt =====
-- network-filter/src/services/mod.rs, `restore_active_blocks`.
use netsentry_sensor.Common.{
  ℕ, ◌+◌, ◌*◌, ◌%◌, Option, none, some, List, [], ◌∷◌, unwrap_or, ◌>>=◌, u8_mod,
}
use mathlib.Core.Option
use netsentry_sensor.Common.Outcome.{Result, ok, err}
use netsentry_sensor.Common.Text.{Text}
use netsentry_sensor.NetworkFilter.Api.Documents.{PersistentBlockedIp, Database, is_active}
use netsentry_sensor.NetworkFilter.Blocking.{restore_blocked_ip}
use netsentry_sensor.NetworkFilter.Filter.{Times, BlockClock}
use netsentry_sensor.NetworkFilter.Firewall.{Machine}
use netsentry_sensor.NetworkFilter.State.{World}

-- The readings of the clock for one document: in place of a missing date, and those of the filter.
pub record RestoreClock : Type 0 where
  pub no_blocked_at : ℕ
  pub no_expires_at : ℕ
  pub block : BlockClock
  pub utc_later : ℕ

-- a date of the database in nanoseconds, or the time that stands in for it
abbrev pub date_or : ℕ → Option ℕ → ℕ
date_or now date = unwrap_or (Option.map (λ ms. ms * 1000000) date) now

module _ {K F : Type 0} (m : Machine K) (times : Times) where
  -- One document; a failure of the filter is only logged.
  unfoldable pub restore_document :
      RestoreClock → PersistentBlockedIp → World K F → Option (World K F)
  unfolding restore_blocked_ip
  restore_document c x w = do
    done ←
        restore_blocked_ip m times c.block c.utc_later x.ip x.reason (x.threat_level % u8_mod)
          x.source (date_or c.no_blocked_at x.blocked_at_dt)
          (date_or c.no_expires_at x.expires_at_dt) w
    some done.1

  -- The documents of the cursor, in order, from the `n`-th on.
  unfoldable pub restore_documents :
      (clock : ℕ → RestoreClock) (n : ℕ) → List PersistentBlockedIp → World K F → Option (World K F)
  unfolding restore_document
  restore_documents clock n [] w = some w
  restore_documents clock n (x ∷ xs) w = do
    w1 ← restore_document (clock n) x w
    restore_documents clock (n + 1) xs w1

  -- what the call returns once the documents are through
  abbrev pub finished : Option Text → World K F → Result (Unit {0}) Text × World K F
  finished none w = (ok tt, w)
  finished (some e) w = (err e, w)

  unfoldable pub restore_active_blocks :
      {D : Type 0}
      → Database D
      → (clock : ℕ → RestoreClock) → D
      → World K F
      → Option (Result (Unit {0}) Text × World K F)
  unfolding restore_documents
  restore_active_blocks db clock d w = elim (db.find is_active d) [
    | err e ↦ some (err e, w)
    | ok c ↦ do w1 ← restore_documents clock 0 c.documents w; some (finished c.failure w1)
  ]
