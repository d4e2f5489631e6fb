-- ===== src/Collector/Monitor/Consistent.antt =====
-- The invariant of the connection monitor.
use netsentry_sensor.Common.{
  ℕ, ◌+◌, ◌≤◌, ◌%◌, ◌≡◌, refl, ◌⊎◌, inl, inr, Bool, true, false, none, List, [], ◌∷◌, arith, length,
  length-append, pop_front, if◌then◌else◌, is_some, u64_mod,
}
use netsentry_sensor.Common.Text.{codes, text_eq, text_eq_iff, text_eq_refl}
use netsentry_sensor.Collector.Monitor.{
  ConnectionMonitor, connected, disconnected, default_monitor, push_response, close_downtime,
  close_uptime, update_check,
}

-- In each phase one of the two starts is known.
abbrev pub IsUp : {F : Type 0} → ConnectionMonitor F → Type 0
IsUp m =
    (text_eq m.current_status connected ≡ true)
    × (is_some m.current_uptime_start ≡ true)
    × (m.current_downtime_start ≡ none)

abbrev pub IsDown : {F : Type 0} → ConnectionMonitor F → Type 0
IsDown m =
    (text_eq m.current_status disconnected ≡ true)
    × (is_some m.current_downtime_start ≡ true)
    × (m.current_uptime_start ≡ none)

-- Each check is counted once, as a success or as a failure, modulo the size of the counters; the
-- phase says which of the two starts is known; at most a hundred response times are kept.
pub record IsConsistent {F : Type 0} (m : ConnectionMonitor F) : Type 0 where
  pub counted : m.total_checks ≡ (m.successful_checks + m.failed_checks) % u64_mod
  pub phase : IsUp m ⊎ IsDown m
  pub bounded : length m.response_times ≤ 100

pub statuses_differ : text_eq connected disconnected ≡ false
unfolding text_eq codes
statuses_differ = refl

pub default_monitor-IsConsistent :
    {F : Type 0} (start down : ℕ) → IsConsistent (default_monitor {F = F} start down)
unfolding default_monitor
default_monitor-IsConsistent start down = record {
  counted = refl;
  phase = inr ((text_eq_iff disconnected disconnected).1 refl, refl, refl);
  bounded = omega arith;
}

length-pop_front : {A : Type 0} (xs : List A) → length (pop_front xs) ≤ length xs
length-pop_front [] = omega arith
length-pop_front (x ∷ xs) = omega arith

length-push_response :
    {A : Type 0} (x : A) (xs : List A) → length xs ≤ 100 → length (push_response x xs) ≤ 100
unfolding push_response
length-push_response x xs h =
    ground
      (arith, length-append (pop_front xs) (x ∷ []), length-append xs (x ∷ []), length-pop_front xs)

module _ {F : Type 0} (now : ℕ) (success : Bool) (t : F) (m : ConnectionMonitor F) where
  update_check-counted :
      m.total_checks ≡ (m.successful_checks + m.failed_checks) % u64_mod
      → (update_check now success t m).total_checks
        ≡ ((update_check now success t m).successful_checks
            + (update_check now success t m).failed_checks)
          % u64_mod
  unfolding update_check close_downtime close_uptime
  update_check-counted h = ground arith

  pub update_check-responses :
      (update_check now success t m).response_times ≡ push_response t m.response_times
  unfolding update_check close_downtime close_uptime
  update_check-responses = ground arith

module _ {F : Type 0} (now : ℕ) (t : F) (m : ConnectionMonitor F) where
  update_check-IsUp : IsUp m ⊎ IsDown m → IsUp (update_check now true t m)
  unfolding update_check close_downtime
  update_check-IsUp h = ground (
    arith,
    statuses_differ,
    text_eq_refl connected,
    text_eq_refl disconnected,
    text_eq_iff m.current_status connected,
    text_eq_iff m.current_status disconnected,
  )

  update_check-IsDown : IsUp m ⊎ IsDown m → IsDown (update_check now false t m)
  unfolding update_check close_uptime
  update_check-IsDown h = ground (
    arith,
    statuses_differ,
    text_eq_refl connected,
    text_eq_refl disconnected,
    text_eq_iff m.current_status connected,
    text_eq_iff m.current_status disconnected,
  )

  update_check-IsConsistent_case :
      (success : Bool)
      → (IsUp (update_check now success t m) ⊎ IsDown (update_check now success t m))
      → IsConsistent m
      → IsConsistent (update_check now success t m)
  update_check-IsConsistent_case success p h = record {
    counted = update_check-counted now success t m h.counted;
    phase = p;
    bounded =
        rw (update_check-responses now success t m)
          (length-push_response t m.response_times h.bounded);
  }

-- A check keeps the monitor consistent: after a success it is up, after a failure it is down.
pub update_check-IsConsistent :
    {F : Type 0} (now : ℕ) (success : Bool) (t : F) (m : ConnectionMonitor F)
    → IsConsistent m
    → IsConsistent (update_check now success t m)
      × (if success
          then IsUp (update_check now success t m)
          else IsDown (update_check now success t m))
update_check-IsConsistent now true t m h =
    let up = update_check-IsUp now t m h.phase in
    (update_check-IsConsistent_case now t m true (inl up) h, up)
update_check-IsConsistent now false t m h =
    let down = update_check-IsDown now t m h.phase in
    (update_check-IsConsistent_case now t m false (inr down) h, down)

-- A run of checks, each with its time, its outcome and its response time.
pub run_checks : {F : Type 0} → List (ℕ × Bool × F) → ConnectionMonitor F → ConnectionMonitor F
run_checks [] m = m
run_checks ((now, success, t) ∷ cs) m = run_checks cs (update_check now success t m)

-- The monitor is consistent after every run of checks from its start, whatever the clock does.
pub run_checks-IsConsistent :
    {F : Type 0} (cs : List (ℕ × Bool × F)) (start down : ℕ)
    → IsConsistent (run_checks cs (default_monitor start down))
unfolding run_checks
run_checks-IsConsistent cs start down = from cs _ (default_monitor-IsConsistent start down)
  where
    from :
        {F : Type 0} (cs : List (ℕ × Bool × F)) (m : ConnectionMonitor F)
        → IsConsistent m
        → IsConsistent (run_checks cs m)
    from [] m h = h
    from ((now, success, t) ∷ cs) m h =
        from cs (update_check now success t m) ((update_check-IsConsistent now success t m h).0)
