-- ===== src/Uptime/Race.antt =====
-- A heartbeat timeout and a check-in for the same monitor.
use gopnique.Base.{ℕ, ◌+◌, ◌*◌, ◌≡◌, refl, ◌∙◌, ap, Bool-cases, inl, inr}
use gopnique.Base.Text.{Text}
use gopnique.Uptime.Monitor.{
  up, down, monitor_state_changed, Monitor, second, has_open, insert_monitor_check,
  update_monitor_after_check, update_heartbeat_after_check_in, ensure_open_monitor_incident,
  close_open_monitor_incident, record_heartbeat_check_in_in_tx, record_heartbeat_timeout_in_tx,
}
use gopnique.Uptime.Incidents.{check_in, timeout, record_one}

-- the row of a monitor is down, and its next check is at a time
abbrev pub DownUntil : ℕ → Monitor → Type 0
DownUntil time m = (m.current_state ≡ down) × (m.next_check_at ≡ time)

-- what a check-in leaves
abbrev pub UpUntil : ℕ → Monitor → Type 0
UpUntil time m = (m.current_state ≡ up) × (m.next_check_at ≡ time)

timeout-DownUntil :
    (incident_id check_id error : Text) (now : ℕ) (m : Monitor)
    → DownUntil
        (now + m.interval_seconds * second)
        (record_heartbeat_timeout_in_tx incident_id check_id now error m).1
unfolding record_heartbeat_timeout_in_tx update_monitor_after_check insert_monitor_check
    ensure_open_monitor_incident
timeout-DownUntil incident_id check_id error now m =
    elim (Bool-cases (monitor_state_changed m.current_state down)) [
      | inl e ↦ elim (Bool-cases (has_open m.incidents)) [
        | inl o ↦ rw e (rw o (refl, refl))
        | inr o ↦ rw e (rw o (refl, refl))
      ]
      | inr e ↦ rw e (refl, refl)
    ]

check_in-UpUntil :
    (check_id : Text) (now : ℕ) (m : Monitor)
    → UpUntil
        (now + (m.interval_seconds + m.heartbeat_grace_seconds) * second)
        (record_heartbeat_check_in_in_tx check_id now m).1
      × ((record_heartbeat_check_in_in_tx check_id now m).1.interval_seconds ≡ m.interval_seconds)
unfolding record_heartbeat_check_in_in_tx update_heartbeat_after_check_in insert_monitor_check
    close_open_monitor_incident
check_in-UpUntil check_id now m = elim (Bool-cases (monitor_state_changed m.current_state up)) [
  | inl e ↦ rw e ((refl, refl), refl)
  | inr e ↦ rw e ((refl, refl), refl)
]

-- A check-in takes a monitor up and puts its next check off by the interval and the grace. A timeout
-- that is recorded behind it takes the monitor down all the same, whenever it was claimed, and sets the
-- next check an interval after that claim.
pub check_in-timeout :
    (m : Monitor) (incident_id check_id next_id error : Text) (claimed_at checked_at : ℕ)
    → UpUntil
        (checked_at + (m.interval_seconds + m.heartbeat_grace_seconds) * second)
        (record_one (check_in check_id checked_at) m).1
      × DownUntil
          (claimed_at + m.interval_seconds * second)
          (record_one
            (timeout incident_id next_id claimed_at error)
            (record_one (check_in check_id checked_at) m).1).1
unfolding record_one
check_in-timeout m incident_id check_id next_id error claimed_at checked_at =
    let (is_up, same) = check_in-UpUntil check_id checked_at m in
    let after = (record_heartbeat_check_in_in_tx check_id checked_at m).1 in
    let (is_down, late) = timeout-DownUntil incident_id next_id error claimed_at after in
    (is_up, (is_down, late ∙ ap (λ n. claimed_at + n * second) same))
