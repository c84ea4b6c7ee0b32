-- ===== src/Uptime/Incidents.antt =====
-- The incidents of a monitor over any run of checks, check-ins and timeouts.
use gopnique.Base.{
  ℕ, ◌+◌, ◌≡◌, refl, sym, ◌∙◌, ap, true, false, List, [], ◌∷◌, ◌++◌, All, arith, Bool-cases, inl,
  inr, ◌≤◌, ◌⊎◌, if◌then◌else◌,
}
use gopnique.Base.Text.{Text}
use gopnique.Uptime.Monitor.{
  MonitorState, unknown, up, down, same_state, monitor_state_changed, Observation, Incident,
  Monitor, CheckResult, transition_to, is_open, has_open, close_incident, close_all,
  insert_monitor_check, update_monitor_after_check, update_heartbeat_after_check_in,
  ensure_open_monitor_incident, close_open_monitor_incident, timeout_observation,
  apply_monitor_incident_transition, record_http_monitor_check_in_tx,
  record_heartbeat_check_in_in_tx, record_heartbeat_timeout_in_tx,
}

-- what can be recorded of a monitor, with the random identifiers
pub data Record : Type 0 where
  http_check : Text → Text → Observation → Record
  check_in : Text → ℕ → Record
  timeout : Text → Text → ℕ → Text → Record

unfoldable pub record_one : Record → Monitor → CheckResult × Monitor
record_one (http_check incident_id check_id observation) m =
    record_http_monitor_check_in_tx incident_id check_id observation m
record_one (check_in check_id checked_at) m = record_heartbeat_check_in_in_tx check_id checked_at m
record_one (timeout incident_id check_id checked_at error) m =
    record_heartbeat_timeout_in_tx incident_id check_id checked_at error m

unfoldable pub record_all : List Record → Monitor → Monitor
record_all [] m = m
record_all (r ∷ records) m = record_all records (record_one r m).1

unfoldable pub open_count : List Incident → ℕ
open_count [] = 0
open_count (i ∷ incidents) = (if is_open i then 1 else 0) + open_count incidents

abbrev pub is_down : MonitorState → ℕ
is_down unknown = 0
is_down up = 0
is_down down = 1

open_count-append :
    (a : List Incident) (i : Incident)
    → open_count (a ++ i ∷ []) ≡ open_count a + open_count (i ∷ [])
unfolding open_count
open_count-append [] i = omega arith
open_count-append (j ∷ a) i = ground (arith, open_count-append a i)

has_open-false : (a : List Incident) → has_open a ≡ false → open_count a ≡ 0
unfolding has_open open_count
has_open-false [] h = refl
has_open-false (i ∷ a) h = ground (arith, has_open-false a)

has_open-zero : (a : List Incident) → open_count a ≡ 0 → has_open a ≡ false
unfolding has_open open_count
has_open-zero [] h = refl
has_open-zero (i ∷ a) h = ground (arith, has_open-zero a)

is_open-close :
    (check_id : Text) (now : ℕ) (i : Incident) → is_open (close_incident check_id now i) ≡ false
is_open-close check_id now i = elim (Bool-cases (is_open i)) [ inl e ↦ rw e refl | inr e ↦ rw e e ]

open_count-close_all :
    (check_id : Text) (now : ℕ) (a : List Incident) → open_count (close_all check_id now a) ≡ 0
unfolding open_count close_all
open_count-close_all check_id now [] = refl
open_count-close_all check_id now (i ∷ a) =
    rw (is_open-close check_id now i) (omega (arith, open_count-close_all check_id now a))

-- One incident is open while the monitor is down, and none else.
abbrev pub IsConsistent : Monitor → Type 0
IsConsistent m = open_count m.incidents ≡ is_down m.current_state

-- Probes give the states up and down alone.
abbrev pub IsObserved : Record → Type 0
IsObserved (http_check incident_id check_id observation) =
    (observation.state ≡ up) ⊎ (observation.state ≡ down)
IsObserved (check_in check_id checked_at) = Unit
IsObserved (timeout incident_id check_id checked_at error) = Unit

has_open-true : (a : List Incident) → has_open a ≡ true → 1 ≤ open_count a
unfolding has_open open_count
has_open-true [] h = cc h
has_open-true (i ∷ a) h = ground (arith, has_open-true a)

is_down-le-one : (s : MonitorState) → is_down s ≤ 1
is_down-le-one unknown = omega arith
is_down-le-one up = omega arith
is_down-le-one down = omega arith

unchanged-eq : (a b : MonitorState) → monitor_state_changed a b ≡ false → a ≡ b
unfolding monitor_state_changed same_state
unchanged-eq unknown unknown h = refl
unchanged-eq unknown up h = cc h
unchanged-eq unknown down h = cc h
unchanged-eq up unknown h = cc h
unchanged-eq up up h = refl
unchanged-eq up down h = cc h
unchanged-eq down unknown h = cc h
unchanged-eq down up h = cc h
unchanged-eq down down h = refl

ensure-open_count :
    (incident_id check_id : Text) (observation : Observation) (m : Monitor)
    → open_count m.incidents ≤ 1
    → open_count (ensure_open_monitor_incident incident_id check_id observation m).1.incidents ≡ 1
unfolding open_count ensure_open_monitor_incident
ensure-open_count incident_id check_id observation m h = elim (Bool-cases (has_open m.incidents)) [
  | inl e ↦ rw e (omega (arith, has_open-true m.incidents e, h))
  | inr e ↦ rw e (open_count-append m.incidents _ ∙ ap (λ n. n + 1) (has_open-false m.incidents e))
]

ensure-current_state :
    (incident_id check_id : Text) (observation : Observation) (m : Monitor)
    → (ensure_open_monitor_incident incident_id check_id observation m).1.current_state
      ≡ m.current_state
unfolding ensure_open_monitor_incident
ensure-current_state incident_id check_id observation m = elim (Bool-cases (has_open m.incidents)) [
  | inl e ↦ rw e refl
  | inr e ↦ rw e refl
]

-- the transition to a state that was observed
transition_to-open_count :
    (s : MonitorState) (incident_id check_id : Text) (observation : Observation) (m : Monitor)
    → (s ≡ up) ⊎ (s ≡ down)
    → open_count m.incidents ≤ 1
    → (open_count (transition_to s incident_id check_id observation m).monitor.incidents
        ≡ is_down s)
      × ((transition_to s incident_id check_id observation m).monitor.current_state
          ≡ m.current_state)
unfolding close_open_monitor_incident
transition_to-open_count unknown incident_id check_id observation m (inl e) h = cc e
transition_to-open_count unknown incident_id check_id observation m (inr e) h = cc e
transition_to-open_count up incident_id check_id observation m o h =
    (open_count-close_all check_id observation.checked_at m.incidents, refl)
transition_to-open_count down incident_id check_id observation m o h = (
  ensure-open_count incident_id check_id observation m h,
  ensure-current_state incident_id check_id observation m,
)

module _ (m : Monitor) (consistent : IsConsistent m) where
  few : open_count m.incidents ≤ 1
  few = let bound = is_down-le-one m.current_state in omega (arith, consistent, bound)

  still :
      (s : MonitorState)
      → monitor_state_changed m.current_state s ≡ false
      → open_count m.incidents ≡ is_down s
  still s e = consistent ∙ ap is_down (unchanged-eq m.current_state s e)

  http_check-IsConsistent :
      (incident_id check_id : Text) (observation : Observation)
      → (observation.state ≡ up) ⊎ (observation.state ≡ down)
      → IsConsistent (record_http_monitor_check_in_tx incident_id check_id observation m).1
  unfolding record_http_monitor_check_in_tx apply_monitor_incident_transition
      update_monitor_after_check insert_monitor_check
  http_check-IsConsistent incident_id check_id observation seen =
      elim (Bool-cases (monitor_state_changed m.current_state observation.state)) [
        | inl e ↦
            let updated =
              update_monitor_after_check observation m.interval_seconds
                (insert_monitor_check check_id observation m) in
            let (counted, same) =
              transition_to-open_count observation.state incident_id check_id observation updated
                seen few in
            rw e (counted ∙ ap is_down (sym same))
        | inr e ↦ rw e (still observation.state e)
      ]

  check_in-IsConsistent :
      (check_id : Text) (checked_at : ℕ)
      → IsConsistent (record_heartbeat_check_in_in_tx check_id checked_at m).1
  unfolding record_heartbeat_check_in_in_tx close_open_monitor_incident
      update_heartbeat_after_check_in insert_monitor_check
  check_in-IsConsistent check_id checked_at =
      elim (Bool-cases (monitor_state_changed m.current_state up)) [
        | inl e ↦ rw e (open_count-close_all check_id checked_at m.incidents)
        | inr e ↦ rw e (still up e)
      ]

  timeout-IsConsistent :
      (incident_id check_id : Text) (checked_at : ℕ) (error : Text)
      → IsConsistent (record_heartbeat_timeout_in_tx incident_id check_id checked_at error m).1
  unfolding record_heartbeat_timeout_in_tx update_monitor_after_check insert_monitor_check
  timeout-IsConsistent incident_id check_id checked_at error =
      elim (Bool-cases (monitor_state_changed m.current_state down)) [
        | inl e ↦
            let observation = timeout_observation checked_at error in
            let updated =
              update_monitor_after_check observation m.interval_seconds
                (insert_monitor_check check_id observation m) in
            rw e (
              ensure-open_count incident_id check_id observation updated few
              ∙ ap is_down (sym (ensure-current_state incident_id check_id observation updated)))
        | inr e ↦ rw e (still down e)
      ]

  record_one-IsConsistent : (r : Record) → IsObserved r → IsConsistent (record_one r m).1
  unfolding record_one
  record_one-IsConsistent (http_check incident_id check_id observation) seen =
      http_check-IsConsistent incident_id check_id observation seen
  record_one-IsConsistent (check_in check_id checked_at) seen =
      check_in-IsConsistent check_id checked_at
  record_one-IsConsistent (timeout incident_id check_id checked_at error) seen =
      timeout-IsConsistent incident_id check_id checked_at error

-- Over any run of checks, check-ins and timeouts a monitor keeps exactly one open incident while it is
-- down and none while it is up or not known.
pub record_all-IsConsistent :
    (records : List Record) (m : Monitor)
    → All IsObserved records
    → IsConsistent m
    → IsConsistent (record_all records m)
unfolding record_all
record_all-IsConsistent [] m seen consistent = consistent
record_all-IsConsistent (r ∷ records) m seen consistent =
    record_all-IsConsistent records (record_one r m).1 seen.1
      (record_one-IsConsistent m consistent r seen.0)
