-- ===== src/Uptime/Summary.antt =====
-- The summaries of the check loops, for any store.
use gopnique.Base.{
  ℕ, ◌+◌, ◌≤◌, ◌≡◌, refl, sym, ◌∙◌, ap, subst, ◌&&◌, List, [], ◌∷◌, length, arith, ◌⊎◌, inl, inr,
  Bool-cases, leb, ltb,
}
use gopnique.Base.Action.{lift, >>=-eq-ok}
use gopnique.Base.Int.{ℤ, pos_part}
use gopnique.Base.Result.{Result, ok, err}
use gopnique.Outbound.{Net, Resolver, DestinationUrl, validate_resolved_destination}
use gopnique.Uptime.Monitor.{up, down, same_state, monitor_state_from_http_status, Observation}
use gopnique.Uptime.Checks.{
  CheckTarget, CheckDueCommand, CheckSummary, HttpProbeResult, CheckStore, normalize_limit, probed,
  resolved_check, check_http_monitor, count_observation, validate_check_inputs, empty_summary,
  check_targets, check_due_http_monitors,
}

-- A probe gives one of the states up and down.
from_status-seen :
    (n : ℕ) → (monitor_state_from_http_status n ≡ up) ⊎ (monitor_state_from_http_status n ≡ down)
unfolding monitor_state_from_http_status
from_status-seen n = elim (Bool-cases (leb 200 n && ltb n 400)) [
  | inl e ↦ inl (rw e refl)
  | inr e ↦ inr (rw e refl)
]

pub check_http_monitor-seen :
    (net : Net) (resolver : Resolver) (get : DestinationUrl → ℕ → Result HttpProbeResult) (now : ℕ)
    (target : CheckTarget)
    → ((check_http_monitor net resolver get now target).state ≡ up)
      ⊎ ((check_http_monitor net resolver get now target).state ≡ down)
unfolding check_http_monitor
check_http_monitor-seen net resolver get now target =
    by_resolved (validate_resolved_destination net resolver target.url)
  where
    by_probe :
        (r : Result HttpProbeResult) → ((probed now r).state ≡ up) ⊎ ((probed now r).state ≡ down)
    by_probe (err e) = inr refl
    by_probe (ok result) = from_status-seen result.status_code

    by_resolved :
        (r : Result DestinationUrl)
        → ((resolved_check get now target r).state ≡ up)
          ⊎ ((resolved_check get now target r).state ≡ down)
    by_resolved (err e) = inr refl
    by_resolved (ok resolved) = by_probe (get target.url target.timeout)

-- `n` more monitors were checked, each found up or down; a failure is one that is down
pub record Counts (n : ℕ) (before after : CheckSummary) : Type 0 where
  pub claimed : after.claimed ≡ before.claimed
  pub checked : after.checked ≡ before.checked + n
  pub states : after.up + after.down + before.checked ≡ before.up + before.down + after.checked

count_observation-Counts :
    (summary : CheckSummary) (observation : Observation)
    → (observation.state ≡ up) ⊎ (observation.state ≡ down)
    → Counts 1 summary (count_observation summary observation)
unfolding count_observation same_state
count_observation-Counts summary observation (inl e) = record {
  claimed = refl;
  checked = refl;
  states = rw e (omega arith);
}
count_observation-Counts summary observation (inr e) = record {
  claimed = refl;
  checked = refl;
  states = rw e (omega arith);
}

normalize_limit_bounds :
    (limit : ℤ) → (1 ≤ pos_part (normalize_limit limit)) × (pos_part (normalize_limit limit) ≤ 100)
unfolding normalize_limit
normalize_limit_bounds limit = ground arith

module _ {S : Type 0} (store : CheckStore S) where
  check_targets-Counts :
      (observe : CheckTarget → Observation)
      → ((target : CheckTarget) → ((observe target).state ≡ up) ⊎ ((observe target).state ≡ down))
      → (targets : List CheckTarget) (before after : CheckSummary) (s t : S)
      → check_targets store observe targets before s ≡ (ok after, t)
      → Counts (length targets) before after
  unfolding check_targets
  check_targets-Counts observe seen [] before after s t h =
      let same : before ≡ after = cc h in
      subst (Counts 0 before) same (record { claimed = refl; checked = omega arith; states = refl })
  check_targets-Counts observe seen (target ∷ targets) before after s t h =
      let observation = observe target in
      let (result, u, e, g) =
        >>=-eq-ok (store.record_http_monitor_check target.monitor_id observation) _ s h in
      let one = count_observation-Counts before observation (seen target) in
      let rest =
        check_targets-Counts observe seen targets (count_observation before observation) after u t
          g in
      record {
        claimed = rest.claimed ∙ one.claimed;
        checked = omega (arith, rest.checked, one.checked);
        states = omega (arith, rest.states, one.states, rest.checked, one.checked);
      }

  -- A run of the HTTP checks that comes to an end has checked every monitor that it claimed, and counted
  -- each as up or as down; it claims with a limit from 1 to 100.
  pub check_due_http_monitors-Counts :
      (net : Net) (resolver : Resolver) (get : DestinationUrl → ℕ → Result HttpProbeResult)
      (command : CheckDueCommand) (s t : S) (summary : CheckSummary)
      → check_due_http_monitors store net resolver get command s ≡ (ok summary, t)
      → (targets : List CheckTarget) × (u : S) × (store.claim_due_http_monitors command.now
            (normalize_limit command.limit)
            s
          ≡ (ok targets, u))
        × (summary.claimed ≡ length targets)
        × (summary.checked ≡ length targets)
        × (summary.up + summary.down ≡ length targets)
        × (1 ≤ pos_part (normalize_limit command.limit))
        × (pos_part (normalize_limit command.limit) ≤ 100)
  unfolding check_due_http_monitors
  check_due_http_monitors-Counts net resolver get command s t summary h =
      let (u, s1, e1, h1) = >>=-eq-ok (lift (validate_check_inputs resolver command)) _ s h in
      let (targets, s2, e2, h2) =
        >>=-eq-ok (store.claim_due_http_monitors command.now (normalize_limit command.limit)) _ s1
          h1 in
      let counts =
        check_targets-Counts (check_http_monitor net resolver get command.now)
          (check_http_monitor-seen net resolver get command.now) targets
          (empty_summary (length targets)) summary s2 t h2 in
      let unmoved : s1 ≡ s = sym (ap (λ p. p.1) e1) in
      let (least, most) = normalize_limit_bounds command.limit in
      (
        targets,
        s2,
        subst
            (λ v.
              store.claim_due_http_monitors command.now (normalize_limit command.limit) v
              ≡ (ok targets, s2))
            unmoved e2,
        counts.claimed,
        omega (arith, counts.checked),
        omega (arith, counts.states, counts.checked),
        least,
        most,
      )
