-- ===== src/Limits/Retention/Purge.antt =====
-- What a purge run may delete, and what it adds up.
use gopnique.Base.{
  ℕ, ◌+◌, ◌*◌, length, ◌≤◌, ◌≡◌, refl, sym, ap, ◌∙◌, arith, Bool, true, false, List, [], ◌∷◌, ◌++◌,
  append_assoc, append-nil, if◌then◌else◌, some, map, inl, inr,
}
use gopnique.Base.Int.{◌≤ℤ◌, sub_ℕ}
use gopnique.Base.Action.{Action, ◌>>=◌, >>=-eq-ok, lift, return_}
use gopnique.Base.Result.{Result, ok, err, Result-cases}
use gopnique.Limits.Retention.{
  Policy, Command, ProjectPurgePlan, PurgeResult, Summary, cutoff, normalize_command,
  normalize_policy, plan_policy, plan_with, plan_project_purge, add_purge_result, one_more_project,
  no_summary, purge_policy, purge_policies, run_policies,
}

cutoff-anti : (now d e : ℕ) → d ≤ e → cutoff now e ≤ℤ cutoff now d
unfolding cutoff
cutoff-anti now d e h = ground arith

cutoff-days : (now d : ℕ) → cutoff now d ≡ sub_ℕ now (86400 * d)
unfolding cutoff
cutoff-days now d = ap (sub_ℕ now) (omega arith)

cutoff-day : (now d : ℕ) → 1 ≤ d → cutoff now d ≤ℤ sub_ℕ now 86400
unfolding cutoff
cutoff-day now d h = cutoff-anti now 1 d h

normalize_policy-ok :
    (policy checked : Policy)
    → normalize_policy policy ≡ ok checked
    → (checked ≡ policy)
      × (1 ≤ policy.payload_retention_days)
      × (1 ≤ policy.delivery_retention_days)
      × (1 ≤ policy.user_report_retention_days)
      × (policy.payload_retention_days ≤ policy.event_retention_days)
      × (policy.delivery_retention_days ≤ policy.event_retention_days)
unfolding normalize_policy
normalize_policy-ok policy checked h = ground arith

plan_with-ok :
    (policy : Policy) (command : Command) (now : ℕ) (plan : ProjectPurgePlan)
    → command.now ≡ some now
    → plan_policy command (ok policy) ≡ ok plan
    → (1 ≤ command.batch_size) × (plan ≡ plan_with (now, command.batch_size) policy)
unfolding normalize_command
plan_with-ok policy command now plan hn h = ground arith

-- A plan that is made lies in the past and in order: each cutoff is as many days of 86400 seconds
-- before now as the policy keeps that kind of data, which is a day at least, and events are kept at
-- least as long as their payloads and deliveries.
pub plan_project_purge-ok :
    (policy : Policy) (command : Command) (now : ℕ) (plan : ProjectPurgePlan)
    → command.now ≡ some now
    → plan_project_purge policy command ≡ ok plan
    → (plan.scope ≡ policy.scope)
      × (1 ≤ plan.batch_size)
      × (plan.event_cutoff ≡ sub_ℕ now (86400 * policy.event_retention_days))
      × (plan.payload_cutoff ≡ sub_ℕ now (86400 * policy.payload_retention_days))
      × (plan.delivery_cutoff ≡ sub_ℕ now (86400 * policy.delivery_retention_days))
      × (plan.user_report_cutoff ≡ sub_ℕ now (86400 * policy.user_report_retention_days))
      × (plan.event_cutoff ≤ℤ plan.payload_cutoff)
      × (plan.event_cutoff ≤ℤ plan.delivery_cutoff)
      × (plan.payload_cutoff ≤ℤ sub_ℕ now 86400)
      × (plan.delivery_cutoff ≤ℤ sub_ℕ now 86400)
      × (plan.user_report_cutoff ≤ℤ sub_ℕ now 86400)
unfolding plan_project_purge
plan_project_purge-ok policy command now plan hn h = elim (Result-cases (normalize_policy policy)) [
  | inr (e, g) ↦ absurd (cc (rw g at h))
  | inl (checked, g) ↦
      let (same, payload, delivery, report, a, b) = normalize_policy-ok policy checked g in
      let (batch, made) = plan_with-ok policy command now plan hn (rw same at (rw g at h)) in
      rw made (
        refl,
        batch,
        cutoff-days now _,
        cutoff-days now _,
        cutoff-days now _,
        cutoff-days now _,
        cutoff-anti now _ _ a,
        cutoff-anti now _ _ b,
        cutoff-day now _ payload,
        cutoff-day now _ delivery,
        cutoff-day now _ report,
      )
]

-- The plans of the enabled policies, in order.
abbrev pub plans_of : Command → List Policy → List (Result ProjectPurgePlan)
plans_of command [] = []
plans_of command (policy ∷ policies) =
    let rest = plans_of command policies in
    if policy.enabled then plan_project_purge policy command ∷ rest else rest

abbrev pub Log : Type 0
Log = List (ProjectPurgePlan × PurgeResult)

-- What the purges of a log add up to.
abbrev pub totals : Summary → Log → Summary
totals summary [] = summary
totals summary ((plan, purged) ∷ log) =
    totals (one_more_project (add_purge_result summary purged)) log

-- one number of every purge of a log, added up
abbrev pub sum_of : (PurgeResult → ℕ) → Log → ℕ
sum_of count [] = 0
sum_of count ((plan, purged) ∷ log) = count purged + sum_of count log

-- `final` counts the purges of the log on top of `summary`, and each of their numbers.
pub record IsSum (summary final : Summary) (log : Log) : Type 0 where
  pub projects : final.projects_processed ≡ summary.projects_processed + length log
  pub events : final.events_deleted ≡ summary.events_deleted + sum_of (λ r. r.events_deleted) log
  pub log_records :
      final.log_records_deleted
      ≡ summary.log_records_deleted + sum_of (λ r. r.log_records_deleted) log
  pub payloads :
      final.payloads_cleared ≡ summary.payloads_cleared + sum_of (λ r. r.payloads_cleared) log
  pub deliveries :
      final.delivery_rows_deleted
      ≡ summary.delivery_rows_deleted + sum_of (λ r. r.delivery_rows_deleted) log
  pub reports :
      final.user_reports_deleted
      ≡ summary.user_reports_deleted + sum_of (λ r. r.user_reports_deleted) log
  pub issues : final.issues_deleted ≡ summary.issues_deleted + sum_of (λ r. r.issues_deleted) log
  pub stats :
      final.stats_rows_deleted ≡ summary.stats_rows_deleted + sum_of (λ r. r.stats_rows_deleted) log

totals-IsSum : (summary : Summary) (log : Log) → IsSum summary (totals summary log) log
unfolding add_purge_result
totals-IsSum summary [] = record {
  projects = omega arith;
  events = omega arith;
  log_records = omega arith;
  payloads = omega arith;
  deliveries = omega arith;
  reports = omega arith;
  issues = omega arith;
  stats = omega arith;
}
totals-IsSum summary ((plan, purged) ∷ log) =
    let ih = totals-IsSum (one_more_project (add_purge_result summary purged)) log in
    record {
      projects = omega (arith, ih.projects);
      events = omega (arith, ih.events);
      log_records = omega (arith, ih.log_records);
      payloads = omega (arith, ih.payloads);
      deliveries = omega (arith, ih.deliveries);
      reports = omega (arith, ih.reports);
      issues = omega (arith, ih.issues);
      stats = omega (arith, ih.stats);
    }

module _ {S : Type 0} (purge : ProjectPurgePlan → Action S PurgeResult) where
  abbrev with_log : ProjectPurgePlan → Log → Result PurgeResult × S → Result PurgeResult × (Log × S)
  with_log plan log (ok purged, s) = (ok purged, (log ++ (plan, purged) ∷ [], s))
  with_log plan log (err e, s) = (err e, (log, s))

  -- the store with a log of its purges
  abbrev pub logged_purge : ProjectPurgePlan → Action (Log × S) PurgeResult
  logged_purge plan (log, s) = with_log plan log (purge plan s)

  logged_purge-inv :
      (plan : ProjectPurgePlan) (m t : Log × S) (purged : PurgeResult)
      → logged_purge plan m ≡ (ok purged, t)
      → t.0 ≡ m.0 ++ (plan, purged) ∷ []
  logged_purge-inv plan m t purged h = inverted (purge plan m.1) h
    where
      inverted :
          (r : Result PurgeResult × S)
          → with_log plan m.0 r ≡ (ok purged, t)
          → t.0 ≡ m.0 ++ (plan, purged) ∷ []
      inverted (ok b, u) g = cc g
      inverted (err e, u) g = cc g

  -- the entries that a run adds to its log
  abbrev IsRun : Command → List Policy → Summary → Log → Summary → Log → Type 0
  IsRun command policies summary log final log' =
      (added : Log) × (log' ≡ log ++ added)
      × (map (λ e. ok e.0) added ≡ plans_of command policies)
      × (final ≡ totals summary added)

  -- one turn of the loop, with the policy switched on or off, before the rest of a run
  turn-IsRun :
      (enabled : Bool) (command : Command) (policy : Policy) (policies : List Policy)
      (summary next final : Summary) (m m1 : Log × S) (log : Log)
      → (if enabled
            then lift (plan_project_purge policy command) >>= (λ plan.
              logged_purge plan
              >>= (λ purged. return_ (one_more_project (add_purge_result summary purged))))
            else return_ summary)
          m
        ≡ (ok next, m1)
      → IsRun command policies next m1.0 final log
      → (added : Log) × (log ≡ m.0 ++ added)
        × (map (λ e. ok e.0) added ≡ (
            if enabled
            then plan_project_purge policy command ∷ plans_of command policies
            else plans_of command policies))
        × (final ≡ totals summary added)
  turn-IsRun false command policy policies summary next final m m1 log h (added, l, p, q) =
      let same : next ≡ summary = ground arith in (added, rw (ap (λ r. r.1) h) l, p, rw (← same) q)
  turn-IsRun true command policy policies summary next final m m1 log h (added, l, p, q) =
      let (plan, m2, e2, h2) = >>=-eq-ok (lift (plan_project_purge policy command)) _ m h in
      let (purged, m3, e3, h3) = >>=-eq-ok (logged_purge plan) _ m2 h2 in
      let at_ : m1 ≡ m3 = sym (ap (λ r. r.1) h3) in
      let same : next ≡ one_more_project (add_purge_result summary purged) = ground (arith, h3) in
      let planned : plan_project_purge policy command ≡ ok plan = ap (λ r. r.0) e2 in
      let entry =
        logged_purge-inv plan m2 m3 purged e3
        ∙ ap (λ r. r.0 ++ (plan, purged) ∷ []) (sym (ap (λ r. r.1) e2)) in
      (
        (plan, purged) ∷ added,
        l
            ∙ ap (λ r. r.0 ++ added) at_
            ∙ ap (λ k. k ++ added) entry
            ∙ append_assoc m.0 ((plan, purged) ∷ []) added,
        rw planned (ap (λ k. ok plan ∷ k) p),
        q ∙ ap (λ k. totals k added) same,
      )

  purge_policies-IsRun :
      (command : Command) (policies : List Policy) (summary final : Summary) (m t : Log × S)
      → purge_policies logged_purge command summary policies m ≡ (ok final, t)
      → IsRun command policies summary m.0 final t.0
  unfolding purge_policies purge_policy
  purge_policies-IsRun command [] summary final m t h =
      ([], ap (λ p. p.1.0) (sym h) ∙ sym (append-nil m.0), refl, ground arith)
  purge_policies-IsRun command (policy ∷ policies) summary final m t h =
      let (next, m1, e1, h1) = >>=-eq-ok (purge_policy logged_purge command policy summary) _ m h in
      turn-IsRun policy.enabled command policy policies summary next final m m1 t.0 e1
        (purge_policies-IsRun command policies next final m1 t h1)

  -- A run that comes to its end has purged by the plans of the enabled policies, in order and each
  -- once; its summary counts those purges and holds, for every kind of row, the sum of the numbers
  -- that they deleted.
  pub run_policies-totals :
      (command : Command) (policies : List Policy) (summary : Summary) (s t : S) (log : Log)
      → run_policies logged_purge command policies ([], s) ≡ (ok summary, (log, t))
      → (map (λ e. ok e.0) log ≡ plans_of command policies) × IsSum no_summary summary log
  unfolding run_policies
  run_policies-totals command policies summary s t log h =
      let (added, l, p, q) =
        purge_policies-IsRun command policies no_summary summary ([], s) (log, t) h in
      (rw l p, rw l (rw q (totals-IsSum no_summary added)))
