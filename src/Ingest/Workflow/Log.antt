-- ===== src/Ingest/Workflow/Log.antt =====
-- Ports that keep a log of their calls, and the logs that the ingest program can leave.
use gopnique.Base.{◌≡◌, sym, subst, Bool, true, false, List, [], ◌∷◌, ◌++◌}
use gopnique.Base.Action.{Action}
use gopnique.Base.Result.{Result, ok, err}
use gopnique.Domain.Event.{creates_issue}
use gopnique.Ingest.Workflow.{
  AcceptedEvent, EventAppendResult, IssueChange, IngestReceipt, Ports, AppendEffect, QuotaDecision,
  issue_receipt, duplicate_receipt, quota_receipt, non_issue_receipt,
}

-- a call with its answer
pub data Call : Type 0 where
  call_exists : Bool → Call
  call_check_quota : QuotaDecision → Call
  call_append : EventAppendResult → Call
  call_append_effect : Call
  call_apply : IssueChange → Call
  call_enqueue_issue_opened : IssueChange → Call

-- the calls for an event that `exists` does not know, of a quota that lets it pass
abbrev pub stored_calls : QuotaDecision → EventAppendResult → List Call → List Call
stored_calls quota appended rest =
    call_exists false ∷ call_check_quota quota ∷ call_append appended ∷ rest

-- The receipt of an accepted event, and the calls behind it with the answers that led there.
pub data IsCallLog (accepted : AcceptedEvent) : IngestReceipt → List Call → Type 0 where
  known : IsCallLog accepted (duplicate_receipt accepted) (call_exists true ∷ [])
  over_quota :
      (quota : QuotaDecision)
      → quota.allowed ≡ false
      → IsCallLog accepted
          (quota_receipt accepted quota)
          (call_exists false ∷ call_check_quota quota ∷ [])
  appended_before :
      (quota : QuotaDecision) (appended : EventAppendResult)
      → quota.allowed ≡ true
      → appended.duplicate ≡ true
      → IsCallLog accepted (duplicate_receipt accepted) (stored_calls quota appended [])
  no_issue :
      (quota : QuotaDecision) (appended : EventAppendResult)
      → quota.allowed ≡ true
      → appended.duplicate ≡ false
      → creates_issue accepted.event.kind ≡ false
      → IsCallLog accepted
          (non_issue_receipt accepted)
          (stored_calls quota appended (call_append_effect ∷ []))
  issue_opened :
      (quota : QuotaDecision) (appended : EventAppendResult) (change : IssueChange)
      → quota.allowed ≡ true
      → appended.duplicate ≡ false
      → creates_issue accepted.event.kind ≡ true
      → change.created ≡ true
      → IsCallLog accepted (issue_receipt accepted change) (
          stored_calls quota appended
            (call_append_effect ∷ call_apply change ∷ call_enqueue_issue_opened change ∷ []))
  issue_seen :
      (quota : QuotaDecision) (appended : EventAppendResult) (change : IssueChange)
      → quota.allowed ≡ true
      → appended.duplicate ≡ false
      → creates_issue accepted.event.kind ≡ true
      → change.created ≡ false
      → IsCallLog accepted
          (issue_receipt accepted change)
          (stored_calls quota appended (call_append_effect ∷ call_apply change ∷ []))

pub IsCallLog-same :
    {accepted : AcceptedEvent} {r r' : IngestReceipt} {log log' : List Call}
    → r' ≡ r
    → log' ≡ log
    → IsCallLog accepted r log
    → IsCallLog accepted r' log'
IsCallLog-same {accepted} {r} {r'} {log} {log'} p q calls =
    subst (λ x. IsCallLog accepted x log') (sym p) (subst (IsCallLog accepted r) (sym q) calls)

module _ {S A : Type 0} where
  abbrev with_log : (A → Call) → List Call → Result A × S → Result A × (List Call × S)
  with_log name log (ok a, s) = (ok a, (log ++ name a ∷ [], s))
  with_log name log (err e, s) = (err e, (log, s))

  -- A call that is written to the log when it gives a value.
  abbrev pub logged : (A → Call) → Action S A → Action (List Call × S) A
  logged name action (log, s) = with_log name log (action s)

  pub logged-inv :
      (name : A → Call) (action : Action S A) (log : List Call) (s : S) (a : A) (t : List Call × S)
      → logged name action (log, s) ≡ (ok a, t)
      → t.0 ≡ log ++ name a ∷ []
  logged-inv name action log s a t h = inverted (action s) h
    where
      inverted : (r : Result A × S) → with_log name log r ≡ (ok a, t) → t.0 ≡ log ++ name a ∷ []
      inverted (ok b, u) g = cc g
      inverted (err e, u) g = cc g

module _ {S : Type 0} (ports : Ports S) (append_effect : AppendEffect S) where
  abbrev pub logged_ports : Ports (List Call × S)
  logged_ports = record {
    exists_ = λ project_id event_id. logged call_exists (ports.exists_ project_id event_id);
    append = λ accepted. logged call_append (ports.append accepted);
    check_quota = λ event. logged call_check_quota (ports.check_quota event);
    apply = λ plan. logged call_apply (ports.apply plan);
    enqueue_issue_opened = λ accepted change.
        logged (λ _. call_enqueue_issue_opened change) (ports.enqueue_issue_opened accepted change);
  }

  abbrev pub logged_effect : AppendEffect (List Call × S)
  logged_effect accepted = logged (λ _. call_append_effect) (append_effect accepted)
