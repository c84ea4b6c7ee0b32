-- ===== src/Ingest/Workflow.antt =====
-- internal/app/ingest (ports.go, workflow.go) and internal/plans/ingestplan/plan.go: the program that
-- takes in one event, on the ports of a store whose state is `S`, and `Store.Run` around it.
pub mod Log
pub mod Calls
use gopnique.Base.{ℕ, Bool, true, false, not, [], is_empty, if◌then◌else◌}
use gopnique.Base.Action.{Action, ◌>>=◌, return_, lift}
use gopnique.Base.Result.{Result, ok, err}
use gopnique.Base.Text.{Text, codes}
use gopnique.Domain.Event.{CanonicalEvent, Fingerprint, creates_issue}

pub record AcceptedEvent : Type 0 where
  pub event : CanonicalEvent
  pub fingerprint : Fingerprint

pub record IssuePlan : Type 0 where
  pub event : AcceptedEvent

unfoldable pub new_accepted_event : CanonicalEvent → Fingerprint → Result AcceptedEvent
new_accepted_event event fingerprint =
    if is_empty fingerprint.value
    then err "fingerprint is required"
    else ok (record { event = event; fingerprint = fingerprint })

unfoldable pub new_issue_plan : AcceptedEvent → Result IssuePlan
new_issue_plan accepted =
    if creates_issue accepted.event.kind
    then ok (record { event = accepted })
    else err "event does not create issue"

pub record EventAppendResult : Type 0 where
  pub duplicate : Bool

pub record IssueChange : Type 0 where
  pub issue_id : Text
  pub created : Bool

pub record IssueOpenedEnqueueResult : Type 0 where
  pub count : ℕ

pub record QuotaDecision : Type 0 where
  pub allowed : Bool
  pub reason : Text

abbrev pub new_quota_allowed : QuotaDecision
new_quota_allowed = record { allowed = true; reason = [] }

abbrev pub new_quota_rejected : Text → QuotaDecision
new_quota_rejected reason = record {
  allowed = false;
  reason = if is_empty reason then codes "quota_exceeded" else reason;
}

pub data ReceiptKind : Type 0 where
  accepted_issue_event : ReceiptKind
  accepted_non_issue_event : ReceiptKind
  duplicate_event : ReceiptKind
  quota_rejected : ReceiptKind

pub record IngestReceipt : Type 0 where
  pub kind : ReceiptKind
  pub event_id : Text
  pub fingerprint : Fingerprint
  pub issue_id : Text
  pub has_issue_id : Bool
  pub reason : Text

abbrev pub duplicate_receipt : AcceptedEvent → IngestReceipt
duplicate_receipt accepted = record {
  kind = duplicate_event;
  event_id = accepted.event.event_id;
  fingerprint = accepted.fingerprint;
  issue_id = [];
  has_issue_id = false;
  reason = [];
}

abbrev pub quota_receipt : AcceptedEvent → QuotaDecision → IngestReceipt
quota_receipt accepted quota = record {
  kind = quota_rejected;
  event_id = accepted.event.event_id;
  fingerprint = accepted.fingerprint;
  issue_id = [];
  has_issue_id = false;
  reason = quota.reason;
}

abbrev pub non_issue_receipt : AcceptedEvent → IngestReceipt
non_issue_receipt accepted = record {
  kind = accepted_non_issue_event;
  event_id = accepted.event.event_id;
  fingerprint = accepted.fingerprint;
  issue_id = [];
  has_issue_id = false;
  reason = [];
}

abbrev pub issue_receipt : AcceptedEvent → IssueChange → IngestReceipt
issue_receipt accepted change = record {
  kind = accepted_issue_event;
  event_id = accepted.event.event_id;
  fingerprint = accepted.fingerprint;
  issue_id = change.issue_id;
  has_issue_id = true;
  reason = [];
}

-- the ports of a transaction, `TransactionalIngestPorts`
pub record Ports (S : Type 0) : Type 0 where
  pub exists_ : Text → Text → Action S Bool
  pub append : AcceptedEvent → Action S EventAppendResult
  pub check_quota : CanonicalEvent → Action S QuotaDecision
  pub apply : IssuePlan → Action S IssueChange
  pub enqueue_issue_opened : AcceptedEvent → IssueChange → Action S IssueOpenedEnqueueResult

abbrev pub AppendEffect : Type 0 → Type 0
AppendEffect S = AcceptedEvent → Action S (Unit {0})

module _ {S : Type 0} where
  abbrev pub no_append_effect : AppendEffect S
  no_append_effect accepted = return_ tt

  -- behind the change of the issue
  unfoldable pub finish_issue : Ports S → AcceptedEvent → IssueChange → Action S IngestReceipt
  finish_issue ports accepted change =
      if is_empty change.issue_id
      then lift (err "issue id is required")
      else if change.created
      then (do
        _ ← ports.enqueue_issue_opened accepted change
        return_ (issue_receipt accepted change))
      else return_ (issue_receipt accepted change)

  -- from the issue plan on
  unfoldable pub index_issue : Ports S → AcceptedEvent → Action S IngestReceipt
  index_issue ports accepted = do
    plan ← lift (new_issue_plan accepted)
    change ← ports.apply plan
    finish_issue ports accepted change

  -- from the append on
  unfoldable pub store_event : Ports S → AppendEffect S → AcceptedEvent → Action S IngestReceipt
  store_event ports append_effect accepted = do
    append_state ← ports.append accepted
    if append_state.duplicate then return_ (duplicate_receipt accepted) else (do
      _ ← append_effect accepted
      if creates_issue accepted.event.kind
          then index_issue ports accepted
          else return_ (non_issue_receipt accepted))

  unfoldable pub ingest_program : Ports S → AppendEffect S → AcceptedEvent → Action S IngestReceipt
  ingest_program ports append_effect accepted = do
    exists_ ← ports.exists_ accepted.event.project_id accepted.event.event_id
    if exists_ then return_ (duplicate_receipt accepted) else (do
      quota ← ports.check_quota accepted.event
      if quota.allowed
          then store_event ports append_effect accepted
          else return_ (quota_receipt accepted quota))
