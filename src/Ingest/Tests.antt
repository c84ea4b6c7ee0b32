-- ===== src/Ingest/Tests.antt =====
-- A small database, two deliveries to it, and the theorems at them.
use gopnique.Base.{ℕ, suc, ◌≡◌, refl, true, false, List, [], ◌∷◌}
use gopnique.Base.Result.{Result, ok}
use gopnique.Base.Text.{
  Text, codes, text_eq, join, trim_space, trim_left, trim_right, is_space, to_lower,
}
use gopnique.Domain.Event.{CanonicalEvent, error_kind, creates_issue, new_fingerprint, Fingerprint}
use gopnique.Ingest.Grouping.{expand_default, source_for, canonical_string, compute_fingerprint}
use gopnique.Ingest.Workflow.{
  AcceptedEvent, IngestReceipt, Ports, AppendEffect, no_append_effect, new_quota_allowed,
  new_accepted_event, new_issue_plan, issue_receipt, finish_issue, index_issue, store_event,
  ingest_program, IssueChange,
}
use gopnique.Ingest.Workflow.Log.{
  Call, call_append_effect, call_apply, call_enqueue_issue_opened, stored_calls, IsCallLog,
  logged_ports, logged_effect,
}
use gopnique.Ingest.Workflow.Calls.{ingest_program-calls}
use gopnique.Ingest.Transaction.{Pool, run, ingest_canonical_event}
use gopnique.Ingest.TxStore.{
  Database, EventRow, Statements, has_event, tx_effect, tx_exists, insert_event, append_details,
  tx_append, tx_store,
}

-- a database that counts what is written to its other tables
abbrev statements : Statements ℕ
statements = record {
  scan_exists = λ p e db. ok tt;
  exec_append = λ row_id accepted db. ok tt;
  random_uuid = λ db. ok (codes "row");
  canonical_payload_json = λ accepted. ok accepted.event.title;
  upsert_project_hourly_stats = λ events event n. (ok tt, suc n);
  insert_event_tags = λ events row_id event n. (ok tt, suc n);
  insert_transaction_event = λ events row_id event n. (ok tt, n);
  check_quota = λ events event n. (ok new_quota_allowed, n);
  apply = λ events plan n. (ok (record { issue_id = codes "issue-1"; created = true }), suc n);
  enqueue_issue_opened = λ events accepted change n. (ok (record { count = 1 }), suc n);
}

abbrev ports : Ports (Database ℕ)
ports = tx_store statements

abbrev no_effect : List EventRow → AppendEffect ℕ
no_effect events accepted n = (ok tt, n)

abbrev memory_pool : Pool (Database ℕ)
memory_pool = record { begin_tx = λ s. ok s; commit = λ s work. (ok tt, work) }

abbrev crash : CanonicalEvent
crash = record {
  organization_id = codes "org";
  project_id = codes "web";
  event_id = codes "e1";
  kind = error_kind;
  level = codes "error";
  title = codes "boom";
  platform = codes "go";
  default_grouping_parts = codes "boom" ∷ codes "main" ∷ [];
  explicit_fingerprint = codes " {{ default }} " ∷ codes "v2" ∷ [];
}

-- the same identifiers, other content
abbrev crash_again : CanonicalEvent
crash_again = record {
  organization_id = codes "org";
  project_id = codes "web";
  event_id = codes "e1";
  kind = error_kind;
  level = codes "error";
  title = codes "bang";
  platform = codes "go";
  default_grouping_parts = [];
  explicit_fingerprint = [];
}

abbrev marshal : List Text → Result Text
marshal parts = ok (join b',' parts)

abbrev sha256_hex : Text → Text
sha256_hex s = codes "0123456789abcdef0123456789abcdef0123456789abcdef0123456789abcdef"

abbrev print : Fingerprint
print = record { algorithm = codes "grouping-v0"; value = sha256_hex [] }

abbrev accepted_crash : AcceptedEvent
accepted_crash = record { event = crash; fingerprint = print }

abbrev crash_change : IssueChange
crash_change = record { issue_id = codes "issue-1"; created = true }

abbrev empty : Database ℕ
empty = record { events = []; rest = 0 }

abbrev stored : Database ℕ
stored = record {
  events =
      record { id_ = codes "row"; accepted = accepted_crash; canonical_payload = codes "boom" }
      ∷ [];
  rest = 4;
}

running : Unit {0}
unfolding expand_default text_eq join trim_space trim_left trim_right is_space to_lower
    creates_issue new_fingerprint source_for canonical_string compute_fingerprint new_accepted_event
    new_issue_plan finish_issue index_issue store_event ingest_program run ingest_canonical_event
    has_event tx_exists insert_event append_details tx_append
running = tt

abbrev deliver : CanonicalEvent → Database ℕ → Result IngestReceipt × Database ℕ
deliver = ingest_canonical_event memory_pool marshal (λ c. c) sha256_hex ports (tx_effect no_effect)

canonical_string-crash :
    canonical_string marshal crash
    ≡ ok (codes "grouping-v0\nproject:web\nkind:error\nsource:explicit\nparts:boom,main,v2")
unfolding running
canonical_string-crash = refl

abbrev crash_calls : List Call
crash_calls =
    stored_calls new_quota_allowed (record { duplicate = false })
      (call_append_effect ∷ call_apply crash_change ∷ call_enqueue_issue_opened crash_change ∷ [])

crash-calls :
    ingest_program
      (logged_ports ports no_append_effect)
      (logged_effect ports no_append_effect)
      accepted_crash
      ([], empty)
    ≡ (ok (issue_receipt accepted_crash crash_change), (crash_calls, stored))
unfolding running
crash-calls = refl

ingest_program-calls_example :
    IsCallLog accepted_crash (issue_receipt accepted_crash crash_change) crash_calls
ingest_program-calls_example =
    ingest_program-calls ports no_append_effect accepted_crash empty
      (issue_receipt accepted_crash crash_change) crash_calls stored crash-calls
