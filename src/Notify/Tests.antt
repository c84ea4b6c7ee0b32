-- ===== src/Notify/Tests.antt =====
-- An outbox with two intents for a webhook and one for a chat, and batches over it.
use gopnique.Base.{ℕ, ◌+◌, ◌*◌, ◌≡◌, refl, true, false, List, [], ◌∷◌, none, some, length, arith}
use gopnique.Base.Int.{pos}
use gopnique.Base.Action.{Action}
use gopnique.Base.Result.{Result, ok}
use gopnique.Base.Text.{
  Text, codes, text_eq, is_space, trim_left, trim_right, trim_space, contains_any, to_lower,
}
use gopnique.Domain.Event.{CanonicalEvent, error_kind, creates_issue}
use gopnique.Ingest.Workflow.{AcceptedEvent, IssueChange, IssueOpenedEnqueueResult}
use gopnique.Outbound.{
  Net, Resolver, check_addresses, allowed_public_addr, validate_resolved_destination,
}
use gopnique.Notify.Plan.{decimal, trim_slashes, base_url, new_issue_opened}
use gopnique.Notify.Ports.{
  StatusReceipt, WebhookMessage, WebhookDelivery, EmailDelivery, new_delivered_receipt,
  new_failed_receipt,
}
use gopnique.Notify.Messages.{email_message, url_message, url_payload}
use gopnique.Notify.Outbox.{
  webhook, pending, delivering, failed, Intent, Db, minute, same_provider, claimable, select,
  update_where, elem, insert_by, sort_by, statement, provider_string, ids,
}
use gopnique.Notify.Store.{claimed, read_rows, claim_deliveries}
use gopnique.Notify.Marks.{status_delivered, status_failed, retry_delay}
use gopnique.Notify.Batch.{
  BatchCommand, Attempt, not_sent, deliver_delivery, deliver_deliveries, deliver_batch, url_attempt,
  message_attempt,
}
use gopnique.Notify.Batches.{webhook_outbox}
use gopnique.Notify.Lease.{find_intent, IsKeyed}
use gopnique.Notify.Runs.{Batch, webhook_batch, run_batch, run_batches}
use gopnique.Notify.Idle.{run_batches-idle}
use gopnique.Notify.Retry.{Waits, IsSpaced, IsRetried, run_batches-IsRetried}
use gopnique.Notify.Report.{deliver_batch-settled}
use gopnique.Notify.Enqueue.{
  DestinationAction, insert_notification_intent, enqueue_for, enqueue_issue_opened,
}
use gopnique.Notify.Dedupe.{Grown, enqueue_issue_opened-Grown}
use gopnique.Notify.Texts.{IsBroken, message_attempt-IsBroken}

running : Unit {0}
unfolding text_eq is_space trim_left trim_right trim_space contains_any to_lower creates_issue
    check_addresses allowed_public_addr validate_resolved_destination decimal trim_slashes base_url
    new_issue_opened email_message url_message url_payload same_provider claimable select
    update_where elem insert_by sort_by statement provider_string claimed read_rows claim_deliveries
    status_delivered status_failed retry_delay deliver_delivery deliver_deliveries deliver_batch
    url_attempt message_attempt find_intent run_batch run_batches insert_notification_intent
    enqueue_for enqueue_issue_opened
running = tt

abbrev event : CanonicalEvent
event = record {
  organization_id = codes "org";
  project_id = codes "web";
  event_id = codes "e1";
  kind = error_kind;
  level = codes "error";
  title = codes "boom\nbang";
  platform = codes "go";
  default_grouping_parts = [];
  explicit_fingerprint = [];
}

abbrev intent : Text → Intent
intent id_ = record {
  id_ = id_;
  issue_id = codes "i1";
  event_id = codes "e1";
  provider = webhook;
  destination_id = codes "hook";
  status = pending;
  dedupe_key = id_;
  attempts = 0;
  next_attempt_at = 5;
  locked_until = none;
  delivered_at = none;
  provider_message_id = none;
  provider_status_code = none;
  last_error = none;
}

-- left in delivery by a worker that stopped
abbrev stuck : Intent
stuck = record (intent (codes "n2")) {
  status = delivering;
  attempts = 1;
  locked_until = some 60000007;
}

abbrev db : Db
db = record {
  intents = intent (codes "n1") ∷ stuck ∷ [];
  enabled = λ p destination. true;
  last_seen_at = λ issue. 0;
  outages = [];
}

abbrev read : Intent → Result WebhookDelivery
read r = ok (record {
  intent_id = r.id_;
  target = record { value = codes "http://a.io"; host = codes "a.io" };
  event = event;
  issue_id = r.issue_id;
  issue_short_id = pos 7;
})

abbrev net : Net
net = record {
  parse_url = λ s. none;
  hostname = λ u. u.host;
  url_string = λ u. u.scheme;
  parse_addr = λ s. none;
  lower = λ c. c;
}

abbrev resolver : Resolver
resolver = some λ host. ok (
    record {
      is_valid = true;
      is_global_unicast = true;
      is_private = false;
      is_loopback = false;
      is_link_local_unicast = false;
      is_unspecified = false;
    }
    ∷ [])

abbrev refuses : WebhookMessage → Result StatusReceipt
refuses message = ok (new_failed_receipt 503 (codes "busy"))

abbrev accepts : WebhookMessage → Result StatusReceipt
accepts message = ok (new_delivered_receipt 200)

abbrev at_time : ℕ → BatchCommand
at_time now = record { now = now; limit = pos 10; public_url = codes "http://x/" }

abbrev later : ℕ
later = 10 + 61 * minute

abbrev bs : List Batch
bs = webhook_batch read refuses (at_time 10) ∷ webhook_batch read accepts (at_time later) ∷ []

first_fails :
    find_intent
      (codes "n1")
      (run_batches net resolver (webhook_batch read refuses (at_time 10) ∷ []) db).intents
    ≡ some (record (intent (codes "n1")) {
      status = failed;
      attempts = 1;
      next_attempt_at = 10 + 2 * minute;
      provider_status_code = some 503;
      last_error = some (codes "busy");
    })
unfolding running
first_fails = refl

-- If the mark of a delivery fails, the intent is left in delivery.
mark_fails :
    find_intent
      (codes "n1")
      (run_batches net resolver
        (webhook_batch read accepts (at_time 10) ∷ [])
        (record db { outages = none ∷ some "connection lost" ∷ [] })).intents
    ≡ some (record (intent (codes "n1")) {
      status = delivering;
      attempts = 1;
      locked_until = some 60000010;
    })
unfolding running
mark_fails = refl

db-keys : IsKeyed (ids db.intents)
unfolding running
db-keys = (refl, (refl, tt))

found_first : find_intent (codes "n1") db.intents ≡ some (intent (codes "n1"))
unfolding running
found_first = refl

found_stuck : find_intent (codes "n2") db.intents ≡ some stuck
unfolding running
found_stuck = refl

run_batches-idle_example :
    find_intent (codes "n2") (run_batches net resolver bs db).intents ≡ some stuck
run_batches-idle_example =
    run_batches-idle net resolver bs db (codes "n2") stuck db-keys found_stuck refl

first-Waits : Waits db.enabled webhook 5 (intent (codes "n1"))
unfolding running
first-Waits = record {
  for_provider = refl;
  enabled_ = refl;
  status = refl;
  due = omega arith;
  unlocked = refl;
}

bs-IsSpaced : IsSpaced webhook 2 5 bs
bs-IsSpaced = (
  refl,
  λ r. (_, refl),
  omega arith,
  omega arith,
  (refl, λ r. (_, refl), omega arith, omega arith, tt),
)

run_batches-IsRetried_example :
    (c : Intent) × (find_intent (codes "n1") (run_batches net resolver bs db).intents ≡ some c)
    × IsRetried 2 (intent (codes "n1")) c
run_batches-IsRetried_example =
    run_batches-IsRetried net resolver bs db webhook 5 (codes "n1") (intent (codes "n1")) refl
      db-keys found_first first-Waits bs-IsSpaced

abbrev attempt : WebhookDelivery → Attempt StatusReceipt StatusReceipt
attempt = url_attempt net resolver (λ url. url) url_message refuses (codes "http://x/")

settled_one : deliver_batch (webhook_outbox read) attempt (at_time 10) db ≡ (
  ok (record { claimed = 1; delivered = 0; failed = 1 }),
  (deliver_batch (webhook_outbox read) attempt (at_time 10) db).1,
)
unfolding running
settled_one = refl

deliver_batch-settled_example :
    (ds : List WebhookDelivery) × (u : Db) × ((webhook_outbox read).claim 10 (pos 10) db
      ≡ (ok ds, u))
    × (◌≡◌ {A = ℕ} 1 (length ds))
    × (◌≡◌ {A = ℕ} (0 + 1) (length ds))
deliver_batch-settled_example =
    deliver_batch-settled (webhook_outbox read) attempt (at_time 10) db
      (record { claimed = 1; delivered = 0; failed = 1 })
      (deliver_batch (webhook_outbox read) attempt (at_time 10) db).1 settled_one

abbrev first_batch : Batch
first_batch = webhook_batch read refuses (at_time 10)

abbrev accepted : AcceptedEvent
accepted = record {
  event = event;
  fingerprint = record { algorithm = codes "sha256"; value = codes "f" };
}

abbrev opened : IssueChange
opened = record { issue_id = codes "i9"; created = true }

abbrev hook : DestinationAction
hook = record { provider = webhook; destination_id = codes "hook" }

abbrev enqueue : Action Db IssueOpenedEnqueueResult
enqueue =
    enqueue_issue_opened (λ n. ok (codes "u")) (λ project event_id. ok (codes "row"))
      (λ project. ok (hook ∷ hook ∷ [])) 9 accepted opened

-- the second of two equal destinations is a conflict
enqueue_one : enqueue db ≡ (ok (record { count = 1 }), (enqueue db).1)
unfolding running
enqueue_one = refl

enqueue_issue_opened-Grown_example : Grown opened 9 db.intents (enqueue db).1.intents 1
enqueue_issue_opened-Grown_example =
    enqueue_issue_opened-Grown (λ n. ok (codes "u")) (λ project event_id. ok (codes "row"))
      (λ project. ok (hook ∷ hook ∷ [])) 9 accepted opened db (enqueue db).1 (record { count = 1 })
      enqueue_one

abbrev email_delivery : EmailDelivery
email_delivery = record {
  intent_id = codes "n3";
  target = codes "a@b.io";
  event = event;
  issue_id = codes "i1";
  issue_short_id = pos 7;
}

title-IsBroken : IsBroken event.title (codes "boom\nban") b'g'
unfolding running
title-IsBroken = record {
  ends = refl;
  no_space = refl;
  trimmed = refl;
  valid = (refl, (refl, (refl, (refl, (refl, (refl, (refl, (refl, (refl, tt)))))))));
  short = omega arith;
  broken = refl;
}

message_attempt-IsBroken_example :
    (reason : Text) × (message_attempt email_message
        (λ m. ok (record { provider_message_id = [] }))
        (codes "http://x")
        email_delivery
      ≡ not_sent reason)
message_attempt-IsBroken_example =
    message_attempt-IsBroken (λ m. ok (record { provider_message_id = [] })) (codes "http://x")
      email_delivery (codes "boom\nban") b'g' title-IsBroken
