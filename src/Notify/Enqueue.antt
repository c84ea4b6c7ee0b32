-- ===== src/Notify/Enqueue.antt =====
-- internal/adapters/postgres/notifications.go: `EnqueueIssueOpened` and `insertNotificationIntent`.
-- The row id of the event, the destinations of the project's rules and random UUIDs are parameters.
use gopnique.Base.{ℕ, ◌+◌, length, List, [], ◌∷◌, ◌++◌, none, if◌then◌else◌}
use gopnique.Base.Action.{Action, ◌>>=◌, lift, return_}
use gopnique.Base.Result.{Result}
use gopnique.Base.Text.{Text, codes}
use gopnique.Ingest.Workflow.{AcceptedEvent, IssueChange, IssueOpenedEnqueueResult}
use gopnique.Notify.Outbox.{Provider, provider_string, pending, Intent, Db, elem, statement}

pub record DestinationAction : Type 0 where
  pub provider : Provider
  pub destination_id : Text

abbrev pub dedupe_keys : List Intent → List Text
dedupe_keys [] = []
dedupe_keys (r ∷ rows) = r.dedupe_key ∷ dedupe_keys rows

abbrev pub dedupe_key_of : DestinationAction → IssueChange → Text
dedupe_key_of destination change =
    provider_string destination.provider
    ++ (codes ":issue-opened:" ++ (destination.destination_id ++ (codes ":" ++ change.issue_id)))

abbrev pub new_intent : Text → DestinationAction → Text → IssueChange → ℕ → Intent
new_intent intent_id destination event_row_id change now = record {
  id_ = intent_id;
  issue_id = change.issue_id;
  event_id = event_row_id;
  provider = destination.provider;
  destination_id = destination.destination_id;
  status = pending;
  dedupe_key = dedupe_key_of destination change;
  attempts = 0;
  next_attempt_at = now;
  locked_until = none;
  delivered_at = none;
  provider_message_id = none;
  provider_status_code = none;
  last_error = none;
}

-- `insert … on conflict (dedupe_key) do nothing`, and the number of rows that it adds
abbrev pub insert_row : Intent → List Intent → List Intent
insert_row r rows = if elem r.dedupe_key (dedupe_keys rows) then rows else rows ++ r ∷ []

abbrev pub rows_affected : Intent → List Intent → ℕ
rows_affected r rows = if elem r.dedupe_key (dedupe_keys rows) then 0 else 1

unfoldable pub insert_notification_intent :
    Text → DestinationAction → Text → IssueChange → ℕ → Action Db ℕ
insert_notification_intent intent_id destination event_row_id change now =
    let r = new_intent intent_id destination event_row_id change now in
    statement (rows_affected r) (insert_row r)

module _ (random_uuid : ℕ → Result Text) (event_row_id : Text → Text → Result Text)
    (destinations_of : Text → Result (List DestinationAction)) (now : ℕ) where
  -- the loop over the destinations; `count` is what was inserted so far
  unfoldable pub enqueue_for :
      Text → IssueChange → ℕ → List DestinationAction → Action Db IssueOpenedEnqueueResult
  enqueue_for row_id change count [] = return_ (record { count = count })
  enqueue_for row_id change count (destination ∷ destinations) =
      lift (random_uuid (length destinations)) >>= λ intent_id.
      insert_notification_intent intent_id destination row_id change now >>= λ inserted.
      enqueue_for row_id change (count + inserted) destinations

  unfoldable pub enqueue_issue_opened :
      AcceptedEvent → IssueChange → Action Db IssueOpenedEnqueueResult
  enqueue_issue_opened event change =
      if change.created
      then (lift (event_row_id event.event.project_id event.event.event_id) >>= λ row_id.
          lift (destinations_of event.event.project_id) >>= λ destinations.
          enqueue_for row_id change 0 destinations)
      else return_ (record { count = 0 })
