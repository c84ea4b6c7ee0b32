-- ===== src/Ingest/TxStore.antt =====
-- internal/adapters/postgres/store.go, `Exists` and `Append` of `txStore`, on the table `events`. The
-- other statements of a transaction read that table and write others alone, as their SQL says (only
-- `Append` inserts into it, and only the purge of internal/adapters/postgres/retention.go deletes from
-- it): they are parameters that get its rows, and change the rest of the database. Any statement may
-- fail.
pub mod Journal
use gopnique.Base.{Bool, true, false, not, ◌&&◌, ◌||◌, List, [], ◌∷◌, ◌++◌, String, if◌then◌else◌}
use gopnique.Base.Action.{Action, ◌>>=◌, lift, return_}
use gopnique.Base.Result.{Result, ok, err}
use gopnique.Base.Text.{Text, text_eq}
use gopnique.Domain.Event.{CanonicalEvent}
use gopnique.Ingest.Workflow.{
  AcceptedEvent, EventAppendResult, IssuePlan, IssueChange, IssueOpenedEnqueueResult, QuotaDecision,
  Ports, AppendEffect,
}

-- a row of `events`
pub record EventRow : Type 0 where
  pub id_ : Text
  pub accepted : AcceptedEvent
  pub canonical_payload : Text

pub record Database (R : Type 0) : Type 0 where
  pub events : List EventRow
  pub rest : R

-- the key of the table, (project_id, event_id)
unfoldable pub has_event : Text → Text → List EventRow → Bool
has_event project_id event_id [] = false
has_event project_id event_id (row ∷ rows) =
    text_eq row.accepted.event.project_id project_id && text_eq row.accepted.event.event_id event_id
    || has_event project_id event_id rows

-- The outcome of the two statements here, random identifiers and the JSON of an event; the
-- statements on other tables, and the other methods of `txStore`.
pub record Statements (R : Type 0) : Type 0 where
  pub scan_exists : Text → Text → Database R → Result (Unit {0})
  pub exec_append : Text → AcceptedEvent → Database R → Result (Unit {0})
  pub random_uuid : Database R → Result Text
  pub canonical_payload_json : AcceptedEvent → Result Text
  pub upsert_project_hourly_stats : List EventRow → CanonicalEvent → Action R (Unit {0})
  pub insert_event_tags : List EventRow → Text → CanonicalEvent → Action R (Unit {0})
  pub insert_transaction_event : List EventRow → Text → CanonicalEvent → Action R (Unit {0})
  pub check_quota : List EventRow → CanonicalEvent → Action R QuotaDecision
  pub apply : List EventRow → IssuePlan → Action R IssueChange
  pub enqueue_issue_opened :
      List EventRow → AcceptedEvent → IssueChange → Action R IssueOpenedEnqueueResult

module _ {R : Type 0} where
  abbrev pub with_events : {A : Type 0} → List EventRow → Result A × R → Result A × Database R
  with_events events (answer, rest) = (answer, record { events = events; rest = rest })

  -- a statement on the other tables
  abbrev pub on_rest : {A : Type 0} → (List EventRow → Action R A) → Action (Database R) A
  on_rest action db = with_events db.events (action db.events db.rest)

  abbrev pub tx_effect : (List EventRow → AppendEffect R) → AppendEffect (Database R)
  tx_effect append_effect accepted = on_rest (λ events. append_effect events accepted)

  abbrev pub answered : {A : Type 0} → Result (Unit {0}) → A → Action (Database R) A
  answered (err e) answer db = (err e, db)
  answered (ok u) answer db = (ok answer, db)

  -- `select exists(…)`
  unfoldable pub tx_exists : Statements R → Text → Text → Action (Database R) Bool
  tx_exists statements project_id event_id db =
      answered (statements.scan_exists project_id event_id db)
        (has_event project_id event_id db.events) db

  abbrev pub inserted : Result (Unit {0}) → Bool → EventRow → Database R → Result Bool × Database R
  inserted (err e) known row db = (err e, db)
  inserted (ok u) true row db = (ok false, db)
  inserted (ok u) false row db = (ok true, record db { events = db.events ++ row ∷ [] })

  -- `insert … on conflict (project_id, event_id) do nothing`: was a row added?
  unfoldable pub insert_event : Statements R → EventRow → Action (Database R) Bool
  insert_event statements row db =
      inserted (statements.exec_append row.id_ row.accepted db)
        (has_event row.accepted.event.project_id row.accepted.event.event_id db.events) row db

  -- behind the insert of a new row
  unfoldable pub append_details :
      Statements R → Text → CanonicalEvent → Action (Database R) EventAppendResult
  append_details statements event_row_id canonical = do
    _ ← on_rest (λ events. statements.upsert_project_hourly_stats events canonical)
    _ ← on_rest (λ events. statements.insert_event_tags events event_row_id canonical)
    _ ← on_rest (λ events. statements.insert_transaction_event events event_row_id canonical)
    return_ (record { duplicate = false })

  unfoldable pub tx_append : Statements R → AcceptedEvent → Action (Database R) EventAppendResult
  tx_append statements accepted = do
    event_row_id ← (λ db. (statements.random_uuid db, db))
    payload ← lift (statements.canonical_payload_json accepted)
    added ←
        insert_event statements
          (record { id_ = event_row_id; accepted = accepted; canonical_payload = payload })
    if added
        then append_details statements event_row_id accepted.event
        else return_ (record { duplicate = true })

  -- `txStore`
  abbrev pub tx_store : Statements R → Ports (Database R)
  tx_store statements = record {
    exists_ = tx_exists statements;
    append = tx_append statements;
    check_quota = λ event. on_rest (λ events. statements.check_quota events event);
    apply = λ plan. on_rest (λ events. statements.apply events plan);
    enqueue_issue_opened = λ accepted change.
        on_rest (λ events. statements.enqueue_issue_opened events accepted change);
  }
