-- ===== src/Issues/Status.antt =====
-- Transitions of an issue's status: `TransitionStatus` (internal/app/issues/query.go) and
-- `transitionIssueStatusInTx` (internal/adapters/postgres/issues_status.go) on the row of the issue,
-- where the statements of the transaction succeed.
pub mod History
use gopnique.Base.{
  Bool, true, false, not, ◌||◌, List, [], ◌∷◌, ◌++◌, Option, none, some, is_empty, if◌then◌else◌,
}
use gopnique.Base.Result.{Result, ok, err}
use gopnique.Base.Text.{Text, text_eq}
use gopnique.Issues.Query.{valid_status, parse_issue_status, can_transition_issue_status}

pub record StatusTransitionCommand : Type 0 where
  pub organization_id : Text
  pub project_id : Text
  pub issue_id : Text
  pub actor_id : Text
  pub target_status : Text
  pub reason : Text

pub record AuditEvent : Type 0 where
  pub actor_id : Text
  pub from_status : Text
  pub to_status : Text
  pub reason : Text

-- the row of an issue, with its rows of issue_status_transitions and audit_events
pub record IssueRow : Type 0 where
  pub status : Text
  pub transitions : List (Text × Text)
  pub audit : List AuditEvent

abbrev pub moved : StatusTransitionCommand → Text → IssueRow → IssueRow
moved command from issue = record {
  status = command.target_status;
  transitions = issue.transitions ++ (from, command.target_status) ∷ [];
  audit =
      issue.audit
      ++ record {
        actor_id = command.actor_id;
        from_status = from;
        to_status = command.target_status;
        reason = command.reason;
      }
        ∷ [];
}

abbrev pub move_from : StatusTransitionCommand → IssueRow → Result Text → Result Text × IssueRow
move_from command issue (err e) = (err e, issue)
move_from command issue (ok from) =
    if can_transition_issue_status from command.target_status
    then (ok command.target_status, moved command from issue)
    else (err "issue status transition is invalid", issue)

unfoldable pub transition_issue_status_in_tx :
    StatusTransitionCommand → IssueRow → Result Text × IssueRow
transition_issue_status_in_tx command issue =
    move_from command issue (parse_issue_status issue.status)

unfoldable pub transition_status : StatusTransitionCommand → IssueRow → Result Text × IssueRow
transition_status command issue =
    if is_empty command.organization_id || is_empty command.project_id
    then (err "issue query scope is required", issue)
    else if is_empty command.issue_id
    then (err "issue is required", issue)
    else if is_empty command.actor_id
    then (err "actor is required", issue)
    else if not (valid_status command.target_status)
    then (err "issue status is invalid", issue)
    else transition_issue_status_in_tx command issue

-- commands one after the other, failed ones included
abbrev pub transition_all : List StatusTransitionCommand → IssueRow → IssueRow
transition_all [] issue = issue
transition_all (command ∷ commands) issue =
    transition_all commands (transition_status command issue).1
