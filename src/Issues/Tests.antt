-- ===== src/Issues/Tests.antt =====
-- An issue that is resolved and reopened, and targets of an assignment, with the theorems at them.
use gopnique.Base.{◌≡◌, refl, true, List, [], ◌∷◌}
use gopnique.Base.Result.{ok}
use gopnique.Base.Text.{Text, codes, text_eq, cut}
use gopnique.Issues.Query.{
  AssignmentTarget, unresolved, resolved, ignored, valid_status, parse_issue_status,
  can_transition_issue_status, valid_target, target_value, parse_assignment_target,
}
use gopnique.Issues.Status.{
  StatusTransitionCommand, IssueRow, transition_issue_status_in_tx, transition_status,
  transition_all,
}
use gopnique.Issues.Status.History.{LeadsTo, transition_all-LeadsTo}
use gopnique.Issues.Assignment.{parse_assignment_target-value, parse_assignment_target-ok}

running : Unit {0}
unfolding text_eq cut valid_status parse_issue_status can_transition_issue_status valid_target
    target_value parse_assignment_target transition_issue_status_in_tx transition_status
running = tt

abbrev to_status : Text → StatusTransitionCommand
to_status status = record {
  organization_id = codes "org";
  project_id = codes "web";
  issue_id = codes "i1";
  actor_id = codes "ann";
  target_status = status;
  reason = [];
}

abbrev fresh : IssueRow
fresh = record { status = unresolved; transitions = []; audit = [] }

-- the second command is refused
abbrev commands : List StatusTransitionCommand
commands = to_status resolved ∷ to_status ignored ∷ to_status unresolved ∷ []

two_moves :
    (transition_all commands fresh).transitions
    ≡ (unresolved, resolved) ∷ (resolved, unresolved) ∷ []
unfolding running
two_moves = refl

transition_all-LeadsTo_example :
    LeadsTo unresolved
      (transition_all commands fresh).transitions
      (transition_all commands fresh).status
transition_all-LeadsTo_example = transition_all-LeadsTo commands fresh unresolved refl

abbrev backend : AssignmentTarget
backend = record { kind = codes "team"; id_ = codes "a:b" }

backend-valid : valid_target backend.kind backend.id_ ≡ true
unfolding running
backend-valid = refl

parse_assignment_target-value_example : parse_assignment_target (target_value backend) ≡ ok backend
parse_assignment_target-value_example = parse_assignment_target-value backend backend-valid

backend-parsed : parse_assignment_target (codes "team:a:b") ≡ ok backend
unfolding running
backend-parsed = refl

parse_assignment_target-ok_example :
    (valid_target backend.kind backend.id_ ≡ true) × (target_value backend ≡ codes "team:a:b")
parse_assignment_target-ok_example =
    parse_assignment_target-ok (codes "team:a:b") backend backend-parsed
