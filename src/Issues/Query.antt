-- ===== src/Issues/Query.antt =====
-- internal/app/issues/query.go: the status of an issue, targets of an assignment and the search text.
-- A status or a kind is a string. `time.Parse` in the two layouts is a parameter; a time is its
-- number of seconds.
use gopnique.Base.{
  Bool, false, not, ◌||◌, [], ◌∷◌, ◌++◌, Option, none, some, ltb, is_empty, if◌then◌else◌,
}
use gopnique.Base.Result.{Result, ok, err}
use gopnique.Base.Text.{Text, codes, text_eq, cut, byte_len}

abbrev pub unresolved : Text
unresolved = codes "unresolved"

abbrev pub resolved : Text
resolved = codes "resolved"

abbrev pub ignored : Text
ignored = codes "ignored"

unfoldable pub valid_status : Text → Bool
valid_status status = text_eq status unresolved || text_eq status resolved || text_eq status ignored

unfoldable pub parse_issue_status : Text → Result Text
parse_issue_status input = if valid_status input then ok input else err "issue status is invalid"

unfoldable pub can_transition_issue_status : Text → Text → Bool
can_transition_issue_status from to =
    if text_eq from unresolved
    then text_eq to resolved || text_eq to ignored
    else if text_eq from resolved || text_eq from ignored
    then text_eq to unresolved
    else false

pub record AssignmentTarget : Type 0 where
  pub kind : Text
  pub id_ : Text

abbrev pub target_none : Text
target_none = codes "none"

abbrev pub target_operator : Text
target_operator = codes "operator"

abbrev pub target_team : Text
target_team = codes "team"

unfoldable pub valid_target : Text → Text → Bool
valid_target kind id_ =
    if text_eq kind target_none
    then is_empty id_
    else if text_eq kind target_operator || text_eq kind target_team
    then not (is_empty id_)
    else false

unfoldable pub target_value : AssignmentTarget → Text
target_value target =
    if text_eq target.kind target_none then target_none else target.kind ++ b':' ∷ target.id_

abbrev pub invalid_target : Result AssignmentTarget
invalid_target = err "assignment target is invalid"

abbrev pub checked_target : Option (Text × Text) → Result AssignmentTarget
checked_target none = invalid_target
checked_target (some (kind, id_)) =
    if is_empty id_
    then invalid_target
    else if valid_target kind id_
    then ok (record { kind = kind; id_ = id_ })
    else invalid_target

unfoldable pub parse_assignment_target : Text → Result AssignmentTarget
parse_assignment_target input =
    if text_eq input target_none
    then ok (record { kind = target_none; id_ = [] })
    else checked_target (cut b':' input)

-- no target: the zero value of the Go type
abbrev pub no_target : AssignmentTarget
no_target = record { kind = []; id_ = [] }

unfoldable pub require_comment_body : Text → Result (Unit {0})
require_comment_body input =
    if is_empty input
    then err "comment body is required"
    else if ltb 4000 (byte_len input)
    then err "comment body is too long"
    else ok tt
