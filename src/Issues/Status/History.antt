-- ===== src/Issues/Status/History.antt =====
-- The history that an issue keeps of its status.
use gopnique.Base.{
  ◌≡◌, ◌⊎◌, ◌↔◌, refl, sym, inl, inr, arith, Bool, true, false, not, ◌||◌, List, [], ◌∷◌, ◌++◌,
  is_empty, if◌then◌else◌, Bool-cases, String,
}
use gopnique.Base.Result.{Result, ok, err}
use gopnique.Base.Text.{Text, text_eq}
use gopnique.Base.Text.Laws.{text_eq_iff}
use gopnique.Issues.Query.{
  unresolved, resolved, ignored, valid_status, parse_issue_status, can_transition_issue_status,
}
use gopnique.Issues.Status.{
  StatusTransitionCommand, IssueRow, move_from, transition_issue_status_in_tx, transition_status,
  transition_all,
}

-- between `unresolved` and one of the others
abbrev pub Swaps : Text → Text → Type 0
Swaps from to =
    ((from ≡ unresolved) × ((to ≡ resolved) ⊎ (to ≡ ignored)))
    ⊎ (((from ≡ resolved) ⊎ (from ≡ ignored)) × (to ≡ unresolved))

can_transition→Swaps : (from to : Text) → can_transition_issue_status from to ≡ true → Swaps from to
unfolding can_transition_issue_status
can_transition→Swaps from to h = ground (
  arith,
  text_eq_iff from unresolved,
  text_eq_iff from resolved,
  text_eq_iff from ignored,
  text_eq_iff to unresolved,
  text_eq_iff to resolved,
  text_eq_iff to ignored,
)

Swaps→can_transition : (from to : Text) → Swaps from to → can_transition_issue_status from to ≡ true
unfolding can_transition_issue_status text_eq
Swaps→can_transition from to (inl (f, inl t)) = rw f (rw t refl)
Swaps→can_transition from to (inl (f, inr t)) = rw f (rw t refl)
Swaps→can_transition from to (inr (inl f, t)) = rw f (rw t refl)
Swaps→can_transition from to (inr (inr f, t)) = rw f (rw t refl)

-- A status changes exactly between `unresolved` and one of the others, in both directions: nothing
-- goes from resolved to ignored or back, and nothing stays where it is.
pub can_transition_issue_status_iff :
    (from to : Text) → (can_transition_issue_status from to ≡ true) ↔ Swaps from to
can_transition_issue_status_iff from to =
    (can_transition→Swaps from to, Swaps→can_transition from to)

-- The rows of a history lead from one status to another, each a permitted change from where the one
-- before it ended.
abbrev pub LeadsTo : Text → List (Text × Text) → Text → Type 0
LeadsTo s [] t = s ≡ t
LeadsTo s ((a, b) ∷ rows) t = (a ≡ s) × (can_transition_issue_status a b ≡ true) × LeadsTo b rows t

LeadsTo-append :
    (s t u : Text) (rows : List (Text × Text))
    → LeadsTo s rows t
    → can_transition_issue_status t u ≡ true
    → LeadsTo s (rows ++ (t, u) ∷ []) u
LeadsTo-append s t u [] e h = (sym e, h, refl)
LeadsTo-append s t u ((a, b) ∷ rows) (e, c, k) h = (e, c, LeadsTo-append b t u rows k h)

parsed_self : (s t : Text) → parse_issue_status s ≡ ok t → t ≡ s
unfolding parse_issue_status
parsed_self s t h = ground arith

move_from-LeadsTo :
    (command : StatusTransitionCommand) (issue : IssueRow) (r : Result Text) (s : Text)
    → ((from : Text) → r ≡ ok from → from ≡ issue.status)
    → LeadsTo s issue.transitions issue.status
    → LeadsTo s (move_from command issue r).1.transitions (move_from command issue r).1.status
move_from-LeadsTo command issue (err e) s h k = k
move_from-LeadsTo command issue (ok from) s h k =
    elim (Bool-cases (can_transition_issue_status from command.target_status)) [
      | inl e ↦
          rw e
            (LeadsTo-append s from command.target_status issue.transitions (rw (h from refl) k) e)
      | inr e ↦ rw e k
    ]

in_tx-LeadsTo :
    (command : StatusTransitionCommand) (issue : IssueRow) (s : Text)
    → LeadsTo s issue.transitions issue.status
    → LeadsTo s
        (transition_issue_status_in_tx command issue).1.transitions
        (transition_issue_status_in_tx command issue).1.status
unfolding transition_issue_status_in_tx
in_tx-LeadsTo command issue s k =
    move_from-LeadsTo command issue _ s (λ from. parsed_self issue.status from) k

-- An early return keeps the row.
either-LeadsTo :
    (b : Bool) (e : String) (issue : IssueRow) (r : Result Text × IssueRow) (s : Text)
    → LeadsTo s issue.transitions issue.status
    → LeadsTo s r.1.transitions r.1.status
    → LeadsTo s
        (if b then (err e, issue) else r).1.transitions
        (if b then (err e, issue) else r).1.status
either-LeadsTo true e issue r s k l = k
either-LeadsTo false e issue r s k l = l

transition_status-LeadsTo :
    (command : StatusTransitionCommand) (issue : IssueRow) (s : Text)
    → LeadsTo s issue.transitions issue.status
    → LeadsTo s
        (transition_status command issue).1.transitions
        (transition_status command issue).1.status
unfolding transition_status
transition_status-LeadsTo command issue s k =
    either-LeadsTo (is_empty command.organization_id || is_empty command.project_id) _ issue _ s k (
      either-LeadsTo (is_empty command.issue_id) _ issue _ s k (
        either-LeadsTo (is_empty command.actor_id) _ issue _ s k (
          either-LeadsTo (not (valid_status command.target_status)) _ issue _ s k
            (in_tx-LeadsTo command issue s k))))

-- Whatever commands come in, the rows in the history of an issue always lead, by permitted changes
-- only, from the status that it began with to the status that it has.
pub transition_all-LeadsTo :
    (commands : List StatusTransitionCommand) (issue : IssueRow) (s : Text)
    → LeadsTo s issue.transitions issue.status
    → LeadsTo s (transition_all commands issue).transitions (transition_all commands issue).status
transition_all-LeadsTo [] issue s k = k
transition_all-LeadsTo (command ∷ commands) issue s k =
    transition_all-LeadsTo commands (transition_status command issue).1 s
      (transition_status-LeadsTo command issue s k)
