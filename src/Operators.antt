-- ===== src/Operators.antt =====
-- internal/app/operators/permissions.go: what an operator may do. A role and a permission are strings.
pub mod Tests
use gopnique.Base.{
  Bool, true, false, not, ◌||◌, ◌≡◌, ◌⊎◌, inl, inr, arith, refl, Bool-cases, if◌then◌else◌,
}
use gopnique.Base.Result.{Result, ok, err}
use gopnique.Base.Text.{Text, codes, text_eq}
use gopnique.Base.Text.Laws.{text_eq_iff}

pub record OperatorSession : Type 0 where
  pub organization_role : Text
  pub project_role : Text

abbrev pub owner : Text
owner = codes "owner"

abbrev pub admin : Text
admin = codes "admin"

abbrev pub member : Text
member = codes "member"

abbrev pub read_project : Text
read_project = codes "read_project"

abbrev pub triage_issues : Text
triage_issues = codes "triage_issues"

abbrev pub manage_alerts : Text
manage_alerts = codes "manage_alerts"

abbrev pub manage_members : Text
manage_members = codes "manage_members"

abbrev pub manage_tokens : Text
manage_tokens = codes "manage_tokens"

abbrev pub view_audit : Text
view_audit = codes "view_audit"

abbrev pub view_ops : Text
view_ops = codes "view_ops"

unfoldable pub valid_permission : Text → Bool
valid_permission permission =
    text_eq permission read_project
    || text_eq permission triage_issues
    || text_eq permission manage_alerts
    || text_eq permission manage_members
    || text_eq permission manage_tokens
    || text_eq permission view_audit
    || text_eq permission view_ops

unfoldable pub can : OperatorSession → Text → Bool
can session permission =
    if text_eq session.organization_role owner
    then true
    else if text_eq session.project_role owner || text_eq session.project_role admin
    then text_eq permission read_project
      || text_eq permission triage_issues
      || text_eq permission manage_alerts
      || text_eq permission manage_members
      || text_eq permission manage_tokens
      || text_eq permission view_audit
      || text_eq permission view_ops
    else if text_eq session.project_role member
    then text_eq permission read_project
    else false

unfoldable pub require_permission : OperatorSession → Text → Result OperatorSession
require_permission session permission =
    if not (valid_permission permission)
    then err "permission is invalid"
    else if not (can session permission)
    then err "permission denied"
    else ok session

-- What a session needs for a permission: a leading role, or membership for reading.
abbrev pub Entitled : OperatorSession → Text → Type 0
Entitled session permission =
    (session.organization_role ≡ owner)
    ⊎ ((session.project_role ≡ owner)
        ⊎ ((session.project_role ≡ admin)
            ⊎ ((session.project_role ≡ member) × (permission ≡ read_project))))

entitled :
    (session : OperatorSession) (permission : Text)
    → can session permission ≡ true
    → Entitled session permission
unfolding can
entitled session permission h = ground (
  arith,
  text_eq_iff session.organization_role owner,
  text_eq_iff session.project_role owner,
  text_eq_iff session.project_role admin,
  text_eq_iff session.project_role member,
  text_eq_iff permission read_project,
)

-- No session gets past the check without being entitled: an owner of the organization, an owner or
-- admin of the project, or a member who reads. The permission is a known one, and the session is
-- handed on unchanged.
pub require_permission-ok :
    (session checked : OperatorSession) (permission : Text)
    → require_permission session permission ≡ ok checked
    → (checked ≡ session) × (valid_permission permission ≡ true) × Entitled session permission
unfolding require_permission
require_permission-ok session checked permission h =
    elim (Bool-cases (valid_permission permission)) [
      | inr e ↦ absurd (cc (rw e at h))
      | inl e ↦ elim (Bool-cases (can session permission)) [
        | inr c ↦ absurd (cc (rw c at (rw e at h)))
        | inl c ↦
            let same : session ≡ checked = ground (arith, rw c at (rw e at h)) in
            (cc same, e, entitled session permission c)
      ]
    ]
