-- ===== src/Operators/Tests.antt =====
-- A member who reads and may do no more, and the theorem at it.
use gopnique.Base.{◌≡◌, refl, true}
use gopnique.Base.Result.{ok, err}
use gopnique.Base.Text.{codes, text_eq}
use gopnique.Operators.{
  OperatorSession, member, read_project, view_ops, valid_permission, can, require_permission,
  Entitled, require_permission-ok,
}

running : Unit {0}
unfolding text_eq valid_permission can require_permission
running = tt

abbrev reader : OperatorSession
reader = record { organization_role = codes "member"; project_role = member }

reader-reads : require_permission reader read_project ≡ ok reader
unfolding running
reader-reads = refl

reader-no_ops : require_permission reader view_ops ≡ err "permission denied"
unfolding running
reader-no_ops = refl

require_permission-ok_example :
    (reader ≡ reader) × (valid_permission read_project ≡ true) × Entitled reader read_project
require_permission-ok_example = require_permission-ok reader reader read_project reader-reads
