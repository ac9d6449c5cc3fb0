-- ===== src/Security.antt =====
-- app/security/rbac.py and the role dependencies of app/deps.py: which role may act, and which
-- classification a role may read.
pub mod Clearance
use danah_v.Prelude.{◌≡◌, Bool, true, false, List, [], ◌∷◌, ◌||◌, leb, if◌then◌else◌}
use danah_v.Enums.{Classification, classification_rank, Role, same_role}
use danah_v.Exceptions.{Error}
use danah_v.Models.{User}
use danah_v.Session.{Action, pure, throw}

-- ROLE_CLEARANCE of app/config.py.
unfoldable pub clearance_for : Role → Classification
clearance_for Role.admin = Classification.official_sensitive
clearance_for Role.executive = Classification.official_sensitive
clearance_for Role.analyst = Classification.official
clearance_for Role.viewer = Classification.internal

unfoldable pub user_clearance : User → Classification
unfolding clearance_for
user_clearance user = clearance_for user.role

unfoldable pub can_read : User → Classification → Bool
unfolding user_clearance
can_read user classification =
    leb (classification_rank classification) (classification_rank (user_clearance user))

unfoldable pub assert_can_read : User → Classification → Action Unit
unfolding can_read
assert_can_read user classification =
    if can_read user classification then pure tt else throw Error.permission_denied

unfoldable pub has_role : User → List Role → Bool
has_role user [] = false
has_role user (r ∷ roles) = same_role user.role r || has_role user roles

abbrev pub analyst_and_above : List Role
analyst_and_above = Role.admin ∷ Role.executive ∷ Role.analyst ∷ []

abbrev pub executive_and_above : List Role
executive_and_above = Role.admin ∷ Role.executive ∷ []

abbrev pub admin_only : List Role
admin_only = Role.admin ∷ []

unfoldable pub assert_role : User → List Role → Action Unit
unfolding has_role
assert_role user roles = if has_role user roles then pure tt else throw Error.permission_denied
