-- ===== src/Security/Clearance.antt =====
-- The two readings of a clearance agree: the guard of a single object (app/security/rbac.py) and
-- the WHERE clause of a collection (app/enums.py).
use danah_v.Prelude.{◌≤◌, ◌≡◌, ◌↔◌, true, arith, Any}
use danah_v.Enums.{Classification, classification_rank, classification_at_or_below}
use danah_v.Enums.Clearance.{classification_at_or_below_iff}
use danah_v.Models.{User}
use danah_v.Security.{can_read, user_clearance}

can_read_iff :
    (user : User) (c : Classification)
    → (can_read user c ≡ true) ↔ (classification_rank c ≤ classification_rank (user_clearance user))
unfolding can_read
can_read_iff user c = ground arith

-- A user may read an object on its own exactly when the collection filter of the same user
-- selects its classification.
pub can_read-mem_iff :
    (user : User) (c : Classification)
    → (can_read user c ≡ true) ↔ Any (λ x. x ≡ c) (classification_at_or_below (user_clearance user))
can_read-mem_iff user c =
    let one = can_read_iff user c in
    let many = classification_at_or_below_iff (user_clearance user) c in
    (λ h. many.1 (one.0 h), λ h. one.1 (many.0 h))
