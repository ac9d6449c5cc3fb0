-- ===== src/Enums/Clearance.antt =====
-- What classification_at_or_below selects (app/enums.py).
use danah_v.Prelude.{◌≤◌, ◌≡◌, ◌↔◌, arith, Any}
use danah_v.Enums.{Classification, classification_rank, classification_at_or_below}

-- A classification is selected exactly when it does not rank above the ceiling.
pub classification_at_or_below_iff :
    (ceiling c : Classification)
    → Any (λ x. x ≡ c) (classification_at_or_below ceiling)
      ↔ (classification_rank c ≤ classification_rank ceiling)
unfolding classification_at_or_below
classification_at_or_below_iff Classification.public c = ground arith
classification_at_or_below_iff _ c = ground arith
