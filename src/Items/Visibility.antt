-- ===== src/Items/Visibility.antt =====
-- Who is shown which item (list_items and get_item of app/api/items.py).
use danah_v.Prelude.{
  ℕ, ◌≤◌, ◌≡◌, refl, Bool, true, ◌&&◌, Option, some, arith, All, All-take, All-drop, All-sort_by,
  All-filterb, find_first, find_first-holds, Option-cases, inl, inr, ◌⊎◌,
}
use danah_v.Enums.{classification_rank}
use danah_v.Exceptions.{Error, ok, raise}
use danah_v.Models.{Db, IngestedItem, User}
use danah_v.Session.{Session}
use danah_v.Security.{user_clearance}
use danah_v.Items.{
  ItemFilter, dated, get_item, has_source, is_readable, is_selected, list_items, not_after,
  not_before,
}

-- Within the clearance.
abbrev pub IsWithin : User → IngestedItem → Type 0
IsWithin user i = classification_rank i.classification ≤ classification_rank (user_clearance user)

-- Within the clearance and in the range of dates that is asked for.
abbrev pub IsListed : User → ItemFilter → IngestedItem → Type 0
IsListed user f i =
    IsWithin user i
    × ((from : ℕ) → f.date_from ≡ some from → from ≤ dated i)
    × ((to : ℕ) → f.date_to ≡ some to → dated i ≤ to)

from_bound :
    (date : Option ℕ) (i : IngestedItem) (from : ℕ)
    → not_before date i ≡ true
    → date ≡ some from
    → from ≤ dated i
from_bound date i from h e = ground (arith, h, e)

to_bound :
    (date : Option ℕ) (i : IngestedItem) (to : ℕ)
    → not_after date i ≡ true
    → date ≡ some to
    → dated i ≤ to
to_bound date i to h e = ground (arith, h, e)

listed :
    (user : User) (f : ItemFilter) (db : Db) (i : IngestedItem)
    → (has_source db i && is_selected (user_clearance user) f i) ≡ true
    → IsListed user f i
unfolding is_selected
listed user f db i h = (
  ground arith,
  λ from e. from_bound f.date_from i from (ground arith) e,
  λ to e. to_bound f.date_to i to (ground arith) e,
)

-- No item above the clearance of the user is listed, and none outside the range of dates that is
-- asked for, where an item without a date of publication counts as dated when it was stored.
pub list_items-IsListed :
    (user : User) (f : ItemFilter) (limit offset : ℕ) (newer : IngestedItem → IngestedItem → Bool)
    (db : Db)
    → All (IsListed user f) (list_items user f limit offset newer db).items
unfolding list_items
list_items-IsListed user f limit offset newer db = All-take (IsListed user f) limit _ (
    All-drop (IsListed user f) offset _ (
      All-sort_by (IsListed user f) newer _
        (All-filterb (IsListed user f) _ db.items (λ i h. listed user f db i h))))

-- Opening an item gives one with this id within the clearance of the user, or says "not found".
pub get_item-IsWithin :
    (user : User) (id : ℕ) (s : Session)
    → ((i : IngestedItem) × (get_item user id s ≡ (ok i, s)) × (i.id ≡ id) × IsWithin user i)
      ⊎ (get_item user id s ≡ (raise Error.not_found, s))
unfolding get_item
get_item-IsWithin user id s =
    elim (Option-cases (find_first (is_readable s.current user id) s.current.items)) [
      | inl missing ↦ inr (rw missing refl)
      | inr (i, found) ↦
          let h = find_first-holds _ s.current.items i found in
          inl (i, rw found refl, ground arith, ground arith)
    ]
