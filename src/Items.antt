-- ===== src/Items.antt =====
-- app/api/items.py: which ingested items a user is shown. The filters on the triage and on the text
-- read columns that are not modelled: a test stands for them.
pub mod Visibility
use danah_v.Prelude.{
  ℕ, Bool, true, false, ◌&&◌, Option, none, some, List, ◌==◌, leb, length, filterb, sort_by, take,
  drop, find_first,
}
use danah_v.Enums.{Classification, ItemStatus}
use danah_v.Exceptions.{Error}
use danah_v.Models.{Db, IngestedItem, User}
use danah_v.Session.{Action, query, one_or, ◌>>=◌}
use danah_v.Security.{user_clearance}
use danah_v.Insights.{is_some, is_within}
use danah_v.Ingestion.{has_source_id}

pub record ItemFilter : Type 0 where
  pub status : Option ItemStatus
  pub source_id : Option ℕ
  pub date_from : Option ℕ
  pub date_to : Option ℕ
  pub matches : IngestedItem → Bool

abbrev pub same_item_status : ItemStatus → ItemStatus → Bool
same_item_status ItemStatus.new ItemStatus.new = true
same_item_status ItemStatus.triaged ItemStatus.triaged = true
same_item_status ItemStatus.analyzed ItemStatus.analyzed = true
same_item_status ItemStatus.archived ItemStatus.archived = true
same_item_status _ _ = false

abbrev pub in_status : Option ItemStatus → IngestedItem → Bool
in_status none i = true
in_status (some status) i = same_item_status i.status status

abbrev pub from_source : Option ℕ → IngestedItem → Bool
from_source none i = true
from_source (some id) i = i.source_id == id

-- coalesce(published_at, created_at)
unfoldable pub dated : IngestedItem → ℕ
dated i = elim i.published_at [ none ↦ i.created_at | some at ↦ at ]

abbrev pub not_before : Option ℕ → IngestedItem → Bool
not_before none i = true
not_before (some from) i = leb from (dated i)

abbrev pub not_after : Option ℕ → IngestedItem → Bool
not_after none i = true
not_after (some to) i = leb (dated i) to

-- _filters
unfoldable pub is_selected : Classification → ItemFilter → IngestedItem → Bool
unfolding dated
is_selected clearance f i =
    is_within clearance i.classification
    && (in_status f.status i
        && (from_source f.source_id i
            && (f.matches i && (not_before f.date_from i && not_after f.date_to i))))

-- The join drops an item whose source is gone.
abbrev pub has_source : Db → IngestedItem → Bool
has_source db i = is_some (find_first (has_source_id i.source_id) db.sources)

pub record ItemPage : Type 0 where
  pub items : List IngestedItem
  pub total : ℕ

-- `newer` is published_at DESC NULLS LAST, created_at DESC.
unfoldable pub list_items :
    User → ItemFilter → ℕ → ℕ → (IngestedItem → IngestedItem → Bool) → Db → ItemPage
unfolding is_selected
list_items user f limit offset newer db = record {
  items = take limit (
      drop offset (
        sort_by newer
          (filterb (λ i. has_source db i && is_selected (user_clearance user) f i) db.items)));
  total = length (filterb (is_selected (user_clearance user) f) db.items);
}

abbrev pub is_readable : Db → User → ℕ → IngestedItem → Bool
is_readable db user id i =
    has_source db i && (i.id == id && is_within (user_clearance user) i.classification)

unfoldable pub get_item : User → ℕ → Action IngestedItem
get_item user id = do
  found ← query (λ db. find_first (is_readable db user id) db.items)
  one_or Error.not_found found
