-- ===== src/Sources.antt =====
-- app/api/sources.py: the list of the sources, a new source, and a sync by hand. The type, the
-- connector, the configuration and the credibility of a source are left out, as in the table.
pub mod Names
use danah_v.Prelude.{
  ℕ, String, str_eq, Bool, ◌&&◌, Option, none, some, List, [], ◌∷◌, ◌++◌, ◌==◌, map, length,
  filterb, sort_by, find_first,
}
use danah_v.Enums.{ActorType, Classification}
use danah_v.Exceptions.{Error}
use danah_v.Models.{Db, IngestedItem, Scalar, Source, User}
use danah_v.Session.{Env, Action, pure, throw, query, write, draw, ◌>>=◌, ◌>>◌}
use danah_v.Security.{admin_only, analyst_and_above, assert_role, user_clearance}
use danah_v.Audit.{record_audit}
use danah_v.Insights.{is_within}
use danah_v.Ingestion.{Feeds, Health, SyncResponse, source_health, sync_source_by_id}

pub record SourceOut : Type 0 where
  pub source : Source
  pub health : Health
  pub item_count : ℕ

-- item_counts_by_source, at one source
unfoldable pub item_count_of : Classification → Db → ℕ → ℕ
item_count_of clearance db id = length (
    filterb (λ (i : IngestedItem). i.source_id == id && is_within clearance i.classification)
      db.items)

unfoldable pub source_out : ℕ → Source → ℕ → SourceOut
unfolding source_health
source_out now source item_count = record {
  source = source;
  health = source_health now source;
  item_count = item_count;
}

-- `before` is the order by name.
unfoldable pub list_sources : (Source → Source → Bool) → ℕ → User → Db → List SourceOut
unfolding source_out item_count_of
list_sources before now user db =
    map (λ s. source_out now s (item_count_of (user_clearance user) db s.id))
      (sort_by before db.sources)

pub record SourceCreate : Type 0 where
  pub name : String
  pub poll_interval_minutes : ℕ
  pub enabled : Bool

abbrev pub has_name : String → Source → Bool
has_name name s = str_eq s.name name

abbrev pub new_source : ℕ → SourceCreate → Source
new_source id payload = record {
  id = id;
  name = payload.name;
  enabled = payload.enabled;
  poll_interval_minutes = payload.poll_interval_minutes;
  last_synced_at = none;
  last_status = none;
}

module _ (env : Env) (user : User) (ip : Option String) where
  unfoldable pub insert_source : SourceCreate → List (String × Scalar) → Action SourceOut
  unfolding source_out
  insert_source payload detail = do
    id ← draw env.uuid4
    write (λ db. record db { sources = db.sources ++ new_source id payload ∷ [] })
    record_audit env "source.create" ActorType.user (some user.id) (some "source") (some id) ip
        detail
    now ← draw env.now
    pure (source_out now (new_source id payload) 0)

  unfoldable pub create_source : SourceCreate → List (String × Scalar) → Action SourceOut
  unfolding insert_source assert_role
  create_source payload detail = do
    assert_role user admin_only
    existing ← query (λ db. find_first (has_name payload.name) db.sources)
    elim existing [ none ↦ insert_source payload detail | some s ↦ throw Error.conflict ]

  -- A disabled source is synced as well: `enabled` is read by the schedule only.
  unfoldable pub sync_source_now :
      Feeds → ℕ → (SyncResponse → List (String × Scalar)) → Action SyncResponse
  unfolding assert_role sync_source_by_id
  sync_source_now feeds id detail = do
    assert_role user analyst_and_above
    result ← sync_source_by_id env feeds id
    record_audit env "source.sync" ActorType.user (some user.id) (some "source") (some id) ip
        (detail result)
    pure result
