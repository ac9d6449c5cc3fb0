-- ===== src/Ingestion.antt =====
-- app/services/ingestion/runner.py, and the identity of an item (base_connector.py): a source is
-- fetched, what is new is stored, and what happened is recorded. The connectors are a parameter.
pub mod Dedup
pub mod Sync
pub mod Schedule
use danah_v.Prelude.{
  ℕ, suc, ◌+◌, ◌-◌, ◌*◌, Bool, true, false, ◌&&◌, ◌||◌, Option, none, some, List, [], ◌∷◌, ◌++◌,
  ◌==◌, ltb, if◌then◌else◌, length, map, filterb, find_first, modify_first, take,
}
use danah_v.Enums.{Classification, ItemStatus}
use danah_v.Exceptions.{Error, Result, ok, raise}
use danah_v.Models.{Db, IngestedItem, Source, SyncStatus, Text}
use danah_v.Session.{
  flush, gate, Env, Action, pure, throw, query, write, draw, one_or, ask, attempt, ◌>>=◌, ◌>>◌,
}
use danah_v.Audit.{same_text}
use danah_v.Chunking.Scan.{strip}

-- An item as a connector gives it. A missing or empty text is the empty list.
pub record RawItem : Type 0 where
  pub external_id : Text
  pub title : Text
  pub url : Text
  pub published_at : Option ℕ
  pub classification : Classification

-- How identifiers, dates and small letters are written, and what the connector of a source gives
-- at its n-th call.
pub record Feeds : Type 0 where
  pub show_id : ℕ → Text
  pub iso_day : ℕ → Text
  pub lower : Text → Text
  pub fetch : ℕ → Source → Result (List RawItem)
  pub closes : ℕ → Bool

abbrev pub is_empty_text : Text → Bool
is_empty_text [] = true
is_empty_text (c ∷ cs) = false

-- "nodate"
abbrev pub nodate : Text
nodate = 110 ∷ 111 ∷ 100 ∷ 97 ∷ 116 ∷ 101 ∷ []

-- The date of a time in seconds is written by its day; `|` is 124 and `:` is 58.
abbrev pub day_text : Feeds → Option ℕ → Text
day_text feeds none = nodate
day_text feeds (some t) = feeds.iso_day t

unfoldable pub identity : Feeds → RawItem → Text
identity feeds item =
    if is_empty_text item.external_id
    then (if is_empty_text item.url
        then feeds.lower (strip item.title) ++ 124 ∷ day_text feeds item.published_at
        else item.url)
    else item.external_id

-- RawItem.dedup_hash
unfoldable pub dedup_hash : Env → Feeds → ℕ → RawItem → Text
unfolding identity
dedup_hash env feeds source_id item =
    env.sha256 (feeds.show_id source_id ++ 58 ∷ identity feeds item)

pub record SyncResponse : Type 0 where
  pub source_id : ℕ
  pub fetched : ℕ
  pub created : ℕ
  pub duplicates : ℕ
  pub error : Option Error
  pub synced_at : ℕ

abbrev pub item_row : Env → Feeds → ℕ → ℕ → ℕ → RawItem → IngestedItem
item_row env feeds source_id id now item = record {
  id = id;
  source_id = source_id;
  title = take 1_000 (strip item.title);
  classification = item.classification;
  status = ItemStatus.new;
  relevance = none;
  published_at = item.published_at;
  created_at = now;
  dedup_hash = dedup_hash env feeds source_id item;
}

abbrev pub known : Text → List IngestedItem → Bool
known hash [] = false
known hash (i ∷ items) = same_text i.dedup_hash hash || known hash items

-- INSERT ... ON CONFLICT (dedup_hash) DO NOTHING: the rows that were written are counted.
unfoldable pub insert_new : List IngestedItem → List IngestedItem → List IngestedItem × ℕ
insert_new [] table = (table, 0)
insert_new (row ∷ rows) table = elim (known row.dedup_hash table) [
  | true ↦ insert_new rows table
  | false ↦ let (table', created) = insert_new rows (table ++ row ∷ []) in (table', suc created)
]

abbrev pub has_source_id : ℕ → Source → Bool
has_source_id id s = s.id == id

abbrev pub attempted : ℕ → SyncStatus → Source → Source
attempted now status s = record s { last_synced_at = some now; last_status = some status }

abbrev pub set_source : ℕ → (Source → Source) → Db → Db
set_source id f db = record db { sources = modify_first (has_source_id id) f db.sources }

abbrev pub failed_response : Source → ℕ → Error → SyncResponse
failed_response source now e = record {
  source_id = source.id;
  fetched = 0;
  created = 0;
  duplicates = 0;
  error = some e;
  synced_at = now;
}

abbrev pub synced_response : Source → ℕ → ℕ → ℕ × ℕ → SyncResponse
synced_response source now fetched counts = record {
  source_id = source.id;
  fetched = fetched;
  created = counts.0;
  duplicates = counts.1;
  error = none;
  synced_at = now;
}

module _ (env : Env) (feeds : Feeds) where
  -- Each row has an id of its own; the creation time is the clock of the database.
  unfoldable pub item_rows : ℕ → List RawItem → Action (List IngestedItem)
  item_rows source_id [] = pure []
  item_rows source_id (item ∷ items) = do
    id ← draw env.uuid4
    now ← draw env.now
    rows ← item_rows source_id items
    pure (item_row env feeds source_id id now item ∷ rows)

  -- The statement inserts all of its rows or raises; without a row there is none.
  unfoldable pub insert_items : List IngestedItem → Action (ℕ × ℕ)
  unfolding insert_new
  insert_items [] = pure (0, 0)
  insert_items (row ∷ rest) = do
    let rows = row ∷ rest
    flush env
    created ← query (λ db. (insert_new rows db.items).1)
    write (λ db. record db { items = (insert_new rows db.items).0 })
    pure (created, length rows - created)

  unfoldable pub persist_items : ℕ → List RawItem → Action (ℕ × ℕ)
  unfolding item_rows insert_items
  persist_items source_id items = do rows ← item_rows source_id items; insert_items rows

  unfoldable pub settle_sync : Source → ℕ → Result (List RawItem) → Action SyncResponse
  unfolding persist_items
  settle_sync source now (raise e) = do
    write (set_source source.id (attempted now (SyncStatus.failure e)))
    flush env
    pure (failed_response source now e)
  settle_sync source now (ok items) = do
    counts ← persist_items source.id items
    write (set_source source.id (attempted now (SyncStatus.synced counts.0)))
    flush env
    pure (synced_response source now (length items) counts)

  -- _fetch turns every exception of a connector's fetch into an error; what closing the connector
  -- raises escapes.
  unfoldable pub sync_source : Source → Action SyncResponse
  unfolding settle_sync
  sync_source source = do
    now ← draw env.now
    items ← attempt (ask (λ n. feeds.fetch n source))
    gate feeds.closes Error.danah_error
    settle_sync source now items

  unfoldable pub sync_source_by_id : ℕ → Action SyncResponse
  unfolding sync_source
  sync_source_by_id id = do
    found ← query (λ db. find_first (has_source_id id) db.sources)
    source ← one_or Error.not_found found
    sync_source source

-- The interval of a source has elapsed, or it was never tried.
abbrev pub elapsed : ℕ → ℕ → Option ℕ → Bool
elapsed now interval none = true
elapsed now interval (some t) = ltb (t + 60 * interval) now

unfoldable pub is_due : ℕ → Source → Bool
is_due now s = s.enabled && elapsed now s.poll_interval_minutes s.last_synced_at

unfoldable pub due_source_ids : ℕ → Db → List ℕ
unfolding is_due
due_source_ids now db = map (λ s. s.id) (filterb (is_due now) db.sources)

pub data Health : Type 0 where
  disabled failing unknown stale healthy : Health

abbrev pub is_failure : Option SyncStatus → Bool
is_failure (some (SyncStatus.failure e)) = true
is_failure _ = false

abbrev pub health_by_age : ℕ → ℕ → Option ℕ → Health
health_by_age now interval none = Health.unknown
health_by_age now interval (some t) =
    if ltb (interval * 3 * 60) (now - t) then Health.stale else Health.healthy

-- A clock behind the last attempt gives a negative age, which is not stale.
unfoldable pub source_health : ℕ → Source → Health
source_health now s =
    if s.enabled
    then (if is_failure s.last_status
        then Health.failing
        else health_by_age now s.poll_interval_minutes s.last_synced_at)
    else Health.disabled
