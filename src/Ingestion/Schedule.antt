-- ===== src/Ingestion/Schedule.antt =====
-- When a source is tried again, and what the panel shows of it
-- (app/services/ingestion/runner.py).
use danah_v.Prelude.{
  true, length, ℕ, suc, ◌+◌, ◌*◌, ◌≡◌, refl, sym, subst, ◌&&◌, some, List, ltb, if◌then◌else◌,
  find_first, find_first-modify_first, find_first-holds, is_none, ==_iff,
}
use danah_v.Exceptions.{Error, Result, ok, raise}
use danah_v.Models.{Source, SyncStatus}
use danah_v.Session.{Env, Session}
use danah_v.Ingestion.{
  Feeds, RawItem, failed_response, synced_response, SyncResponse, Health, attempted, has_source_id,
  settle_sync, sync_source, sync_source_by_id, is_due, source_health, health_by_age,
}
use danah_v.Ingestion.Sync.{Accepts, persist_items-Persisted}

-- The row of a source after a sync that gave this response, seen at any later time: the sync counts
-- as an attempt, so the source is due when its interval has passed since, and not before.
pub record Tried (source : Source) (response : SyncResponse) (row : Source) : Type 0 where
  pub at : row.last_synced_at ≡ some response.synced_at
  pub due :
      (later : ℕ)
      → is_due later row
        ≡ (source.enabled && ltb (response.synced_at + 60 * source.poll_interval_minutes) later)
  pub health :
      (later : ℕ)
      → source_health later row ≡ (
          if source.enabled
          then (if is_none response.error
              then health_by_age later source.poll_interval_minutes (some response.synced_at)
              else Health.failing)
          else Health.disabled)

-- Closing a connector raises nothing.
abbrev pub Closes : Feeds → Type 0
Closes feeds = (n : ℕ) → feeds.closes n ≡ true

module _ (env : Env) (feeds : Feeds) where
  abbrev pub Recorded : Source → Result SyncResponse → Session → Type 0
  Recorded source r s =
      (response : SyncResponse) × (r ≡ ok response)
      × ((row : Source) × (find_first (has_source_id source.id) s.current.sources ≡ some row)
          × Tried source response row)

  failed-Tried :
      (source : Source) (now : ℕ) (e : Error)
      → Tried source (failed_response source now e) (attempted now (SyncStatus.failure e) source)
  unfolding is_due source_health
  failed-Tried source now e = record { at = refl; due = λ later. refl; health = λ later. refl }

  synced-Tried :
      (source : Source) (now fetched : ℕ) (counts : ℕ × ℕ)
      → Tried source
          (synced_response source now fetched counts)
          (attempted now (SyncStatus.synced counts.0) source)
  unfolding is_due source_health
  synced-Tried source now fetched counts = record {
    at = refl;
    due = λ later. refl;
    health = λ later. refl;
  }

  settle_sync-Recorded :
      (taken : Accepts env) (source : Source) (now : ℕ) (r : Result (List RawItem)) (s : Session)
      → find_first (has_source_id source.id) s.current.sources ≡ some source
      → Recorded source
          (settle_sync env feeds source now r s).0
          (settle_sync env feeds source now r s).1
  unfolding settle_sync
  settle_sync-Recorded taken source now (raise e) s h = rw (taken s.draws) (
    failed_response source now e,
    refl,
    (
      attempted now (SyncStatus.failure e) source,
      find_first-modify_first (has_source_id source.id) _ s.current.sources source h
          (find_first-holds (has_source_id source.id) s.current.sources source h),
      failed-Tried source now e,
    ),
  )
  settle_sync-Recorded taken source now (ok items) s h =
      let p = persist_items-Persisted env feeds source.id items s taken in
      rw (p.returned, taken p.end.draws)
        (
          synced_response source now (length items) (p.created, p.duplicates),
          refl,
          (
            attempted now (SyncStatus.synced p.created) source,
            find_first-modify_first (has_source_id source.id) _ p.end.current.sources source
                (rw p.frame h)
                (find_first-holds (has_source_id source.id) s.current.sources source h),
            synced-Tried source now (length items) (p.created, p.duplicates),
          ),
        )

  sync_source-Recorded :
      (taken : Accepts env) (closing : Closes feeds) (source : Source) (s : Session)
      → find_first (has_source_id source.id) s.current.sources ≡ some source
      → Recorded source (sync_source env feeds source s).0 (sync_source env feeds source s).1
  unfolding sync_source
  sync_source-Recorded taken closing source s h = rw (closing (suc (suc s.draws))) (
      settle_sync-Recorded taken source (env.now s.draws) (feeds.fetch (suc s.draws) source)
        (record s { draws = suc (suc s.draws) }) h)

  -- Where the database takes what is written and closing a connector raises nothing: a sync of a
  -- source that exists always returns, whatever its connector gives or raises, and leaves the attempt
  -- on the row: the source is due again when its interval has passed since, and not before, and the
  -- panel shows a failure as failing until the next attempt.
  pub sync_source_by_id-Recorded :
      (taken : Accepts env) (closing : Closes feeds) (id : ℕ) (source : Source) (s : Session)
      → find_first (has_source_id id) s.current.sources ≡ some source
      → Recorded source (sync_source_by_id env feeds id s).0 (sync_source_by_id env feeds id s).1
  unfolding sync_source_by_id
  sync_source_by_id-Recorded taken closing id source s h =
      let same =
        (==_iff source.id id).0 (find_first-holds (has_source_id id) s.current.sources source h) in
      rw h (
        sync_source-Recorded taken closing source s
          (subst (λ x. find_first (has_source_id x) s.current.sources ≡ some source) (sym same) h))
